-- ===== src/Resources/Booking/Histories.antt =====
-- The life of a booking over a sequence of calls.
use grad_sync.Prelude.{
  ℕ, ◌≤◌, ◌<◌, ◌≡◌, ◌⊎◌, refl, inl, inr, some, List, [], ◌∷◌, map, arith, find, put, ◌==◌,
  Bool-cases, ==_iff, find-put_ne, find_pk, ◌∙◌,
}
use grad_sync.Resources.Model.{Booking, BookingStatus}
use grad_sync.Resources.State.{Database}
use grad_sync.Resources.Effects.Runs.{atomic_err}
use grad_sync.Resources.Booking.Requests.{create_booking, update_booking}
use grad_sync.Resources.Booking.Lifecycle.{cancel_booking, return_booking, complete}
use grad_sync.Resources.Booking.Admission.{Saves, create_booking_run, update_booking_run}
use grad_sync.Resources.Booking.Endings.{cancel_booking_run, return_booking_run}
use grad_sync.Resources.Booking.Outcomes.{atomic-keeps, decide_booking-keeps}
use grad_sync.Resources.Booking.Traces.{
  Call, create, update, cancel, give_back, settle, reconcile, after, after_all, reconcile_bookings,
}
use grad_sync.Resources.Booking.Statuses.{◌⟶◌, IsKeyed, IsCurrent, after-AllAdvance, complete-id}

abbrev Keyed : List Booking → ℕ → Type 0
Keyed rows n = (pk : ℕ) (b : Booking) → find (λ r. r.id) pk rows ≡ some b → pk < n

put-Keyed :
    (rows : List Booking) (b : Booking) (n n' : ℕ)
    → Keyed rows n
    → n ≤ n'
    → b.id < n'
    → Keyed (put (λ r. r.id) b rows) n'
put-Keyed rows b n n' keyed le lt pk r found = elim (Bool-cases (b.id == pk)) [
  | inl e ↦ rw (← (==_iff b.id pk).0 e) lt
  | inr e ↦
      omega (arith, keyed pk r (rw (find-put_ne (λ r. r.id) pk b rows (ground arith)) at found))
]

complete-Keyed :
    (now : ℕ) (rows : List Booking) (pk : ℕ) (b : Booking)
    → find (λ r. r.id) pk (map (complete now) rows) ≡ some b
    → (old : Booking) × (find (λ r. r.id) pk rows ≡ some old)
complete-Keyed now [] pk b found = cc
complete-Keyed now (r ∷ rows) pk b found = elim (Bool-cases (r.id == pk)) [
  | inl e ↦ (r, rw e)
  | inr e ↦ rw e (complete-Keyed now rows pk b (rw (complete-id now r, e) at found))
]

-- A row that was found, saved again, keeps the keys below the sequence.
Saves-Keyed :
    (db db' : Database) (b old : Booking) (pk : ℕ)
    → Saves db db' b
    → find (λ r. r.id) pk db.bookings ≡ some old
    → b.id ≡ pk
    → IsKeyed db
    → IsKeyed db'
Saves-Keyed db db' b old pk saved found key keyed = rw saved.bookings (
    put-Keyed db.bookings b db.next_id db'.next_id keyed saved.keys
      (omega (arith, keyed pk old found, saved.keys)))

after-IsKeyed : (c : Call) (db : Database) → IsKeyed db → IsCurrent c db → IsKeyed (after c db)
unfolding after create_booking update_booking cancel_booking return_booking
after-IsKeyed (create env u own item s e q purpose p) db keyed current =
    atomic-keeps IsKeyed db (create_booking env u own item s e q purpose p db)
      (λ x db'. atomic_err _)
      (λ b db' r.
        let run = create_booking_run env u own item s e q purpose p db db' b r in
        rw run.saves.bookings (
          put-Keyed db.bookings b db.next_id db'.next_id keyed run.saves.keys
            (omega (arith, run.key, run.next))))
      keyed
after-IsKeyed (update env u old s e q purpose v) db keyed current =
    atomic-keeps IsKeyed db (update_booking env u old s e q purpose v db) (λ x db'. atomic_err _)
      (λ b db' r.
        let run = update_booking_run env u old s e q purpose v db db' b r in
        Saves-Keyed db db' b old old.id run.saves current (rw run.result) keyed)
      keyed
after-IsKeyed (cancel env u pk) db keyed current =
    atomic-keeps IsKeyed db (cancel_booking env u pk db) (λ x db'. atomic_err _)
      (λ b db' r.
        let run = cancel_booking_run env u pk db db' b r in
        Saves-Keyed db db' b run.old pk run.saves run.found
          (rw run.result (find_pk (λ r. r.id) pk db.bookings run.found)) keyed)
      keyed
after-IsKeyed (give_back env u pk) db keyed current =
    atomic-keeps IsKeyed db (return_booking env u pk db) (λ x db'. atomic_err _)
      (λ b db' r.
        let run = return_booking_run env u pk db db' b r in
        Saves-Keyed db db' b run.old pk run.saves run.found
          (rw run.result (find_pk (λ r. r.id) pk db.bookings run.found)) keyed)
      keyed
after-IsKeyed (settle env u pk accept note) db keyed current =
    decide_booking-keeps (λ items rows n. Keyed rows n) env u pk accept note db
      (λ mid b run.
        Saves-Keyed db mid b run.old pk run.saves run.found
          (rw run.result (find_pk (λ r. r.id) pk db.bookings run.found)) keyed)
      keyed
after-IsKeyed (reconcile env) db keyed current =
    let (rows, items, keys) = reconcile_bookings env db in
    rw (rows, keys)
      λ pk b found.
        let (old, found') = complete-Keyed env.now db.bookings pk b found in keyed pk old found'

-- Every update in the sequence works on the row as it is at that point.
abbrev pub AllCurrent : List Call → Database → Type 0
AllCurrent [] db = Unit
AllCurrent (c ∷ cs) db = IsCurrent c db × AllCurrent cs (after c db)

-- Some edges of the graph, one after the other.
infix 40 ◌⟶*◌
pub data ◌⟶*◌ : BookingStatus → BookingStatus → Type 0 where
  here : {s : BookingStatus} → s ⟶* s
  then : {s t u : BookingStatus} → s ⟶ t → t ⟶* u → s ⟶* u

extend : {s t u : BookingStatus} → (s ≡ t) ⊎ (s ⟶ t) → t ⟶* u → s ⟶* u
extend (inl e) path = rw e path
extend (inr edge) path = ◌⟶*◌.then edge path

-- Over a sequence of calls with no stale update, a booking that is in the table stays in it, for the
-- same resource and the same requester, and its status follows the edges of the graph.
pub after_all_path :
    (cs : List Call) (db : Database)
    → IsKeyed db
    → AllCurrent cs db
    → (pk : ℕ) (old : Booking) → find (λ r. r.id) pk db.bookings ≡ some old
    → (new : Booking) × (find (λ r. r.id) pk (after_all cs db).bookings ≡ some new)
      × (old.status ⟶* new.status)
      × (new.resource_item ≡ old.resource_item)
      × (new.requested_by ≡ old.requested_by)
unfolding after_all
after_all_path [] db keyed current pk old found = (old, found, ◌⟶*◌.here, refl, refl)
after_all_path (c ∷ cs) db keyed current pk old found =
    let (mid, found', step) = after-AllAdvance c db keyed current.0 pk old found in
    let (new, found'', path, resource, requester) =
      after_all_path cs (after c db) (after-IsKeyed c db keyed current.0) current.1 pk mid found' in
    (new, found'', extend step.status path, resource ∙ step.resource, requester ∙ step.requester)

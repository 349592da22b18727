-- ===== src/Resources/Booking/Statuses.antt =====
-- The life of a booking: the status graph, and that every call moves along it.
use grad_sync.Prelude.{
  ℕ, ◌≤◌, ◌<◌, ◌≡◌, ◌⊎◌, refl, inl, inr, Bool, true, false, some, List, [], ◌∷◌, map, arith, find,
  put, find-put_ne, ◌∙◌, ◌==◌, find_pk, if◌then◌else◌, Bool-cases, ==_iff,
}
use grad_sync.Resources.Model.{Booking, BookingStatus, is_committed, is_pending}
use grad_sync.Resources.State.{Database}
use grad_sync.Resources.Effects.Runs.{atomic_err}
use grad_sync.Resources.Booking.Requests.{create_booking, update_booking}
use grad_sync.Resources.Booking.Lifecycle.{is_cancellable, cancel_booking, return_booking, complete}
use grad_sync.Resources.Booking.Admission.{Saves, create_booking_run, update_booking_run}
use grad_sync.Resources.Booking.Endings.{cancel_booking_run, return_booking_run}
use grad_sync.Resources.Booking.Outcomes.{atomic-keeps, decide_booking-keeps}
use grad_sync.Resources.Booking.Traces.{
  Call, create, update, cancel, give_back, settle, reconcile, after, reconcile_bookings,
}

infix 40 ◌⟶◌
pub data ◌⟶◌ : BookingStatus → BookingStatus → Type 0 where
  approve : BookingStatus.pending ⟶ BookingStatus.confirmed
  reject : BookingStatus.pending ⟶ BookingStatus.rejected
  withdraw : BookingStatus.pending ⟶ BookingStatus.cancelled
  drop : BookingStatus.confirmed ⟶ BookingStatus.cancelled
  drop_reserved : BookingStatus.reserved ⟶ BookingStatus.cancelled
  finish : BookingStatus.confirmed ⟶ BookingStatus.completed
  finish_reserved : BookingStatus.reserved ⟶ BookingStatus.completed

cancellable-⟶ : (s : BookingStatus) → is_cancellable s ≡ true → s ⟶ BookingStatus.cancelled
cancellable-⟶ s h = grind (arith, withdraw, drop, drop_reserved)

committed-⟶ : (s : BookingStatus) → is_committed s ≡ true → s ⟶ BookingStatus.completed
committed-⟶ s h = grind (arith, finish, finish_reserved)

decided-⟶ :
    (s : BookingStatus) (accept : Bool)
    → is_pending s ≡ true
    → s ⟶ (if accept then BookingStatus.confirmed else BookingStatus.rejected)
decided-⟶ s true h = grind (arith, approve)
decided-⟶ s false h = grind (arith, reject)

-- The row has kept its status or moved along an edge, for the same resource and requester.
pub record Advances (old new : Booking) : Type 0 where
  pub status : (old.status ≡ new.status) ⊎ (old.status ⟶ new.status)
  pub version : old.version ≤ new.version
  pub resource : new.resource_item ≡ old.resource_item
  pub requester : new.requested_by ≡ old.requested_by

-- Every row is still there, and has advanced.
abbrev pub AllAdvance : List Booking → List Booking → Type 0
AllAdvance rows rows' =
    (pk : ℕ) (old : Booking)
    → find (λ r. r.id) pk rows ≡ some old
    → (new : Booking) × (find (λ r. r.id) pk rows' ≡ some new) × Advances old new

Advances-refl : (b : Booking) → Advances b b
Advances-refl b = record {
  status = inl refl;
  version = omega arith;
  resource = refl;
  requester = refl;
}

AllAdvance-refl : (rows : List Booking) → AllAdvance rows rows
AllAdvance-refl rows pk old found = (old, found, Advances-refl old)

put-AllAdvance :
    (rows : List Booking) (b : Booking)
    → ((old : Booking) → find (λ r. r.id) b.id rows ≡ some old → Advances old b)
    → AllAdvance rows (put (λ r. r.id) b rows)
put-AllAdvance rows b step pk old found = elim (Bool-cases (b.id == pk)) [
  | inl e ↦ let same : b.id ≡ pk = (==_iff b.id pk).0 e in (b, rw e, step old (rw same found))
  | inr e ↦ (old, find-put_ne (λ r. r.id) pk b rows (ground arith) ∙ found, Advances-refl old)
]

complete-Advances : (now : ℕ) (b : Booking) → Advances b (complete now b)
unfolding complete
complete-Advances now b = record {
  status = grind (arith, finish, finish_reserved);
  version = ground arith;
  resource = ground arith;
  requester = ground arith;
}

pub complete-id : (now : ℕ) (b : Booking) → (complete now b).id ≡ b.id
unfolding complete
complete-id now b = ground arith

complete-AllAdvance : (now : ℕ) (rows : List Booking) → AllAdvance rows (map (complete now) rows)
complete-AllAdvance now [] pk old found = cc
complete-AllAdvance now (b ∷ rows) pk old found = elim (Bool-cases (b.id == pk)) [
  | inl e ↦
      let same : b ≡ old = ground (arith, found) in
      (complete now b, rw (complete-id now b, e), rw (← same) (complete-Advances now b))
  | inr e ↦ rw (complete-id now b, e) (complete-AllAdvance now rows pk old (rw e at found))
]

-- The new row of a `create` takes the key `next_id`, which no row has.
abbrev pub IsKeyed : Database → Type 0
IsKeyed db = (pk : ℕ) (b : Booking) → find (λ r. r.id) pk db.bookings ≡ some b → pk < db.next_id

-- The object that an update works on is the row as it is in the database.
abbrev pub IsCurrent : Call → Database → Type 0
IsCurrent (update env u b s e q purpose v) db = find (λ r. r.id) b.id db.bookings ≡ some b
IsCurrent _ db = Unit

Saves-AllAdvance :
    (db db' : Database) (b old : Booking) (pk : ℕ)
    → Saves db db' b
    → find (λ r. r.id) pk db.bookings ≡ some old
    → b.id ≡ old.id
    → Advances old b
    → AllAdvance db.bookings db'.bookings
Saves-AllAdvance db db' b old pk saved found key step = rw saved.bookings (
    put-AllAdvance db.bookings b λ row found'.
      let key' : b.id ≡ pk = key ∙ find_pk (λ r. r.id) pk db.bookings found in
      let same : old ≡ row = ground (arith, found, rw key' at found') in rw (← same) step)

-- Unless an update works on a stale object, no call loses a booking, and the status of each either
-- stays or moves along the graph; versions never fall, and nobody's booking becomes another's.
pub after-AllAdvance :
    (c : Call) (db : Database)
    → IsKeyed db
    → IsCurrent c db
    → AllAdvance db.bookings (after c db).bookings
unfolding after create_booking update_booking cancel_booking return_booking
after-AllAdvance (create env u own item s e q purpose p) db keyed current =
    atomic-keeps (λ db'. AllAdvance db.bookings db'.bookings) db
      (create_booking env u own item s e q purpose p db) (λ x db'. atomic_err _)
      (λ b db' r.
        let run = create_booking_run env u own item s e q purpose p db db' b r in
        rw run.saves.bookings (
          put-AllAdvance db.bookings b
            λ old found. absurd (omega (arith, keyed b.id old found, run.key))))
      (AllAdvance-refl db.bookings)
after-AllAdvance (update env u old s e q purpose v) db keyed current =
    atomic-keeps (λ db'. AllAdvance db.bookings db'.bookings) db
      (update_booking env u old s e q purpose v db) (λ x db'. atomic_err _)
      (λ b db' r.
        let run = update_booking_run env u old s e q purpose v db db' b r in
        Saves-AllAdvance db db' b old old.id run.saves current (rw run.result) (
          rw run.result (record {
            status = inl refl;
            version = omega arith;
            resource = refl;
            requester = refl;
          })))
      (AllAdvance-refl db.bookings)
after-AllAdvance (cancel env u pk) db keyed current =
    atomic-keeps (λ db'. AllAdvance db.bookings db'.bookings) db (cancel_booking env u pk db)
      (λ x db'. atomic_err _)
      (λ b db' r.
        let run = cancel_booking_run env u pk db db' b r in
        Saves-AllAdvance db db' b run.old pk run.saves run.found (rw run.result) (
          rw run.result (record {
            status = inr (cancellable-⟶ run.old.status run.open_status);
            version = omega arith;
            resource = refl;
            requester = refl;
          })))
      (AllAdvance-refl db.bookings)
after-AllAdvance (give_back env u pk) db keyed current =
    atomic-keeps (λ db'. AllAdvance db.bookings db'.bookings) db (return_booking env u pk db)
      (λ x db'. atomic_err _)
      (λ b db' r.
        let run = return_booking_run env u pk db db' b r in
        Saves-AllAdvance db db' b run.old pk run.saves run.found (rw run.result) (
          rw run.result (record {
            status = inr (committed-⟶ run.old.status run.committed);
            version = omega arith;
            resource = refl;
            requester = refl;
          })))
      (AllAdvance-refl db.bookings)
after-AllAdvance (settle env u pk accept note) db keyed current =
    decide_booking-keeps (λ items rows n. AllAdvance db.bookings rows) env u pk accept note db
      (λ mid b run. Saves-AllAdvance db mid b run.old pk run.saves run.found (rw run.result) (
        rw run.result (record {
          status = inr (decided-⟶ run.old.status accept run.pending);
          version = omega arith;
          resource = refl;
          requester = refl;
        })))
      (AllAdvance-refl db.bookings)
after-AllAdvance (reconcile env) db keyed current =
    rw (reconcile_bookings env db).0 (complete-AllAdvance env.now db.bookings)

-- ===== src/Resources/Booking/Traces.antt =====
-- Sequences of booking operations, by any users, at any times, whether they succeed or raise.
use grad_sync.Prelude.{ℕ, ◌≤◌, ◌≡◌, Bool, Option, List, [], ◌∷◌, Text, map, arith}
use grad_sync.Accounts.{User}
use grad_sync.Resources.Model.{ResourceItem, Booking, Datetime}
use grad_sync.Resources.State.{Database, Environment}
use grad_sync.Resources.Effects.{pure, check, ◌>>=◌, modify}
use grad_sync.Resources.Effects.Runs.{atomic_err}
use grad_sync.Resources.Capacity.{usage}
use grad_sync.Resources.Booking.Requests.{create_booking, update_booking}
use grad_sync.Resources.Booking.Lifecycle.{
  cancel_booking, return_booking, decide_booking, complete, reconcile_completed_bookings,
}
use grad_sync.Resources.Booking.Admission.{create_booking_run, update_booking_run}
use grad_sync.Resources.Booking.Endings.{cancel_booking_run, return_booking_run}
use grad_sync.Resources.Booking.Safety.{
  IsWithinCapacity, create-IsWithinCapacity, update-IsWithinCapacity, ended-IsWithinCapacity,
  decide-IsWithinCapacity,
}
use grad_sync.Resources.Booking.Outcomes.{atomic-keeps, decide_booking-keeps}
use grad_sync.Resources.Capacity.Usage.{WithinCapacity}

-- One call of the service. The environment gives its time, the object of an update may be stale.
pub data Call : Type 0 where
  create :
      Environment
      → User
      → Option ℕ
      → ResourceItem
      → Option Datetime
      → Option Datetime
      → ℕ
      → Text
      → Option ℕ
      → Call
  update :
      Environment
      → User
      → Booking
      → Option Datetime
      → Option Datetime
      → Option ℕ
      → Option Text
      → Option ℕ
      → Call
  cancel : Environment → User → ℕ → Call
  give_back : Environment → User → ℕ → Call
  settle : Environment → User → ℕ → Bool → Text → Call
  reconcile : Environment → Call

-- The database after a call.
unfoldable pub after : Call → Database → Database
after (create env u own item s e q purpose p) db =
    (create_booking env u own item s e q purpose p db).1
after (update env u b s e q purpose v) db = (update_booking env u b s e q purpose v db).1
after (cancel env u pk) db = (cancel_booking env u pk db).1
after (give_back env u pk) db = (return_booking env u pk db).1
after (settle env u pk approve note) db = (decide_booking env u pk approve note db).1
after (reconcile env) db = (reconcile_completed_bookings env db).1

unfoldable pub after_all : List Call → Database → Database
after_all [] db = db
after_all (c ∷ cs) db = after_all cs (after c db)

usage-complete :
    (k now t : ℕ) (bs : List Booking) → usage k t (map (complete now) bs) ≤ usage k t bs
unfolding complete
usage-complete k now t [] = omega arith
usage-complete k now t (b ∷ bs) = ground (arith, usage-complete k now t bs)

pub reconcile_bookings :
    (env : Environment) (db : Database)
    → let db' = (reconcile_completed_bookings env db).1 in
      (db'.bookings ≡ map (complete env.now) db.bookings)
      × (db'.items ≡ db.items)
      × (db'.next_id ≡ db.next_id)
unfolding reconcile_completed_bookings pure check ◌>>=◌ modify
reconcile_bookings env db = ground arith

reconcile-IsWithinCapacity :
    (env : Environment) (db : Database)
    → IsWithinCapacity db
    → IsWithinCapacity (reconcile_completed_bookings env db).1
reconcile-IsWithinCapacity env db within =
    let (rows, items, keys) = reconcile_bookings env db in
    rw (rows, items)
      λ k item t found. omega (arith, within k item t found, usage-complete k env.now t db.bookings)

after-IsWithinCapacity :
    (c : Call) (db : Database) → IsWithinCapacity db → IsWithinCapacity (after c db)
unfolding after create_booking update_booking cancel_booking return_booking
after-IsWithinCapacity (create env u own item s e q purpose p) db h =
    atomic-keeps IsWithinCapacity db (create_booking env u own item s e q purpose p db)
      (λ x db'. atomic_err _)
      (λ b db' r.
        create-IsWithinCapacity env u own item s e q purpose p db db' b
          (create_booking_run env u own item s e q purpose p db db' b r) h)
      h
after-IsWithinCapacity (update env u old s e q purpose v) db h =
    atomic-keeps IsWithinCapacity db (update_booking env u old s e q purpose v db)
      (λ x db'. atomic_err _)
      (λ b db' r.
        update-IsWithinCapacity env u old s e q purpose v db db' b
          (update_booking_run env u old s e q purpose v db db' b r) h)
      h
after-IsWithinCapacity (cancel env u pk) db h =
    atomic-keeps IsWithinCapacity db (cancel_booking env u pk db) (λ x db'. atomic_err _)
      (λ b db' r.
        let run = cancel_booking_run env u pk db db' b r in
        ended-IsWithinCapacity db db' b run.saves (rw run.result) h)
      h
after-IsWithinCapacity (give_back env u pk) db h =
    atomic-keeps IsWithinCapacity db (return_booking env u pk db) (λ x db'. atomic_err _)
      (λ b db' r.
        let run = return_booking_run env u pk db db' b r in
        ended-IsWithinCapacity db db' b run.saves (rw run.result) h)
      h
after-IsWithinCapacity (settle env u pk approve note) db h =
    decide_booking-keeps (λ items rows n. WithinCapacity items rows) env u pk approve note db
      (λ mid b run. decide-IsWithinCapacity env u pk approve note db mid b run h) h
after-IsWithinCapacity (reconcile env) db h = reconcile-IsWithinCapacity env db h

-- From a database in which no resource is over-committed at any instant, every sequence of creations,
-- changes (also through stale objects), cancellations, returns, decisions and reconciliations, by any
-- users and at any times, leads to one in which none is.
pub after_all-IsWithinCapacity :
    (cs : List Call) (db : Database) → IsWithinCapacity db → IsWithinCapacity (after_all cs db)
unfolding after_all
after_all-IsWithinCapacity [] db h = h
after_all-IsWithinCapacity (c ∷ cs) db h =
    after_all-IsWithinCapacity cs (after c db) (after-IsWithinCapacity c db h)

-- ===== src/Resources/Booking/Outcomes.antt =====
-- How `decide_booking` and the operations in transactions end: with the state that a successful run
-- leaves, or with the tables as they were.
use grad_sync.Prelude.{ℕ, ◌≡◌, refl, inl, inr, Bool, true, false, List, Text, arith, Bool-cases}
use grad_sync.Accounts.{User}
use grad_sync.Resources.Model.{ResourceItem, Booking}
use grad_sync.Resources.State.{ok, err, Error, Result, Database, Environment}
use grad_sync.Resources.Effects.{pure, check, atomic, attempt, ◌>>=◌, raise_if, modify}
use grad_sync.Resources.Effects.Runs.{atomic_err, atomic_ok}
use grad_sync.Resources.Access.{is_resource_manager}
use grad_sync.Resources.Booking.{notify_booking_change}
use grad_sync.Resources.Booking.Lifecycle.{decide, except_conflict, settle, decide_booking}
use grad_sync.Resources.Booking.Endings.{DecideRun, decide_run}

-- What follows the `try` writes events and notifications only.
settle-tables :
    (env : Environment) (user : User) (pk : ℕ) (outcome : Result Booking) (db : Database)
    → let db' = (settle env user pk outcome db).1 in
      (db'.bookings ≡ db.bookings) × (db'.items ≡ db.items) × (db'.next_id ≡ db.next_id)
unfolding settle except_conflict notify_booking_change pure check ◌>>=◌ modify
settle-tables env user pk (ok b) db = ground arith
settle-tables env user pk (err (Error.conflict c)) db = ground arith
settle-tables env user pk (err e) db = ground arith

-- A decision by someone who may not decide changes nothing.
refused-decision :
    (env : Environment) (user : User) (pk : ℕ) (approve : Bool) (note : Text) (db : Database)
    → is_resource_manager user ≡ false
    → (decide_booking env user pk approve note db).1 ≡ db
unfolding decide_booking ◌>>=◌ raise_if
refused-decision env user pk approve note db h = rw h

decide_booking-settle :
    (env : Environment) (user : User) (pk : ℕ) (approve : Bool) (note : Text) (db : Database)
    → is_resource_manager user ≡ true
    → let (r, mid) = atomic (decide env user pk approve note) db in
      decide_booking env user pk approve note db ≡ settle env user pk r mid
unfolding decide_booking ◌>>=◌ raise_if attempt
decide_booking-settle env user pk approve note db h = rw h

-- What a successful decision brings about, and what held before, is all that can hold of the tables.
pub decide_booking-keeps :
    (P : List ResourceItem → List Booking → ℕ → Type 0) (env : Environment) (user : User) (pk : ℕ)
    (approve : Bool) (note : Text) (db : Database)
    → ((mid : Database) (b : Booking)
        → DecideRun env user pk approve note db mid b
        → P mid.items mid.bookings mid.next_id)
    → P db.items db.bookings db.next_id
    → let db' = (decide_booking env user pk approve note db).1 in
      P db'.items db'.bookings db'.next_id
decide_booking-keeps P env user pk approve note db done before =
    elim (Bool-cases (is_resource_manager user)) [
      | inr no_one ↦ rw (refused-decision env user pk approve note db no_one) before
      | inl manager ↦
          rw (decide_booking-settle env user pk approve note db manager)
            (keep (atomic (decide env user pk approve note) db) refl)
    ]
  where
    keep :
        (p : Result Booking × Database)
        → atomic (decide env user pk approve note) db ≡ p
        → let db' = (settle env user pk p.0 p.1).1 in P db'.items db'.bookings db'.next_id
    keep (ok b, mid) e =
        let same = settle-tables env user pk (ok b) mid in
        rw (same.0, same.1, same.2)
          (done mid b (decide_run env user pk approve note db mid b (atomic_ok db _ e)))
    keep (err x, mid) e =
        let same = settle-tables env user pk (err x) mid in
        rw (same.0, same.1, same.2, atomic_err _ e) before

-- An operation in a transaction of its own keeps what its successful runs keep.
pub atomic-keeps :
    {A : Type 0} (P : Database → Type 0) (db : Database) (p : Result A × Database)
    → ((e : Error) (db' : Database) → p ≡ (err e, db') → db' ≡ db)
    → ((a : A) (db' : Database) → p ≡ (ok a, db') → P db')
    → P db
    → P p.1
atomic-keeps P db (ok a, db') raised done h = done a db' refl
atomic-keeps P db (err e, db') raised done h = rw (raised e db' refl) h

-- ===== src/Resources/Booking/Endings.antt =====
-- What `cancel_booking`, `return_booking` and the decision in `decide_booking` have done when they
-- return.
use grad_sync.Prelude.{
  ℕ, ◌+◌, ◌<◌, ◌≡◌, refl, Bool, true, Option, none, some, Text, arith, strip, find, if◌then◌else◌,
}
use grad_sync.Accounts.{User}
use grad_sync.Resources.Model.{Booking, BookingStatus, from_db, is_committed, is_pending}
use grad_sync.Resources.State.{ok, Database, Environment}
use grad_sync.Resources.Effects.{or_missing}
use grad_sync.Resources.Effects.Runs.{check_ok, raise_if_ok, modify_ok, returns, atomic_ok}
use grad_sync.Resources.Access.{may_change}
use grad_sync.Resources.Capacity.{assert_capacity}
use grad_sync.Resources.Booking.Steps.{save_booking_ok, notify_ok}
use grad_sync.Resources.Booking.Lifecycle.{is_cancellable, cancel_booking, return_booking, decide}
use grad_sync.Resources.Booking.Admission.{Saves}

pub or_missing_ok : {A : Type 0} (o : Option A) {a : A} → or_missing o ≡ ok a → o ≡ some a
or_missing_ok none h = cc
or_missing_ok (some x) h = ground arith

pub record CancelRun (env : Environment) (user : User) (pk : ℕ) (db db' : Database) (b : Booking)
    : Type 0 where
  pub old : Booking
  pub found : find (λ r. r.id) pk db.bookings ≡ some old
  pub future : env.now < old.starts_at
  pub allowed : may_change user old.requested_by ≡ true
  pub open_status : is_cancellable old.status ≡ true
  pub result : b ≡ record old {
    status = BookingStatus.cancelled;
    cancelled_at = some env.now;
    version = old.version + 1;
  }
  pub saves : Saves db db' b

pub cancel_booking_run :
    (env : Environment) (user : User) (pk : ℕ) (db db' : Database) (b : Booking)
    → cancel_booking env user pk db ≡ (ok b, db')
    → CancelRun env user pk db db' b
unfolding cancel_booking
cancel_booking_run env user pk db db' b h = raise_if_ok _ _ _ _ (atomic_ok _ _ h) λ active h1.
    check_ok _ _ _ h1 λ old found h2. raise_if_ok _ _ _ _ h2 λ future h3.
      raise_if_ok _ _ _ _ h3 λ allowed h4. raise_if_ok _ _ _ _ h4 λ cancellable h5.
        save_booking_ok _ _ _ h5 λ positive ordered h6. notify_ok _ _ _ _ _ _ h6 λ ns h7.
          modify_ok _ _ _ h7 λ h8.
            returns (λ b' db''. CancelRun env user pk db db'' b') _ h8
              (record {
                old = old;
                found = or_missing_ok _ found;
                future = ground arith;
                allowed = ground arith;
                open_status = ground arith;
                result = refl;
                saves = record {
                  bookings = refl;
                  items = refl;
                  maintenance = refl;
                  keys = omega arith;
                  positive = positive;
                  ordered = ordered;
                };
              })

pub record ReturnRun (env : Environment) (user : User) (pk : ℕ) (db db' : Database) (b : Booking)
    : Type 0 where
  pub old : Booking
  pub found : find (λ r. r.id) pk db.bookings ≡ some old
  pub allowed : may_change user old.requested_by ≡ true
  pub committed : is_committed old.status ≡ true
  pub begun : old.starts_at < env.now
  pub running : env.now < old.ends_at
  pub result : b ≡ record old {
    ends_at = env.now;
    status = BookingStatus.completed;
    completed_at = some env.now;
    version = old.version + 1;
  }
  pub saves : Saves db db' b

pub return_booking_run :
    (env : Environment) (user : User) (pk : ℕ) (db db' : Database) (b : Booking)
    → return_booking env user pk db ≡ (ok b, db')
    → ReturnRun env user pk db db' b
unfolding return_booking
return_booking_run env user pk db db' b h = raise_if_ok _ _ _ _ (atomic_ok _ _ h) λ active h1.
    check_ok _ _ _ h1 λ old found h2. raise_if_ok _ _ _ _ h2 λ allowed h3.
      raise_if_ok _ _ _ _ h3 λ committed h4. raise_if_ok _ _ _ _ h4 λ running h5.
        save_booking_ok _ _ _ h5 λ positive ordered h6. notify_ok _ _ _ _ _ _ h6 λ ns h7.
          modify_ok _ _ _ h7 λ h8.
            returns (λ b' db''. ReturnRun env user pk db db'' b') _ h8
              (record {
                old = old;
                found = or_missing_ok _ found;
                allowed = ground arith;
                committed = ground arith;
                begun = ordered;
                running = ground arith;
                result = refl;
                saves = record {
                  bookings = refl;
                  items = refl;
                  maintenance = refl;
                  keys = omega arith;
                  positive = positive;
                  ordered = ordered;
                };
              })

pub record DecideRun (env : Environment) (user : User) (pk : ℕ) (approve : Bool) (note : Text)
    (db db' : Database) (b : Booking) : Type 0 where
  pub old : Booking
  pub found : find (λ r. r.id) pk db.bookings ≡ some old
  pub pending : is_pending old.status ≡ true
  pub admitted :
      approve ≡ true
      → assert_capacity old.resource_item
          (from_db old.starts_at)
          (from_db old.ends_at)
          old.quantity
          none
          db
        ≡ ok tt
  pub result : b ≡ record old {
    status = if approve then BookingStatus.confirmed else BookingStatus.rejected;
    reviewer = some user.id;
    decision_note = strip note;
    decided_at = some env.now;
    version = old.version + 1;
  }
  pub saves : Saves db db' b

pub decide_run :
    (env : Environment) (user : User) (pk : ℕ) (approve : Bool) (note : Text) (db db' : Database)
    (b : Booking)
    → decide env user pk approve note db ≡ (ok b, db')
    → DecideRun env user pk approve note db db' b
unfolding decide
decide_run env user pk approve note db db' b h = check_ok _ _ _ h λ old found h1.
    raise_if_ok _ _ _ _ h1 λ pending h2. check_ok _ _ _ h2 λ u admitted h3.
      save_booking_ok _ _ _ h3 λ positive ordered h4. modify_ok _ _ _ h4 λ h5.
        returns (λ b' db''. DecideRun env user pk approve note db db'' b') _ h5
          (record {
            old = old;
            found = or_missing_ok _ found;
            pending = ground arith;
            admitted = λ c. rw c at admitted;
            result = refl;
            saves = record {
              bookings = refl;
              items = refl;
              maintenance = refl;
              keys = omega arith;
              positive = positive;
              ordered = ordered;
            };
          })

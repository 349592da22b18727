-- ===== src/Resources/Booking/Admission.antt =====
-- What `create_booking` and `update_booking` have done when they return: they saved one row, and if
-- the row is committed then its window and its quantity have passed the admission test.
use grad_sync.Prelude.{
  not, ◌||◌, ℕ, suc, ◌+◌, ◌≤◌, ◌<◌, ◌≡◌, refl, true, false, Option, none, some, Text, arith, put,
  if◌then◌else◌,
}
use grad_sync.Accounts.{User}
use grad_sync.Resources.Model.{
  ConfirmationPolicy, ResourceItem, Booking, Datetime, from_db, is_committed,
}
use grad_sync.Resources.State.{ok, Database, Environment}
use grad_sync.Resources.Effects.Runs.{
  check_ok, raise_if_ok, modify_ok, fresh_id_ok, returns, atomic_ok,
}
use grad_sync.Resources.Access.{is_resource_manager, is_active_student, may_change}
use grad_sync.Resources.Capacity.{assert_capacity}
use grad_sync.Resources.Booking.{
  window, direct_use_window, effective_confirmation_policy, initial_status, or_else,
}
use grad_sync.Resources.Booking.Steps.{save_booking_ok, notify_ok}
use grad_sync.Resources.Booking.Requests.{
  create_booking, update_booking, is_stale, or_quantity, or_text,
}

-- The operation saved `b` and touched no other row of the bookings, the items or the outages.
pub record Saves (db db' : Database) (b : Booking) : Type 0 where
  pub bookings : db'.bookings ≡ put (λ r. r.id) b db.bookings
  pub items : db'.items ≡ db.items
  pub maintenance : db'.maintenance ≡ db.maintenance
  pub keys : db.next_id ≤ db'.next_id
  pub positive : 1 ≤ b.quantity
  pub ordered : b.starts_at < b.ends_at

-- A run of `update_booking`, by what it has tested and what it returns.
pub record UpdateRun (env : Environment) (user : User) (booking : Booking)
    (starts_at ends_at : Option Datetime) (quantity : Option ℕ) (purpose : Option Text)
    (version : Option ℕ) (db db' : Database) (b : Booking) : Type 0 where
  pub w : Datetime × Datetime
  pub future : env.now < booking.starts_at
  pub allowed : may_change user booking.requested_by ≡ true
  pub fresh : is_stale version booking.version ≡ false
  pub windowed :
      window env
        (or_else starts_at (some (from_db booking.starts_at)))
        (or_else ends_at (some (from_db booking.ends_at)))
      ≡ ok w
  pub admitted :
      is_committed booking.status ≡ true
      → assert_capacity booking.resource_item w.0 w.1
          (or_quantity quantity booking.quantity)
          (some booking.id)
          db
        ≡ ok tt
  pub result : b ≡ record booking {
    starts_at = w.0.instant;
    ends_at = w.1.instant;
    quantity = or_quantity quantity booking.quantity;
    purpose = or_text purpose booking.purpose;
    version = booking.version + 1;
  }
  pub saves : Saves db db' b

pub update_booking_run :
    (env : Environment) (user : User) (booking : Booking) (starts_at ends_at : Option Datetime)
    (quantity : Option ℕ) (purpose : Option Text) (version : Option ℕ) (db db' : Database)
    (b : Booking)
    → update_booking env user booking starts_at ends_at quantity purpose version db ≡ (ok b, db')
    → UpdateRun env user booking starts_at ends_at quantity purpose version db db' b
unfolding update_booking
update_booking_run env user booking starts_at ends_at quantity purpose version db db' b h =
    raise_if_ok _ _ _ _ (atomic_ok _ _ h) λ active h1. raise_if_ok _ _ _ _ h1 λ future h2.
      raise_if_ok _ _ _ _ h2 λ allowed h3. raise_if_ok _ _ _ _ h3 λ fresh h4.
        check_ok _ _ _ h4 λ w windowed h5. check_ok _ _ _ h5 λ u admitted h6.
          save_booking_ok _ _ _ h6 λ positive ordered h7. notify_ok _ _ _ _ _ _ h7 λ ns h8.
            modify_ok _ _ _ h8 λ h9.
              returns
                (λ b' db''.
                  UpdateRun env user booking starts_at ends_at quantity purpose version db db'' b')
                _ h9
                (record {
                  w = w;
                  future = ground arith;
                  allowed = ground arith;
                  fresh = fresh;
                  windowed = windowed;
                  admitted = λ c. rw c at admitted;
                  result = refl;
                  saves = record {
                    bookings = refl;
                    items = refl;
                    maintenance = refl;
                    keys = omega arith;
                    positive = positive;
                    ordered = ordered;
                  };
                })

-- A run of `create_booking`.
pub record CreateRun (env : Environment) (user : User) (own_project : Option ℕ)
    (item : ResourceItem) (starts_at ends_at : Option Datetime) (quantity : ℕ) (purpose : Text)
    (project : Option ℕ) (db db' : Database) (b : Booking) : Type 0 where
  pub w : Datetime × Datetime
  pub policy : ConfirmationPolicy
  pub windowed :
      (if is_active_student user || not (is_resource_manager user)
        then window env starts_at ends_at
        else direct_use_window env starts_at ends_at)
      ≡ ok w
  pub positive : 1 ≤ quantity
  pub governed : effective_confirmation_policy item db ≡ ok policy
  pub admitted : assert_capacity item.id w.0 w.1 quantity none db ≡ ok tt
  pub resource : b.resource_item ≡ item.id
  pub starts : b.starts_at ≡ w.0.instant
  pub ends : b.ends_at ≡ w.1.instant
  pub units : b.quantity ≡ quantity
  pub status : b.status ≡ initial_status (is_active_student user) policy
  pub key : b.id ≡ db.next_id
  pub next : db'.next_id ≡ suc db.next_id
  pub saves : Saves db db' b

pub create_booking_run :
    (env : Environment) (user : User) (own_project : Option ℕ) (item : ResourceItem)
    (starts_at ends_at : Option Datetime) (quantity : ℕ) (purpose : Text) (project : Option ℕ)
    (db db' : Database) (b : Booking)
    → create_booking env user own_project item starts_at ends_at quantity purpose project db
      ≡ (ok b, db')
    → CreateRun env user own_project item starts_at ends_at quantity purpose project db db' b
unfolding create_booking
create_booking_run env user own_project item starts_at ends_at quantity purpose project db db' b h =
    raise_if_ok _ _ _ _ (atomic_ok _ _ h) λ active h1. check_ok _ _ _ h1 λ w windowed h2.
      raise_if_ok _ _ _ _ h2 λ positive h3. raise_if_ok _ _ _ _ h3 λ usable h4.
        check_ok _ _ _ h4 λ policy governed h5. check_ok _ _ _ h5 λ u admitted h6.
          fresh_id_ok _ _ h6 λ h7. save_booking_ok _ _ _ h7 λ positive' ordered h8.
            modify_ok _ _ _ h8 λ h9. notify_ok _ _ _ _ _ _ h9 λ ns h10.
              returns
                (λ b' db''.
                  CreateRun env user own_project item starts_at ends_at quantity purpose project db
                    db'' b')
                _ h10
                (record {
                  w = w;
                  policy = policy;
                  windowed = windowed;
                  positive = positive';
                  governed = governed;
                  admitted = admitted;
                  resource = refl;
                  starts = refl;
                  ends = refl;
                  units = refl;
                  status = refl;
                  key = refl;
                  next = refl;
                  saves = record {
                    bookings = refl;
                    items = refl;
                    maintenance = refl;
                    keys = omega arith;
                    positive = positive';
                    ordered = ordered;
                  };
                })

-- ===== src/Resources/Booking/Requests.antt =====
-- `BookingService.create_booking` and `update_booking`.
use grad_sync.Prelude.{
  ℕ, suc, ◌+◌, Bool, false, not, ◌||◌, Option, none, some, [], Text, ltb, ◌==◌, if◌then◌else◌,
}
use grad_sync.Accounts.{User}
use grad_sync.Resources.Model.{ResourceItem, Booking, Datetime, from_db, is_available, is_committed}
use grad_sync.Resources.State.{
  Conflict, Error, ok, Outcome, EventType, EventTarget, Subject, Environment, Reason,
}
use grad_sync.Resources.Effects.{
  Action, pure, check, atomic, ◌>>=◌, ◌>>◌, raise_if, fresh_id, record_event,
}
use grad_sync.Resources.Access.{
  is_resource_manager, is_active_student, require_active_user, may_change,
}
use grad_sync.Resources.Capacity.{assert_capacity}
use grad_sync.Resources.Booking.{
  notify_booking_change, snapshot, ensure_future_booking, window, direct_use_window, save_booking,
  effective_confirmation_policy, initial_status, initial_origin, or_else,
}

unfoldable pub create_booking :
    Environment
    → User
    → Option ℕ
    → ResourceItem
    → Option Datetime
    → Option Datetime
    → ℕ
    → Text
    → Option ℕ
    → Action Booking
create_booking env user own_project item starts_at ends_at quantity purpose project = atomic do
  require_active_user user
  let is_student = is_active_student user
  let is_manager = is_resource_manager user
  w ← check λ _.
      if is_student || not is_manager
      then window env starts_at ends_at
      else direct_use_window env starts_at ends_at
  raise_if (ltb quantity 1) (Error.validation Reason.quantity_at_least_1)
  raise_if (not (is_available item.status)) (Error.validation Reason.not_available)
  policy ← check (effective_confirmation_policy item)
  let status = initial_status is_student policy
  check (assert_capacity item.id w.0 w.1 quantity none)
  pk ← fresh_id
  let booking : Booking = record {
    id = pk;
    project = or_else project own_project;
    resource_item = item.id;
    requested_by = user.id;
    starts_at = w.0.instant;
    ends_at = w.1.instant;
    quantity = quantity;
    origin = initial_origin is_student is_manager;
    confirmation_policy = policy;
    status = status;
    purpose = purpose;
    reviewer = none;
    decision_note = [];
    decided_at = none;
    version = 1;
    cancelled_at = none;
    completed_at = none;
  }
  save_booking booking
  record_event none (some user.id)
      (EventType.booking_created (snapshot booking Outcome.created none))
      (EventTarget.booking_target pk)
  notify_booking_change env user booking (Subject.booking_status status)
  pure booking

-- `version is not None and version != booking.version`
abbrev pub is_stale : Option ℕ → ℕ → Bool
is_stale none version = false
is_stale (some expected) version = not (expected == version)

-- `quantity or booking.quantity`
abbrev pub or_quantity : Option ℕ → ℕ → ℕ
or_quantity (some (suc n)) old = suc n
or_quantity _ old = old

-- `purpose if purpose is not None`
abbrev pub or_text : Option Text → Text → Text
or_text none old = old
or_text (some t) old = t

-- The caller's object is used as it is: it is not read again under the lock.
unfoldable pub update_booking :
    Environment
    → User
    → Booking
    → Option Datetime
    → Option Datetime
    → Option ℕ
    → Option Text
    → Option ℕ
    → Action Booking
unfolding ensure_future_booking
update_booking env user booking starts_at ends_at quantity purpose version = atomic do
  require_active_user user
  ensure_future_booking env booking
  raise_if (not (may_change user booking.requested_by))
      (Error.validation Reason.only_requester_or_advisor)
  raise_if (is_stale version booking.version)
      (Error.conflict (Conflict.stale_booking_version booking.version))
  w ← check λ _.
      window env (or_else starts_at (some (from_db booking.starts_at)))
        (or_else ends_at (some (from_db booking.ends_at)))
  let units = or_quantity quantity booking.quantity
  check λ db.
      if is_committed booking.status
      then assert_capacity booking.resource_item w.0 w.1 units (some booking.id) db
      else ok tt
  let changed : Booking = record booking {
    starts_at = w.0.instant;
    ends_at = w.1.instant;
    quantity = units;
    purpose = or_text purpose booking.purpose;
    version = booking.version + 1;
  }
  save_booking changed
  notify_booking_change env user changed Subject.changed
  record_event none (some user.id) EventType.booking_changed (EventTarget.booking_target changed.id)
  pure changed

-- ===== src/Resources/Booking/Lifecycle.antt =====
-- `BookingService.cancel_booking`, `return_booking` and `decide_booking`, and
-- `reconcile_completed_bookings`.
use grad_sync.Prelude.{
  ℕ, ◌+◌, Bool, true, false, not, ◌&&◌, ◌||◌, none, some, Text, strip, ltb, leb, map, count_where,
  if◌then◌else◌,
}
use grad_sync.Accounts.{User}
use grad_sync.Resources.Model.{Booking, BookingStatus, from_db, is_committed, is_pending}
use grad_sync.Resources.State.{
  Conflict, Error, Result, ok, err, Outcome, EventType, EventTarget, Subject, Environment, Reason,
}
use grad_sync.Resources.Effects.{
  Action, pure, check, attempt, atomic, ◌>>=◌, ◌>>◌, raise_if, modify, attempt, record_event,
}
use grad_sync.Resources.Access.{require_manager, require_active_user, may_change}
use grad_sync.Resources.Capacity.{assert_capacity}
use grad_sync.Resources.Booking.{
  notify_booking_change, snapshot, ensure_future_booking, save_booking, get_booking,
}

-- `status in {PENDING, CONFIRMED, RESERVED}`
abbrev pub is_cancellable : BookingStatus → Bool
is_cancellable s = is_pending s || is_committed s

unfoldable pub cancel_booking : Environment → User → ℕ → Action Booking
unfolding ensure_future_booking
cancel_booking env user pk = atomic do
  require_active_user user
  booking ← get_booking pk
  ensure_future_booking env booking
  raise_if (not (may_change user booking.requested_by))
      (Error.validation Reason.only_requester_or_advisor)
  raise_if (not (is_cancellable booking.status))
      (Error.conflict (Conflict.stale_decision booking.status))
  let cancelled : Booking = record booking {
    status = BookingStatus.cancelled;
    cancelled_at = some env.now;
    version = booking.version + 1;
  }
  save_booking cancelled
  notify_booking_change env user cancelled Subject.cancelled
  record_event none (some user.id)
      (EventType.booking_cancelled (snapshot cancelled Outcome.cancelled (some booking.status)))
      (EventTarget.booking_target cancelled.id)
  pure cancelled

unfoldable pub return_booking : Environment → User → ℕ → Action Booking
return_booking env user pk = atomic do
  require_active_user user
  booking ← get_booking pk
  raise_if (not (may_change user booking.requested_by))
      (Error.validation Reason.only_requester_or_advisor)
  raise_if (not (is_committed booking.status))
      (Error.conflict (Conflict.return_not_allowed booking.status))
  raise_if (not (leb booking.starts_at env.now && ltb env.now booking.ends_at))
      (Error.conflict (Conflict.return_window_invalid booking.status))
  let returned : Booking = record booking {
    ends_at = env.now;
    status = BookingStatus.completed;
    completed_at = some env.now;
    version = booking.version + 1;
  }
  save_booking returned
  notify_booking_change env user returned Subject.returned
  record_event none (some user.id)
      (EventType.booking_returned (snapshot returned Outcome.returned (some booking.status)))
      (EventTarget.booking_target returned.id)
  pure returned

-- The body of the `with transaction.atomic()` in `decide_booking`.
unfoldable pub decide : Environment → User → ℕ → Bool → Text → Action Booking
decide env user pk approve note = do
  booking ← get_booking pk
  raise_if (not (is_pending booking.status))
      (Error.conflict (Conflict.duplicate_decision booking.status))
  check λ db.
      if approve
      then assert_capacity booking.resource_item (from_db booking.starts_at)
          (from_db booking.ends_at) booking.quantity none db
      else ok tt
  let status = if approve then BookingStatus.confirmed else BookingStatus.rejected
  let decided : Booking = record booking {
    status = status;
    reviewer = some user.id;
    decision_note = strip note;
    decided_at = some env.now;
    version = booking.version + 1;
  }
  save_booking decided
  record_event none (some user.id)
      (EventType.booking_decided status
        (snapshot decided (Outcome.decided status) (some booking.status)))
      (EventTarget.booking_target decided.id)
  pure decided

-- `exc.payload.get("code") == "insufficient_capacity"`
abbrev pub is_capacity : Conflict → Bool
is_capacity (Conflict.insufficient_capacity available requested) = true
is_capacity _ = false

abbrev pub decision_event : Booking → Conflict → EventType
decision_event fresh c =
    if is_capacity c
    then EventType.booking_capacity_conflict (snapshot fresh Outcome.capacity_conflict none) c
    else EventType.booking_duplicate_decision (snapshot fresh Outcome.duplicate_decision none) c

-- The `except ResourceConflict`: the rejected decision leaves an audit event, then is raised again.
unfoldable pub except_conflict : User → ℕ → Result Booking → Action Booking
except_conflict user pk (ok b) = pure b
except_conflict user pk (err (Error.conflict c)) = do
  fresh ← get_booking pk
  record_event fresh.project (some user.id) (decision_event fresh c)
      (EventTarget.booking_target fresh.id)
  check λ _. err (Error.conflict c)
except_conflict user pk (err e) = check λ _. err e

-- What follows the `try` statement, after its handler.
unfoldable pub settle : Environment → User → ℕ → Result Booking → Action Booking
settle env user pk outcome = do
  booking ← except_conflict user pk outcome
  notify_booking_change env user booking (Subject.booking_status booking.status)
  pure booking

unfoldable pub decide_booking : Environment → User → ℕ → Bool → Text → Action Booking
decide_booking env user pk approve note = do
  require_manager user
  outcome ← attempt (atomic (decide env user pk approve note))
  settle env user pk outcome

-- The queryset of `reconcile_completed_bookings`.
abbrev pub is_ended : ℕ → Booking → Bool
is_ended now b =
    is_committed b.status
    && leb b.ends_at now
    && elim b.completed_at [ none ↦ true | some t ↦ false ]

unfoldable pub complete : ℕ → Booking → Booking
complete now b =
    if is_ended now b
    then record b { status = BookingStatus.completed; completed_at = some now }
    else b

unfoldable pub reconcile_completed_bookings : Environment → Action ℕ
unfolding complete
reconcile_completed_bookings env = do
  updated ← check λ db. ok (count_where (is_ended env.now) db.bookings)
  modify λ db. record db { bookings = map (complete env.now) db.bookings }
  if ltb 0 updated
      then record_event none none (EventType.completion_reconciled updated) EventTarget.no_target
      else pure tt
  pure updated

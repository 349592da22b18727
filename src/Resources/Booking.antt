-- ===== src/Resources/Booking.antt =====
-- `class BookingService` of backend/apps/resources/services.py: the private methods that its
-- operations share. `Requests` has those that create and change a booking, `Lifecycle` those that end
-- or decide one.
pub mod Steps
pub mod Requests
pub mod Lifecycle
pub mod Admission
pub mod Endings
pub mod Outcomes
pub mod Safety
pub mod Traces
pub mod Statuses
pub mod Histories
use grad_sync.Prelude.{
  ℕ, ◌+◌, Bool, true, false, not, ◌&&◌, Option, none, some, ltb, leb, if◌then◌else◌, find, put,
}
use grad_sync.Accounts.{User}
use grad_sync.Resources.Model.{
  ResourceItem, ConfirmationPolicy, Origin, Booking, BookingStatus, Datetime,
}
use grad_sync.Resources.State.{
  Error, Result, ok, err, Outcome, BookingSnapshot, EventTarget, Subject, Database, Environment,
  Reason,
}
use grad_sync.Resources.Effects.{
  Action, pure, check, or_missing, ◌>>◌, raise_if, modify, enqueue_notification,
}

-- `_notify_booking_change`: a failure to store the row is swallowed.
unfoldable pub notify_booking_change : Environment → User → Booking → Subject → Action (Unit {0})
notify_booking_change env user b subject =
    if env.notifies
    then enqueue_notification b.requested_by (some user.id) (EventTarget.booking_target b.id)
        subject
    else pure tt

abbrev pub snapshot : Booking → Outcome → Option BookingStatus → BookingSnapshot
snapshot b outcome prior = record { booking = b; outcome = outcome; prior_status = prior }

-- `_ensure_future_booking`
unfoldable pub ensure_future_booking : Environment → Booking → Action (Unit {0})
ensure_future_booking env b =
    raise_if (leb b.starts_at env.now) (Error.validation Reason.already_started)

-- `_window`; the arguments are what `parse_datetime` gave.
unfoldable pub window :
    Environment → Option Datetime → Option Datetime → Result (Datetime × Datetime)
window env (some s) (some e) =
    if leb e.instant s.instant
    then err (Error.validation Reason.end_before_start)
    else if leb s.instant env.now
    then err (Error.validation Reason.must_start_in_future)
    else ok (s, e)
window env _ _ = err (Error.validation Reason.end_before_start)

-- `_direct_use_window`
unfoldable pub direct_use_window :
    Environment → Option Datetime → Option Datetime → Result (Datetime × Datetime)
direct_use_window env (some s) (some e) =
    if leb e.instant s.instant
    then err (Error.validation Reason.end_before_start)
    else if leb e.instant env.now
    then err (Error.validation Reason.already_ended)
    else ok (s, e)
direct_use_window env _ _ = err (Error.validation Reason.end_before_start)

-- `booking.save()`, under the two check constraints of the table.
unfoldable pub save_booking : Booking → Action (Unit {0})
save_booking b =
    raise_if (not (leb 1 b.quantity && ltb b.starts_at b.ends_at)) Error.integrity
    >> modify (λ db. record db { bookings = put (λ r. r.id) b db.bookings })

-- `Booking.objects.select_for_update().get(pk=pk)`
abbrev pub get_booking : ℕ → Action Booking
get_booking pk = check λ db. or_missing (find (λ r. r.id) pk db.bookings)

-- `resource_item.effective_confirmation_policy`
unfoldable pub effective_confirmation_policy : ResourceItem → Database → Result ConfirmationPolicy
effective_confirmation_policy item db = elim item.confirmation_policy_override [
  | some policy ↦ ok policy
  | none ↦ elim (find (λ r. r.id) item.resource_type db.types) [
    | some t ↦ ok t.confirmation_policy
    | none ↦ err Error.does_not_exist
  ]
]

abbrev pub initial_status : Bool → ConfirmationPolicy → BookingStatus
initial_status true ConfirmationPolicy.approval_required = BookingStatus.pending
initial_status _ _ = BookingStatus.confirmed

abbrev pub initial_origin : Bool → Bool → Origin
initial_origin true _ = Origin.student_request
initial_origin false true = Origin.staff_direct
initial_origin false false = Origin.legacy_booking

-- `project or self.project`
abbrev pub or_else {ℓ} : {A : Type ℓ} → Option A → Option A → Option A
or_else none b = b
or_else (some a) b = some a

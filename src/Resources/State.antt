-- ===== src/Resources/State.antt =====
-- What the resource services read, write and raise: the tables, the audit events and notifications
-- that they store, and the exceptions.
use grad_sync.Prelude.{ℕ, Bool, Option, List, Text}
use grad_sync.Prelude.Int.{ℤ}
use grad_sync.Resources.Model.{
  ResourceType, ResourceItem, ResourceUseSubmission, UseStatus, Booking, BookingStatus,
  ResourceMaintenanceRecord, MaintenanceStatus, ConsumableStockTransaction,
}

-- The payloads of `ResourceConflict`, by their `code`.
pub data Conflict : Type 0 where
  stale_resource_version : ℕ → Conflict
  quantity_commitment_conflict : ℕ → Conflict
  resource_kind_has_history : Conflict
  resource_has_history : ℕ → ℕ → ℕ → ℕ → Conflict
  insufficient_consumable_stock : ℕ → ℕ → Conflict
  consumable_not_bookable resource_unusable calibration_due : Conflict
  resource_maintenance_conflict : Conflict
  insufficient_capacity : ℕ → ℕ → Conflict
  stale_booking_version : ℕ → Conflict
  stale_decision : BookingStatus → Conflict
  return_not_allowed : BookingStatus → Conflict
  return_window_invalid : BookingStatus → Conflict
  duplicate_decision : BookingStatus → Conflict

-- The messages of `ValidationError`.
pub data Reason : Type 0 where
  unsupported_status name_and_type_required quantity_at_least_1 name_required : Reason
  type_required clean_failed unsupported_submission_type : Reason
  consumable_use retired_use details_required only_pending_use unsupported_decision : Reason
  equipment_only title_required due_before_start closed_maintenance : Reason
  unsupported_transition consumables_only zero_quantity : Reason
  receipt_must_increase issue_must_decrease : Reason
  already_started end_before_start must_start_in_future already_ended : Reason
  not_available only_requester_or_advisor : Reason

pub data Error : Type 0 where
  permission_denied : Error
  validation : Reason → Error
  conflict : Conflict → Error
  does_not_exist multiple_objects : Error
  integrity : Error

pub data Result (A : Type 0) : Type 0 where
  ok : A → Result A
  err : Error → Result A

-- What an audit event or a notification is about.
pub data EventTarget : Type 0 where
  no_target : EventTarget
  resource_target booking_target use_target maintenance_target stock_target : ℕ → EventTarget

pub data Outcome : Type 0 where
  created cancelled returned capacity_conflict duplicate_decision : Outcome
  decided : BookingStatus → Outcome

-- `_booking_snapshot`: the fields that it copies are those of `booking`.
pub record BookingSnapshot : Type 0 where
  pub booking : Booking
  pub outcome : Outcome
  pub prior_status : Option BookingStatus

pub data EventType : Type 0 where
  completion_reconciled : ℕ → EventType
  resource_created resource_updated resource_retired : EventType
  resource_delete_rejected resource_deleted : EventType
  use_submitted use_confirmed use_rejected : EventType
  maintenance_created : EventType
  maintenance_changed : MaintenanceStatus → EventType
  stock_recorded : ℤ → ℕ → EventType
  booking_changed : EventType
  booking_created booking_cancelled booking_returned : BookingSnapshot → EventType
  booking_decided : BookingStatus → BookingSnapshot → EventType
  booking_capacity_conflict booking_duplicate_decision : BookingSnapshot → Conflict → EventType

pub record Event : Type 0 where
  pub project : Option ℕ
  pub actor : Option ℕ
  pub event_type : EventType
  pub target : EventTarget

-- The subject lines, by what they are formatted from.
pub data Subject : Type 0 where
  low_stock : Text → ℕ → Text → Subject
  calibration_overdue : Text → ℕ → Subject
  use_decided : UseStatus → Subject
  booking_status : BookingStatus → Subject
  changed cancelled returned : Subject

pub record Notification : Type 0 where
  pub recipient : ℕ
  pub sender : Option ℕ
  pub target : EventTarget
  pub subject : Subject

-- The tables. `next_id` is above every key in use. `active_admins` is the result of the query for
-- active administrators, `memberships` that for the active members of projects, as (project, user).
pub record Database : Type 0 where
  pub types : List ResourceType
  pub items : List ResourceItem
  pub uses : List ResourceUseSubmission
  pub bookings : List Booking
  pub maintenance : List ResourceMaintenanceRecord
  pub stock : List ConsumableStockTransaction
  pub active_admins : List ℕ
  pub memberships : List (ℕ × ℕ)
  pub events : List Event
  pub notifications : List Notification
  pub next_id : ℕ

-- `timezone.now()`, `timezone.localdate()`, and the check by `Model.full_clean` of what Django
-- derives from the field types (lengths, choices, digits) for one row. The reads of the clock within
-- one operation give one value. `notifies` says whether the best-effort notification is stored.
pub record Environment : Type 0 where
  pub now : ℕ
  pub today : ℕ
  pub clean_fields : ResourceItem → Bool
  pub notifies : Bool

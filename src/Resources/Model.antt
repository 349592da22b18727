-- ===== src/Resources/Model.antt =====
-- The rows of backend/apps/resources/models.py and the errors of backend/apps/resources/services.py.
-- A `DateTimeField` is an instant in microseconds since the epoch, a `DateField` a number of days,
-- a `DecimalField` with two places a number of hundredths, a foreign key the key that it holds.
use grad_sync.Prelude.{ℕ, Text, Bool, true, false, Option, List, ◌/◌}
use grad_sync.Prelude.Int.{ℤ}

pub data ConfirmationPolicy : Type 0 where
  immediate approval_required : ConfirmationPolicy

pub record SchemaField : Type 0 where
  pub key : Text
  pub required : Bool

pub record ResourceType : Type 0 where
  pub id : ℕ
  pub name : Text
  pub field_schema : List SchemaField
  pub confirmation_policy : ConfirmationPolicy

pub data Kind : Type 0 where
  equipment consumable : Kind

pub data ItemStatus : Type 0 where
  available unavailable retired : ItemStatus

-- `field_values` is read for its keys alone.
pub record ResourceItem : Type 0 where
  pub id : ℕ
  pub resource_type : ℕ
  pub kind : Kind
  pub name : Text
  pub description : Text
  pub location : Text
  pub total_quantity : ℕ
  pub field_values : List Text
  pub confirmation_policy_override : Option ConfirmationPolicy
  pub manager : Option ℕ
  pub use_instructions : Text
  pub stock_on_hand : ℕ
  pub reorder_level : ℕ
  pub stock_unit : Text
  pub unit_cost : ℤ
  pub calibration_interval_days : Option ℕ
  pub next_calibration_at : Option ℕ
  pub status : ItemStatus
  pub version : ℕ

pub data SubmissionType : Type 0 where
  request use_record : SubmissionType

pub data UseStatus : Type 0 where
  pending confirmed rejected : UseStatus

pub record ResourceUseSubmission : Type 0 where
  pub id : ℕ
  pub resource_item : ℕ
  pub student : ℕ
  pub submission_type : SubmissionType
  pub details : Text
  pub status : UseStatus
  pub reviewer : Option ℕ
  pub decision_note : Text
  pub decided_at : Option ℕ

pub data Origin : Type 0 where
  student_request staff_direct legacy_booking : Origin

pub data BookingStatus : Type 0 where
  pending confirmed reserved rejected cancelled completed : BookingStatus

pub record Booking : Type 0 where
  pub id : ℕ
  pub project : Option ℕ
  pub resource_item : ℕ
  pub requested_by : ℕ
  pub starts_at : ℕ
  pub ends_at : ℕ
  pub quantity : ℕ
  pub origin : Origin
  pub confirmation_policy : ConfirmationPolicy
  pub status : BookingStatus
  pub purpose : Text
  pub reviewer : Option ℕ
  pub decision_note : Text
  pub decided_at : Option ℕ
  pub version : ℕ
  pub cancelled_at : Option ℕ
  pub completed_at : Option ℕ

pub data MaintenanceKind : Type 0 where
  preventive calibration repair fault : MaintenanceKind

pub data MaintenanceStatus : Type 0 where
  scheduled in_progress completed cancelled : MaintenanceStatus

pub record ResourceMaintenanceRecord : Type 0 where
  pub id : ℕ
  pub resource_item : ℕ
  pub kind : MaintenanceKind
  pub status : MaintenanceStatus
  pub title : Text
  pub details : Text
  pub provider : Text
  pub scheduled_at : ℕ
  pub due_at : Option ℕ
  pub completed_at : Option ℕ
  pub takes_offline : Bool
  pub cost : ℤ
  pub created_by : ℕ
  pub completed_by : Option ℕ

pub data StockKind : Type 0 where
  receipt issue adjustment : StockKind

pub record ConsumableStockTransaction : Type 0 where
  pub id : ℕ
  pub resource_item : ℕ
  pub project : Option ℕ
  pub kind : StockKind
  pub quantity_delta : ℤ
  pub balance_after : ℕ
  pub unit_cost : ℤ
  pub note : Text
  pub recorded_by : ℕ

-- An aware `datetime`: its instant, and the calendar date in its own offset.
pub record Datetime : Type 0 where
  pub instant : ℕ
  pub date : ℕ

abbrev pub us_per_day : ℕ
us_per_day = 86_400_000_000

-- A `DateTimeField` read back from the database is in UTC.
abbrev pub from_db : ℕ → Datetime
from_db t = record { instant = t; date = t / us_per_day }

abbrev pub is_available : ItemStatus → Bool
is_available available = true
is_available _ = false

abbrev pub is_retired : ItemStatus → Bool
is_retired retired = true
is_retired _ = false

abbrev pub is_consumable : Kind → Bool
is_consumable consumable = true
is_consumable equipment = false

abbrev pub is_equipment : Kind → Bool
is_equipment equipment = true
is_equipment consumable = false

-- `status in {CONFIRMED, RESERVED}`
abbrev pub is_committed : BookingStatus → Bool
is_committed confirmed = true
is_committed reserved = true
is_committed _ = false

abbrev pub is_pending : BookingStatus → Bool
is_pending pending = true
is_pending _ = false

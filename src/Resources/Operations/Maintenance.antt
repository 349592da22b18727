-- ===== src/Resources/Operations/Maintenance.antt =====
-- `ResourceOperationsService.create_maintenance` and `transition_maintenance`.
pub mod Availability
pub mod Runs
pub mod Outages
use grad_sync.Prelude.{
  ℕ, ◌+◌, Bool, true, false, not, ◌&&◌, ◌||◌, Option, none, some, Text, strip, is_blank, any, find,
  ltb, leb, ◌==◌, if◌then◌else◌,
}
use grad_sync.Prelude.Int.{ℤ}
use grad_sync.Accounts.{User}
use grad_sync.Resources.Model.{
  ResourceItem, ItemStatus, ResourceMaintenanceRecord, MaintenanceKind, MaintenanceStatus,
  is_equipment, is_retired,
}
use grad_sync.Resources.State.{
  Error, Reason, Result, ok, err, EventType, EventTarget, Database, Environment,
}
use grad_sync.Resources.Effects.{
  Action, pure, check, or_missing, atomic, ◌>>=◌, ◌>>◌, raise_if, modify, fresh_id, record_event,
}
use grad_sync.Resources.Access.{require_manager}
use grad_sync.Resources.Capacity.{is_open}
use grad_sync.Resources.Inventory.{get_item}
use grad_sync.Resources.Inventory.Items.{given_text}
use grad_sync.Resources.Operations.{is_fault, is_outage, save_record, store_item, take_offline}

-- `due_at and due_at < scheduled_at`
abbrev pub is_due_early : Option ℕ → ℕ → Bool
is_due_early none start = false
is_due_early (some due) start = ltb due start

-- The keyword arguments of `create_maintenance`, with their defaults filled in.
pub record NewMaintenance : Type 0 where
  pub kind : MaintenanceKind
  pub title : Text
  pub scheduled_at : ℕ
  pub due_at : Option ℕ
  pub details : Text
  pub provider : Text
  pub takes_offline : Bool
  pub cost : ℤ

unfoldable pub create_maintenance :
    Environment → User → ℕ → NewMaintenance → Action ResourceMaintenanceRecord
create_maintenance env user pk new = atomic do
  require_manager user
  item ← get_item pk
  raise_if (not (is_equipment item.kind)) (Error.validation Reason.equipment_only)
  raise_if (is_blank (strip new.title)) (Error.validation Reason.title_required)
  raise_if (is_due_early new.due_at new.scheduled_at) (Error.validation Reason.due_before_start)
  key ← fresh_id
  let row : ResourceMaintenanceRecord = record {
    id = key;
    resource_item = item.id;
    kind = new.kind;
    status = MaintenanceStatus.scheduled;
    title = strip new.title;
    details = strip new.details;
    provider = strip new.provider;
    scheduled_at = new.scheduled_at;
    due_at = new.due_at;
    completed_at = none;
    takes_offline = new.takes_offline;
    cost = new.cost;
    created_by = user.id;
    completed_by = none;
  }
  modify (save_record row)
  modify λ db.
      if new.takes_offline && (is_fault new.kind || leb new.scheduled_at env.now)
      then take_offline item.id db
      else db
  record_event none (some user.id) EventType.maintenance_created
      (EventTarget.maintenance_target key)
  pure row

-- `.exclude(pk=record.pk)` and the outage filter
abbrev pub other_outages : ℕ → ResourceMaintenanceRecord → Database → Bool
other_outages now m db =
    any (λ r. not (r.id == m.id) && is_outage now m.resource_item r) db.maintenance

-- The date of the next calibration, after one that is completed today.
abbrev pub recalibrated : ℕ → MaintenanceKind → ResourceItem → Option ℕ
recalibrated today MaintenanceKind.calibration item = elim item.calibration_interval_days [
  | none ↦ item.next_calibration_at
  | some days ↦ if ltb 0 days then some (today + days) else item.next_calibration_at
]
recalibrated today _ item = item.next_calibration_at

abbrev pub reopened : Bool → ItemStatus → ItemStatus
reopened others status =
    if not others && not (is_retired status) then ItemStatus.available else status

-- The branch of `COMPLETED`, on the resource.
unfoldable pub complete_item :
    Environment → ResourceMaintenanceRecord → ResourceItem → Database → Database
complete_item env m item db =
    store_item
      (record item {
        next_calibration_at = recalibrated env.today m.kind item;
        status = reopened (other_outages env.now m db) item.status;
        version = item.version + 1;
      })
      db

-- The branch of `CANCELLED`, on the resource.
unfoldable pub cancel_item :
    Environment → ResourceMaintenanceRecord → ResourceItem → Database → Database
cancel_item env m item db =
    if not (other_outages env.now m db) && not (is_retired item.status)
    then store_item (record item { status = ItemStatus.available; version = item.version + 1 }) db
    else db

-- What a transition does to the resource of the record.
unfoldable pub change_item :
    Environment → MaintenanceStatus → ResourceMaintenanceRecord → ResourceItem → Database → Database
unfolding complete_item cancel_item
change_item env MaintenanceStatus.completed m item db = complete_item env m item db
change_item env MaintenanceStatus.in_progress m item db =
    if m.takes_offline then take_offline m.resource_item db else db
change_item env MaintenanceStatus.cancelled m item db =
    if m.takes_offline then cancel_item env m item db else db
change_item env MaintenanceStatus.scheduled m item db = db

abbrev pub is_scheduled : MaintenanceStatus → Bool
is_scheduled MaintenanceStatus.scheduled = true
is_scheduled _ = false

abbrev pub completion : MaintenanceStatus → ℕ → Option ℕ → Option ℕ
completion MaintenanceStatus.completed value old = some value
completion _ value old = old

-- `status` is `scheduled` for any value but the three transitions.
unfoldable pub transition_maintenance :
    Environment → User → ℕ → MaintenanceStatus → Option Text → Action ResourceMaintenanceRecord
transition_maintenance env user pk status details = atomic do
  require_manager user
  m ← check λ db. or_missing (find (λ r. r.id) pk db.maintenance)
  raise_if (not (is_open m.status)) (Error.validation Reason.closed_maintenance)
  raise_if (is_scheduled status) (Error.validation Reason.unsupported_transition)
  item ← get_item m.resource_item
  let changed : ResourceMaintenanceRecord = record m {
    status = status;
    details = given_text details m.details;
    completed_at = completion status env.now m.completed_at;
    completed_by = completion status user.id m.completed_by;
  }
  modify (change_item env status changed item)
  modify (save_record changed)
  record_event none (some user.id) (EventType.maintenance_changed status)
      (EventTarget.maintenance_target changed.id)
  pure changed

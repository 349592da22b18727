-- ===== src/Resources/Operations.antt =====
-- `class ResourceOperationsService` and `reconcile_resource_operation_alerts` of
-- backend/apps/resources/services.py: what maintenance and stock have in common.
pub mod Maintenance
pub mod Stock
pub mod Alerts
use grad_sync.Prelude.{
  ℕ, ◌+◌, Bool, true, false, ◌&&◌, ◌||◌, Option, none, some, put, find, leb, ◌==◌, if◌then◌else◌,
}
use grad_sync.Resources.Model.{
  ResourceItem, ItemStatus, ResourceMaintenanceRecord, MaintenanceKind, MaintenanceStatus,
  is_retired,
}
use grad_sync.Resources.State.{Database}
use grad_sync.Resources.Capacity.{is_open}

abbrev pub is_in_progress : MaintenanceStatus → Bool
is_in_progress MaintenanceStatus.in_progress = true
is_in_progress _ = false

abbrev pub is_fault : MaintenanceKind → Bool
is_fault MaintenanceKind.fault = true
is_fault _ = false

-- The filter of the querysets for outages that are under way: an open record that takes the resource
-- offline and is in progress, is a fault, or was due to start.
abbrev pub is_outage : ℕ → ℕ → ResourceMaintenanceRecord → Bool
is_outage now k m =
    m.resource_item == k
    && m.takes_offline
    && is_open m.status
    && (is_in_progress m.status || is_fault m.kind || leb m.scheduled_at now)

abbrev pub save_record : ResourceMaintenanceRecord → Database → Database
save_record m db = record db { maintenance = put (λ r. r.id) m db.maintenance }

abbrev pub store_item : ResourceItem → Database → Database
store_item item db = record db { items = put (λ r. r.id) item db.items }

-- `exclude(status=RETIRED).update(status=UNAVAILABLE, version=F("version") + 1)` on one row.
abbrev pub offline : ResourceItem → Database → Database
offline item db =
    if is_retired item.status
    then db
    else store_item (record item { status = ItemStatus.unavailable; version = item.version + 1 }) db

-- The update of the row that `filter(pk=...)` finds.
unfoldable pub take_offline : ℕ → Database → Database
take_offline k db = elim (find (λ r. r.id) k db.items) [ none ↦ db | some item ↦ offline item db ]

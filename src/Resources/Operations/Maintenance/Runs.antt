-- ===== src/Resources/Operations/Maintenance/Runs.antt =====
-- What the operations on maintenance records have done when they return.
use grad_sync.Prelude.{
  ℕ, ◌≡◌, refl, leb, ◌||◌, Bool, true, false, ◌&&◌, Option, some, List, Text, arith, find, put,
  if◌then◌else◌,
}
use grad_sync.Accounts.{User}
use grad_sync.Resources.Model.{
  ResourceItem, ResourceMaintenanceRecord, MaintenanceStatus, is_equipment,
}
use grad_sync.Resources.State.{ok, Database, Environment}
use grad_sync.Resources.Effects.Runs.{
  check_ok, raise_if_ok, modify_ok, fresh_id_ok, returns, atomic_ok,
}
use grad_sync.Resources.Access.{is_resource_manager}
use grad_sync.Resources.Capacity.{is_open}
use grad_sync.Resources.Booking.Endings.{or_missing_ok}
use grad_sync.Resources.Inventory.Items.{given_text}
use grad_sync.Resources.Operations.{is_fault, take_offline}
use grad_sync.Resources.Operations.Maintenance.{
  NewMaintenance, create_maintenance, transition_maintenance, change_item, completion, is_scheduled,
  is_due_early, complete_item, cancel_item,
}

pub record TransitionRun (env : Environment) (user : User) (pk : ℕ) (status : MaintenanceStatus)
    (details : Option Text) (db db' : Database) (m : ResourceMaintenanceRecord) : Type 0 where
  pub old : ResourceMaintenanceRecord
  pub item : ResourceItem
  pub manager : is_resource_manager user ≡ true
  pub found : find (λ r. r.id) pk db.maintenance ≡ some old
  pub open_record : is_open old.status ≡ true
  pub supported : is_scheduled status ≡ false
  pub item_found : find (λ r. r.id) m.resource_item db.items ≡ some item
  pub new_status : m.status ≡ status
  pub key : m.id ≡ old.id
  pub result : m ≡ record old {
    status = status;
    details = given_text details old.details;
    completed_at = completion status env.now old.completed_at;
    completed_by = completion status user.id old.completed_by;
  }
  pub items : db'.items ≡ (change_item env status m item db).items
  pub maintenance : db'.maintenance ≡ put (λ r. r.id) m db.maintenance

change_item-maintenance :
    (env : Environment) (status : MaintenanceStatus) (m : ResourceMaintenanceRecord)
    (item : ResourceItem) (db : Database)
    → (change_item env status m item db).maintenance ≡ db.maintenance
unfolding change_item take_offline complete_item cancel_item
change_item-maintenance env MaintenanceStatus.completed m item db = refl
change_item-maintenance env MaintenanceStatus.in_progress m item db = ground arith
change_item-maintenance env MaintenanceStatus.cancelled m item db = ground arith
change_item-maintenance env MaintenanceStatus.scheduled m item db = refl

pub transition_maintenance_run :
    (env : Environment) (user : User) (pk : ℕ) (status : MaintenanceStatus) (details : Option Text)
    (db db' : Database) (m : ResourceMaintenanceRecord)
    → transition_maintenance env user pk status details db ≡ (ok m, db')
    → TransitionRun env user pk status details db db' m
unfolding transition_maintenance
transition_maintenance_run env user pk status details db db' m h =
    raise_if_ok _ _ _ _ (atomic_ok _ _ h) λ manager h1. check_ok _ _ _ h1 λ old found h2.
      raise_if_ok _ _ _ _ h2 λ open_record h3. raise_if_ok _ _ _ _ h3 λ supported h4.
        check_ok _ _ _ h4 λ item item_found h5. modify_ok _ _ _ h5 λ h6. modify_ok _ _ _ h6 λ h7.
          modify_ok _ _ _ h7 λ h8.
            returns (λ b' db''. TransitionRun env user pk status details db db'' b') _ h8
              (record {
                old = old;
                item = item;
                manager = ground arith;
                found = or_missing_ok _ found;
                open_record = ground arith;
                supported = supported;
                item_found = or_missing_ok _ item_found;
                new_status = refl;
                key = refl;
                result = refl;
                items = refl;
                maintenance = rw (change_item-maintenance env status _ item db);
              })

pub record CreateRun (env : Environment) (user : User) (pk : ℕ) (new : NewMaintenance)
    (db db' : Database) (m : ResourceMaintenanceRecord) : Type 0 where
  pub item : ResourceItem
  pub manager : is_resource_manager user ≡ true
  pub found : find (λ r. r.id) pk db.items ≡ some item
  pub equipment : is_equipment item.kind ≡ true
  pub resource : m.resource_item ≡ item.id
  pub status : m.status ≡ MaintenanceStatus.scheduled
  pub due : is_due_early m.due_at m.scheduled_at ≡ false
  pub items :
      db'.items
      ≡ (if new.takes_offline && (is_fault new.kind || leb new.scheduled_at env.now)
          then take_offline item.id db
          else db).items
  pub maintenance : db'.maintenance ≡ put (λ r. r.id) m db.maintenance

take_offline_tables :
    (k key : ℕ) (rows : List ResourceMaintenanceRecord) (db : Database)
    → let db0 : Database = record db { maintenance = rows; next_id = key } in
      ((take_offline k db0).maintenance ≡ rows)
      × ((take_offline k db0).items ≡ (take_offline k db).items)
unfolding take_offline
take_offline_tables k key rows db = ground arith

taken_down :
    (c : Bool) (k key : ℕ) (rows : List ResourceMaintenanceRecord) (db : Database)
    → let db0 : Database = record db { maintenance = rows; next_id = key } in
      ((if c then take_offline k db0 else db0).maintenance ≡ rows)
      × ((if c then take_offline k db0 else db0).items
          ≡ (if c then take_offline k db else db).items)
taken_down true k key rows db = take_offline_tables k key rows db
taken_down false k key rows db = (refl, refl)

pub create_maintenance_run :
    (env : Environment) (user : User) (pk : ℕ) (new : NewMaintenance) (db db' : Database)
    (m : ResourceMaintenanceRecord)
    → create_maintenance env user pk new db ≡ (ok m, db')
    → CreateRun env user pk new db db' m
unfolding create_maintenance
create_maintenance_run env user pk new db db' m h =
    raise_if_ok _ _ _ _ (atomic_ok _ _ h) λ manager h1. check_ok _ _ _ h1 λ item found h2.
      raise_if_ok _ _ _ _ h2 λ equipment h3. raise_if_ok _ _ _ _ h3 λ titled h4.
        raise_if_ok _ _ _ _ h4 λ due h5. fresh_id_ok _ _ h5 λ h6. modify_ok _ _ _ h6 λ h7.
          modify_ok _ _ _ h7 λ h8. modify_ok _ _ _ h8 λ h9.
            returns (λ b' db''. CreateRun env user pk new db db'' b') _ h9
              (record {
                item = item;
                manager = ground arith;
                found = or_missing_ok _ found;
                equipment = ground arith;
                resource = refl;
                status = refl;
                due = due;
                items = (taken_down _ item.id _ _ db).1;
                maintenance = (taken_down _ item.id _ _ db).0;
              })

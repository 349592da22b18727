-- ===== src/Resources/Operations/Maintenance/Outages.antt =====
-- The resources of outages that are in progress are not available.
use grad_sync.Prelude.{
  leb, ◌||◌, ℕ, ◌≡◌, ◌≢◌, refl, ap, sym, ◌∙◌, inl, inr, Bool, true, false, not, ◌&&◌, Option, some,
  Text, arith, find, find-put_cases, find_pk, Bool-cases, ◌==◌,
}
use grad_sync.Accounts.{User}
use grad_sync.Resources.Model.{
  ResourceItem, ResourceMaintenanceRecord, MaintenanceStatus, is_available,
}
use grad_sync.Resources.State.{Database, Environment}
use grad_sync.Resources.Effects.Runs.{atomic_err}
use grad_sync.Resources.Booking.Outcomes.{atomic-keeps}
use grad_sync.Resources.Operations.{is_fault, is_outage}
use grad_sync.Resources.Operations.Maintenance.{
  NewMaintenance, create_maintenance, transition_maintenance, other_outages,
}
use grad_sync.Resources.Operations.Maintenance.Availability.{
  is_running, WasAvailable, not_running, any-find, take_offline-available, change_item-available,
}
use grad_sync.Resources.Operations.Maintenance.Runs.{
  TransitionRun, CreateRun, transition_maintenance_run, create_maintenance_run,
}

-- No resource with an outage in progress is available.
unfoldable pub IsTakenDown : Database → Type 0
IsTakenDown db =
    (j : ℕ) (m : ResourceMaintenanceRecord)
    → find (λ r. r.id) j db.maintenance ≡ some m
    → is_running m ≡ true
    → (item : ResourceItem) → find (λ r. r.id) m.resource_item db.items ≡ some item
    → is_available item.status ≡ false

not_true : (b : Bool) → (b ≡ true → ⊥) → b ≡ false
not_true true h = absurd (h refl)
not_true false h = refl

clash : (b : Bool) → b ≡ true → b ≡ false → ⊥
clash b h k = cc

-- A running outage on the item of `m` is one of the other outages.
other_running :
    (now j : ℕ) (m r : ResourceMaintenanceRecord) (db : Database)
    → find (λ r. r.id) j db.maintenance ≡ some r
    → m.id ≢ j
    → is_running r ≡ true
    → r.resource_item ≡ m.resource_item
    → other_outages now m db ≡ true
other_running now j m r db found away run at_item = elim (Bool-cases (other_outages now m db)) [
  | inl some_left ↦ some_left
  | inr none_left ↦ absurd (
      outage_seen now m r (any-find _ j db.maintenance r none_left found)
        (λ e. away (sym e ∙ find_pk (λ r. r.id) j db.maintenance found)) run at_item)
]
  where
    outage_seen :
        (now : ℕ) (m r : ResourceMaintenanceRecord)
        → (not (r.id == m.id) && is_outage now m.resource_item r) ≡ false
        → r.id ≢ m.id
        → is_running r ≡ true
        → r.resource_item ≡ m.resource_item
        → ⊥
    outage_seen now m r h apart run e = ground arith

transition-IsTakenDown :
    (env : Environment) (user : User) (pk : ℕ) (status : MaintenanceStatus) (details : Option Text)
    (db db' : Database) (m : ResourceMaintenanceRecord)
    → TransitionRun env user pk status details db db' m
    → IsTakenDown db
    → IsTakenDown db'
unfolding IsTakenDown WasAvailable
transition-IsTakenDown env user pk status details db db' m run down j r found running item at_item =
    not_true _ λ up.
      elim (change_item-available env status m run.item r.resource_item item db run.new_status
        run.item_found (rw run.items at at_item) up) [
          | inl (stays, (old, old_found, old_up)) ↦
              elim (find-put_cases (λ r. r.id) j m db.maintenance (rw run.maintenance at found)) [
                | inl (k, same) ↦
                    stays (ap is_running same ∙ running)
                      (ap (λ (x : ResourceMaintenanceRecord). x.resource_item) (sym same))
                | inr (away, before) ↦ clash _ old_up (down j r before running old old_found)
              ]
          | inr (idle, same_item, alone) ↦
              elim (find-put_cases (λ r. r.id) j m db.maintenance (rw run.maintenance at found)) [
                | inl (k, same) ↦
                    absurd (not_running m status run.new_status idle (ap is_running same ∙ running))
                | inr (away, before) ↦
                    clash _
                      (other_running env.now j m r db before (λ e. away (sym e)) running same_item)
                      alone
              ]
        ]

create-IsTakenDown :
    (env : Environment) (user : User) (pk : ℕ) (new : NewMaintenance) (db db' : Database)
    (m : ResourceMaintenanceRecord)
    → CreateRun env user pk new db db' m
    → IsTakenDown db
    → IsTakenDown db'
unfolding IsTakenDown WasAvailable
create-IsTakenDown env user pk new db db' m run down j r found running item at_item =
    elim (find-put_cases (λ r. r.id) j m db.maintenance (rw run.maintenance at found)) [
      | inl (k, same) ↦ absurd (not_running m _ run.status refl (ap is_running same ∙ running))
      | inr (away, before) ↦ not_true _ λ up.
          elim (Bool-cases
            (new.takes_offline && (is_fault new.kind || leb new.scheduled_at env.now))) [
              | inl c ↦
                  let (apart, (old, old_found, old_up)) =
                    take_offline-available run.item.id r.resource_item item db
                      (rw (run.items, c) at at_item) up in
                  clash _ old_up (down j r before running old old_found)
              | inr c ↦ clash _ up (down j r before running item (rw (run.items, c) at at_item))
            ]
    ]

-- No resource with an outage in progress is available: scheduling maintenance keeps it so, and so
-- does every transition of a record, as the resource is opened again only when no outage of it is
-- left.
pub maintenance-IsTakenDown :
    (env : Environment) (user : User) (k : ℕ) (new : NewMaintenance) (pk : ℕ)
    (status : MaintenanceStatus) (details : Option Text) (db : Database)
    → IsTakenDown db
    → IsTakenDown (create_maintenance env user k new db).1
      × IsTakenDown (transition_maintenance env user pk status details db).1
unfolding create_maintenance transition_maintenance
maintenance-IsTakenDown env user k new pk status details db down = (
  atomic-keeps IsTakenDown db (create_maintenance env user k new db) (λ x db'. atomic_err _)
      (λ m db' r.
        create-IsTakenDown env user k new db db' m
          (create_maintenance_run env user k new db db' m r) down)
      down,
  atomic-keeps IsTakenDown db (transition_maintenance env user pk status details db)
      (λ x db'. atomic_err _)
      (λ m db' r.
        transition-IsTakenDown env user pk status details db db' m
          (transition_maintenance_run env user pk status details db db' m r) down)
      down,
)

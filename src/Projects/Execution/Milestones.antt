-- ===== src/Projects/Execution/Milestones.antt =====
-- The functions on milestones.
use grad_sync.Prelude.{
  contains, ℕ, suc, ◌+◌, Bool, false, not, ◌&&◌, ◌||◌, Option, none, some, List, [], ◌∷◌, ◌++◌,
  Text, strip, length, map, any, select, find, ◌==◌, if◌then◌else◌,
}
use grad_sync.Accounts.{User}
use grad_sync.Projects.Model.{ResearchProject, ProjectMembership}
use grad_sync.Projects.Execution.Model.{
  MilestoneStatus, Milestone, MilestoneOwner, DeliverableStatus, Deliverable, is_null, is_archived,
}
use grad_sync.Projects.Execution.{
  Reason, Error, EventAction, Environment, Step, fresh_id, get_project, get_milestone,
  store_milestone, active_members, require_capability, record_execution_event, max_of, next_order,
}
use grad_sync.Projects.Execution.Reconcile.{reconcile_milestone}
use grad_sync.Transactions.{ok, err, pure, check, atomic, ◌>>=◌, ◌>>◌, raise_if, modify, or_raise}

-- The unique constraint on the project and the order.
abbrev pub takes_place : Milestone → Milestone → Bool
takes_place m other = other.project == m.project && other.order == m.order && not (other.id == m.id)

-- `milestone.save()`
unfoldable pub save_milestone : Milestone → Step (Unit {0})
save_milestone m = do
  check λ db. if any (takes_place m) db.milestones then err Error.integrity else ok tt
  modify (store_milestone m)

abbrev pub orders_of : ℕ → List Milestone → Option ℕ
orders_of project rows = max_of (λ m. m.order) (select (λ m. m.project == project) rows)

abbrev pub owner_rows : ℕ → User → List ProjectMembership → List MilestoneOwner
owner_rows pk actor members =
    map (λ m. record { milestone = pk; user = m.user; assigned_by = actor.id }) members

-- The keyword arguments of `create_milestone`.
pub record NewMilestone : Type 0 where
  pub title : Text
  pub description : Text
  pub target_date : ℕ
  pub owner_ids : List ℕ

unfoldable pub create_milestone :
    Environment → User → ResearchProject → NewMilestone → Step Milestone
create_milestone env actor project new = atomic do
  require_capability actor project (λ c. c.can_manage_milestones)
  owners ← check (active_members project.id new.owner_ids)
  order ← check λ db. ok (next_order (orders_of project.id db.milestones))
  pk ← fresh_id
  let m : Milestone = record {
    id = pk;
    project = project.id;
    title = strip new.title;
    description = strip new.description;
    target_date = new.target_date;
    order = order;
    current_status = MilestoneStatus.planned;
    completed_at = none;
    archived_at = none;
    version = 1;
    created_by = actor.id;
  }
  save_milestone m
  modify λ db. record db { owners = db.owners ++ owner_rows pk actor owners }
  record_execution_event project.id actor
      (EventAction.milestone_created pk m.current_status m.version) false
  pure m

-- The keyword arguments of `update_milestone`; `none` is one that is not given.
pub record MilestoneChange : Type 0 where
  pub title : Option Text
  pub description : Option Text
  pub target_date : Option ℕ
  pub owner_ids : Option (List ℕ)

abbrev pub stripped_or : Option Text → Text → Text
stripped_or none old = old
stripped_or (some t) old = strip t

abbrev pub given_or {ℓ} : {A : Type ℓ} → Option A → A → A
given_or none old = old
given_or (some a) old = a

-- The rows that stay are those of other milestones, and of the users that are owners still.
abbrev pub kept_owner : ℕ → List ProjectMembership → MilestoneOwner → Bool
kept_owner pk members o = not (o.milestone == pk) || any (λ m. m.user == o.user) members

-- `MilestoneOwner.objects.get_or_create`, for one user after another.
abbrev pub add_owners :
    ℕ → User → List ProjectMembership → List MilestoneOwner → List MilestoneOwner
add_owners pk actor [] rows = rows
add_owners pk actor (m ∷ members) rows = add_owners pk actor members (
    if any (λ o. o.milestone == pk && o.user == m.user) rows
    then rows
    else rows ++ record { milestone = pk; user = m.user; assigned_by = actor.id } ∷ [])

-- `if owner_ids is not None`
unfoldable pub replace_owners : User → Milestone → Option (List ℕ) → Step (Unit {0})
replace_owners actor m none = pure tt
replace_owners actor m (some ids) = do
  owners ← check (active_members m.project ids)
  modify λ db. record db {
    owners = add_owners m.id actor owners (select (kept_owner m.id owners) db.owners);
  }

abbrev pub changed_milestone : MilestoneChange → Milestone → Milestone
changed_milestone change m = record m {
  title = stripped_or change.title m.title;
  description = stripped_or change.description m.description;
  target_date = given_or change.target_date m.target_date;
  version = suc m.version;
}

-- What is returned is the object that was saved before the status was derived.
unfoldable pub update_milestone : Environment → User → ℕ → ℕ → MilestoneChange → Step Milestone
update_milestone env actor pk expected_version change = atomic do
  m ← get_milestone pk
  project ← get_project m.project
  require_capability actor project (λ c. c.can_manage_milestones)
  raise_if (not (m.version == expected_version)) (Error.value Reason.stale)
  raise_if (not (is_null m.archived_at)) (Error.value Reason.archived_milestone)
  replace_owners actor m change.owner_ids
  save_milestone (changed_milestone change m)
  reconcile_milestone env m.id
  record_execution_event m.project actor
      (EventAction.milestone_updated m.id m.current_status (suc m.version)) false
  pure (changed_milestone change m)

-- The `update` that shifts the orders, row by row.
unfoldable pub shift_orders : ℕ → List Milestone → Step (Unit {0})
shift_orders offset [] = pure tt
shift_orders offset (m ∷ rows) = do
  save_milestone (record m { order = m.order + offset })
  shift_orders offset rows

-- The loop over the keys. `rows` are the objects as they were read.
unfoldable pub place_all : List Milestone → ℕ → List ℕ → Step (List Milestone)
place_all rows order [] = pure []
place_all rows order (pk ∷ pks) = do
  row ← check λ _. or_raise Error.does_not_exist (find (λ r. r.id) pk rows)
  let placed : Milestone = record row { order = order; version = suc row.version }
  save_milestone placed
  rest ← place_all rows (suc order) pks
  pure (placed ∷ rest)

unfoldable pub reorder_milestones : User → ResearchProject → List ℕ → Step (List Milestone)
reorder_milestones actor project ids = atomic do
  require_capability actor project (λ c. c.can_manage_milestones)
  rows ← check λ db. ok (select (λ m. m.project == project.id && contains m.id ids) db.milestones)
  raise_if (not (length rows == length ids)) (Error.value Reason.foreign_milestone)
  shift_orders (length rows + 1_000) rows
  place_all rows 0 ids

-- `milestone.deliverables.exclude(current_status=ARCHIVED).update(...)`
abbrev pub archive_row : ℕ → ℕ → Deliverable → Deliverable
archive_row now pk d =
    if d.milestone == pk && not (is_archived d.current_status)
    then record d {
      current_status = DeliverableStatus.archived;
      archived_at = some now;
      version = suc d.version;
    }
    else d

abbrev pub archived_milestone : ℕ → Milestone → Milestone
archived_milestone now m = record m {
  current_status = MilestoneStatus.archived;
  archived_at = some now;
  completed_at = none;
  version = suc m.version;
}

unfoldable pub archive_milestone : Environment → User → ℕ → ℕ → Step Milestone
archive_milestone env actor pk expected_version = atomic do
  m ← get_milestone pk
  project ← get_project m.project
  require_capability actor project (λ c. c.can_manage_milestones)
  raise_if (not (m.version == expected_version)) (Error.value Reason.stale)
  save_milestone (archived_milestone env.now m)
  modify λ db. record db { deliverables = map (archive_row env.now m.id) db.deliverables }
  record_execution_event m.project actor
      (EventAction.milestone_archived m.id MilestoneStatus.archived (suc m.version)) false
  pure (archived_milestone env.now m)

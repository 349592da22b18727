-- ===== src/Projects/Execution/Deliverables.antt =====
-- `create_deliverable`, `archive_deliverable`, and what they share with `update_deliverable`.
use grad_sync.Prelude.{
  contains, ℕ, suc, Bool, false, not, ◌&&◌, ◌||◌, Option, none, some, List, [], ◌∷◌, ◌++◌, Text,
  strip, is_blank, map, any, select, ◌==◌, if◌then◌else◌,
}
use grad_sync.Accounts.{User}
use grad_sync.Projects.Model.{ProjectMembership, Role, is_primary, is_co_advisor, is_reviewer}
use grad_sync.Projects.Execution.Model.{
  DeliverableStatus, Deliverable, DeliverableAssignee, DeliverableReviewerDesignation,
  DeliverableTaskLink, is_null, is_completed,
}
use grad_sync.Projects.Execution.{
  Reason, Error, EventAction, Database, SourceKind, Environment, Step, fresh_id, get_project,
  get_milestone, get_deliverable, store_deliverable, is_empty, active_members, require_capability,
  record_execution_event, max_of, next_order,
}
use grad_sync.Projects.Execution.Reconcile.{reconcile_milestone}
use grad_sync.Transactions.{Result, ok, err, pure, check, atomic, ◌>>=◌, ◌>>◌, raise_if, modify}

-- The unique constraint on the milestone and the order.
abbrev pub takes_place : Deliverable → Deliverable → Bool
takes_place d other =
    other.milestone == d.milestone && other.order == d.order && not (other.id == d.id)

-- `deliverable.save()`
unfoldable pub save_deliverable : Deliverable → Step (Unit {0})
save_deliverable d = do
  check λ db. if any (takes_place d) db.deliverables then err Error.integrity else ok tt
  modify (store_deliverable d)

-- `REVIEWER_ROLES`
abbrev pub may_review : Role → Bool
may_review role = is_primary role || is_co_advisor role || is_reviewer role

-- The keyword arguments of `create_deliverable`.
pub record NewDeliverable : Type 0 where
  pub title : Text
  pub description : Text
  pub acceptance_criteria : Text
  pub due_date : ℕ
  pub assignee_ids : List ℕ
  pub reviewer_ids : List ℕ
  pub required : Bool
  pub reviewer_required : Bool
  pub task_ids : List ℕ

-- `_active_members(project, reviewer_ids) if reviewer_ids else {}`
unfoldable pub reviewers_of : ℕ → List ℕ → Database → Result Error (List ProjectMembership)
reviewers_of project [] db = ok []
reviewers_of project (i ∷ ids) db = active_members project (i ∷ ids) db

abbrev pub assignee_row : ℕ → User → ℕ → DeliverableAssignee
assignee_row pk actor user = record {
  deliverable = pk;
  user = user;
  assigned_by = actor.id;
  removed_at = none;
}

abbrev pub designation_row : ℕ → User → ProjectMembership → DeliverableReviewerDesignation
designation_row pk actor m = record {
  deliverable = pk;
  reviewer = m.user;
  designated_by = actor.id;
  removed_at = none;
}

-- `set(task_ids)`
abbrev pub distinct : List ℕ → List ℕ
distinct [] = []
distinct (i ∷ ids) = let rest = distinct ids in if contains i ids then rest else i ∷ rest

abbrev pub link_row : ℕ → User → ℕ → DeliverableTaskLink
link_row pk actor task = record { deliverable = pk; task = task; linked_by = actor.id }

abbrev pub order_in : ℕ → List Deliverable → Option ℕ
order_in milestone rows = max_of (λ d. d.order) (select (λ d. d.milestone == milestone) rows)

unfoldable pub create_deliverable : Environment → User → ℕ → NewDeliverable → Step Deliverable
create_deliverable env actor milestone_pk new = atomic do
  m ← get_milestone milestone_pk
  project ← get_project m.project
  require_capability actor project (λ c. c.can_manage_deliverables)
  raise_if (not (is_null m.archived_at)) (Error.value Reason.archived_milestone)
  assignees ← check (active_members project.id new.assignee_ids)
  reviewers ← check (reviewers_of project.id new.reviewer_ids)
  raise_if (any (λ r. not (may_review r.role)) reviewers) (Error.value Reason.ineligible_reviewer)
  raise_if (new.reviewer_required && is_empty reviewers) (Error.value Reason.reviewer_missing)
  raise_if (is_blank (strip new.acceptance_criteria)) (Error.value Reason.criteria_missing)
  order ← check λ db. ok (next_order (order_in m.id db.deliverables))
  pk ← fresh_id
  let d : Deliverable = record {
    id = pk;
    project = project.id;
    milestone = m.id;
    title = strip new.title;
    description = strip new.description;
    acceptance_criteria = strip new.acceptance_criteria;
    due_date = new.due_date;
    required = new.required;
    reviewer_required = new.reviewer_required;
    order = order;
    current_status = DeliverableStatus.planned;
    progress_percent = 0;
    blocker_summary = [];
    current_revision = none;
    accepted_revision = none;
    accepted_at = none;
    archived_at = none;
    version = 1;
    created_by = actor.id;
  }
  save_deliverable d
  modify λ db. record db {
    assignees = db.assignees ++ map (λ a. assignee_row pk actor a.user) assignees;
    designations = db.designations ++ map (designation_row pk actor) reviewers;
  }
  raise_if (any (λ t. not (env.belongs SourceKind.task project.id t)) new.task_ids)
      (Error.value Reason.foreign_task)
  modify λ db. record db {
    task_links = db.task_links ++ map (link_row pk actor) (distinct new.task_ids);
  }
  record_execution_event project.id actor
      (EventAction.deliverable_created pk d.current_status d.version) false
  pure d

abbrev pub archived_deliverable : ℕ → Deliverable → Deliverable
archived_deliverable now d = record d {
  current_status = DeliverableStatus.archived;
  archived_at = some now;
  version = suc d.version;
}

unfoldable pub archive_deliverable : Environment → User → ℕ → ℕ → Step Deliverable
archive_deliverable env actor pk expected_version = atomic do
  d ← get_deliverable pk
  m ← get_milestone d.milestone
  project ← get_project d.project
  require_capability actor project (λ c. c.can_manage_deliverables)
  raise_if (not (d.version == expected_version)) (Error.value Reason.stale)
  raise_if (d.required && is_completed m.current_status) (Error.value Reason.milestone_completed)
  save_deliverable (archived_deliverable env.now d)
  reconcile_milestone env d.milestone
  record_execution_event d.project actor
      (EventAction.deliverable_archived d.id DeliverableStatus.archived (suc d.version)) false
  pure (archived_deliverable env.now d)

-- ===== src/Projects/Execution/Updates.antt =====
-- backend/apps/projects/execution_services.py: update_deliverable.
use grad_sync.Prelude.{
  ℕ, suc, Bool, true, false, not, ◌&&◌, ◌||◌, Option, none, some, List, [], ◌∷◌, ◌++◌, Text, strip,
  is_blank, map, any, ◌==◌, if◌then◌else◌,
}
use grad_sync.Prelude.Int.{ℤ, pos, pos_part, leb_ℤ}
use grad_sync.Accounts.{User}
use grad_sync.Projects.Model.{ProjectMembership}
use grad_sync.Projects.Access.{project_capabilities}
use grad_sync.Projects.Execution.Model.{
  DeliverableStatus, Deliverable, DeliverableAssignee, is_null, is_blocked, is_work_status,
}
use grad_sync.Projects.Execution.{
  Reason, Error, EventAction, Environment, Step, get_project, get_deliverable, active_members,
  require_writable, record_execution_event,
}
use grad_sync.Projects.Execution.Reconcile.{reconcile_milestone}
use grad_sync.Projects.Execution.Milestones.{given_or}
use grad_sync.Transactions.{Result, ok, err, pure, check, atomic, ◌>>=◌, ◌>>◌, raise_if, modify}
use grad_sync.Projects.Execution.Deliverables.{save_deliverable, assignee_row}

-- The argument `planning`, when it is not empty; `none` is a key that it does not have.
pub record Planning : Type 0 where
  pub title : Option Text
  pub description : Option Text
  pub acceptance_criteria : Option Text
  pub due_date : Option ℕ
  pub required : Option Bool
  pub reviewer_required : Option Bool
  pub assignee_ids : Option (List ℕ)

abbrev pub planned_fields : Planning → Deliverable → Deliverable
planned_fields p d = record d {
  title = given_or p.title d.title;
  description = given_or p.description d.description;
  acceptance_criteria = given_or p.acceptance_criteria d.acceptance_criteria;
  due_date = given_or p.due_date d.due_date;
  required = given_or p.required d.required;
  reviewer_required = given_or p.reviewer_required d.reviewer_required;
}

abbrev pub is_open_assignee : ℕ → DeliverableAssignee → Bool
is_open_assignee pk a = a.deliverable == pk && is_null a.removed_at

-- Open assignments of users that are no longer named end.
abbrev pub close_row : ℕ → ℕ → List ProjectMembership → DeliverableAssignee → DeliverableAssignee
close_row now pk members a =
    if is_open_assignee pk a && not (any (λ m. m.user == a.user) members)
    then record a { removed_at = some now }
    else a

abbrev pub add_assignees :
    ℕ → User → List ProjectMembership → List DeliverableAssignee → List DeliverableAssignee
add_assignees pk actor [] rows = rows
add_assignees pk actor (m ∷ members) rows = add_assignees pk actor members (
    if any (λ a. is_open_assignee pk a && a.user == m.user) rows
    then rows
    else rows ++ assignee_row pk actor m.user ∷ [])

-- `if "assignee_ids" in planning`
unfoldable pub reassign : Environment → User → Deliverable → Option (List ℕ) → Step (Unit {0})
reassign env actor d none = pure tt
reassign env actor d (some ids) = do
  members ← check (active_members d.project ids)
  modify λ db. record db {
    assignees =
        add_assignees d.id actor members (map (close_row env.now d.id members) db.assignees);
  }

-- `if planning`
unfoldable pub plan : Environment → User → Bool → Option Planning → Deliverable → Step Deliverable
plan env actor can_manage none d = pure d
plan env actor can_manage (some p) d = do
  raise_if (not can_manage) Error.permission_denied
  reassign env actor d p.assignee_ids
  pure (planned_fields p d)

-- The text of a work status: the status that it names, if it names one.
pub data StatusText : Type 0 where
  named : DeliverableStatus → StatusText
  unknown : StatusText

-- The other keyword arguments of `update_deliverable`.
pub record Progress : Type 0 where
  pub progress_percent : Option ℤ
  pub work_status : Option StatusText
  pub blocker_summary : Option Text

abbrev pub is_given {ℓ} : {A : Type ℓ} → Option A → Bool
is_given none = false
is_given (some a) = true

unfoldable pub with_progress : Option ℤ → Deliverable → Result Error Deliverable
with_progress none d = ok d
with_progress (some p) d =
    if leb_ℤ (pos 0) p && leb_ℤ p (pos 100)
    then ok (record d { progress_percent = pos_part p })
    else err (Error.value Reason.progress_range)

unfoldable pub with_status : Option StatusText → Deliverable → Result Error Deliverable
with_status none d = ok d
with_status (some StatusText.unknown) d = err (Error.value Reason.status_invalid)
with_status (some (StatusText.named s)) d =
    if is_work_status s
    then ok (record d { current_status = s })
    else err (Error.value Reason.status_invalid)

abbrev pub with_blocker : Option Text → Deliverable → Deliverable
with_blocker none d = d
with_blocker (some t) d = record d { blocker_summary = strip t }

-- `if any(value is not None for value in ...)`
unfoldable pub report_progress : Bool → Progress → Deliverable → Step Deliverable
report_progress may_report p d =
    if is_given p.progress_percent || is_given p.work_status || is_given p.blocker_summary
    then (do
      raise_if (not may_report) Error.permission_denied
      d1 ← check λ _. with_progress p.progress_percent d
      d2 ← check λ _. with_status p.work_status d1
      let d3 : Deliverable = with_blocker p.blocker_summary d2
      raise_if (is_blocked d3.current_status && is_blank d3.blocker_summary)
          (Error.value Reason.blocker_missing)
      pure d3)
    else pure d

unfoldable pub update_deliverable :
    Environment → User → ℕ → ℕ → Option Planning → Progress → Step Deliverable
update_deliverable env actor pk expected_version planning progress = atomic do
  d ← get_deliverable pk
  project ← get_project d.project
  require_writable project
  raise_if (not (d.version == expected_version)) (Error.value Reason.stale)
  can_manage ←
      check λ db. ok (project_capabilities actor project db.memberships).can_manage_deliverables
  is_assignee ←
      check λ db. ok (any (λ a. is_open_assignee d.id a && a.user == actor.id) db.assignees)
  d1 ← plan env actor can_manage planning d
  d2 ← report_progress (can_manage || is_assignee) progress d1
  let saved : Deliverable = record d2 { version = suc d2.version }
  save_deliverable saved
  reconcile_milestone env saved.milestone
  record_execution_event saved.project actor
      (EventAction.deliverable_updated saved.id saved.current_status saved.version) false
  pure saved

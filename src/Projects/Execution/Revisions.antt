-- ===== src/Projects/Execution/Revisions.antt =====
-- The submission of a deliverable: `submit_deliverable`.
use grad_sync.Prelude.{
  ℕ, suc, Bool, false, not, ◌&&◌, ◌||◌, Option, none, some, List, [], ◌∷◌, ◌++◌, Text, strip,
  is_blank, text_eq, map, any, select, find, ◌==◌, if◌then◌else◌,
}
use grad_sync.Accounts.{User}
use grad_sync.Projects.Model.{ResearchProject, ProjectMembership, is_live, is_reviewer}
use grad_sync.Projects.Access.{project_capabilities, first_where}
use grad_sync.Projects.Execution.Model.{
  DeliverableStatus, Deliverable, DeliverableReviewerDesignation, RevisionState,
  DeliverableRevision, is_null, is_accepted, is_archived,
}
use grad_sync.Projects.Execution.{
  Reason, Error, EventAction, Subject, FollowUp, Database, Environment, Step, fresh_id, get_project,
  get_deliverable, store_revision, is_empty, require_writable, record_execution_event, on_commit,
  max_of,
}
use grad_sync.Projects.Execution.Reconcile.{reconcile_milestone}
use grad_sync.Projects.Execution.Deliverables.{save_deliverable}
use grad_sync.Projects.Execution.Updates.{is_open_assignee}
use grad_sync.Projects.Execution.Evidence.{EvidenceItem, prepare_evidence}
use grad_sync.Submissions.Model.{ReviewTarget}
use grad_sync.Submissions.Reviewers.{assign_reviewer}
use grad_sync.Transactions.{ok, pure, check, atomic, ◌>>=◌, ◌>>◌, raise_if, modify, or_raise}

-- The revision that an earlier call with the key has submitted.
unfoldable pub submitted_before : ℕ → Text → Database → Option DeliverableRevision
submitted_before deliverable key db =
    if is_blank key
    then none
    else first_where (λ r. r.deliverable == deliverable && text_eq r.idempotency_key key)
        db.revisions

abbrev pub revision_numbers : ℕ → List DeliverableRevision → Option ℕ
revision_numbers deliverable rows =
    max_of (λ r. r.revision_number) (select (λ r. r.deliverable == deliverable) rows)

-- `(aggregate(Max("revision_number")) or 0) + 1`
abbrev pub next_number : Option ℕ → ℕ
next_number none = 1
next_number (some n) = suc n

abbrev pub open_designation : ℕ → DeliverableReviewerDesignation → Bool
open_designation deliverable g = g.deliverable == deliverable && is_null g.removed_at

abbrev pub reviewer_membership : ℕ → ℕ → ProjectMembership → Bool
reviewer_membership project user m =
    m.project == project && m.user == user && is_reviewer m.role && is_live m.status

abbrev pub assign_member : User → ResearchProject → ℕ → Option ProjectMembership → Step (Unit {0})
assign_member advisor project revision none = pure tt
assign_member advisor project revision (some m) = do
  assign_reviewer advisor project m.id (ReviewTarget.deliverable_revision revision) project.id
  pure tt

abbrev pub get_user : ℕ → Step User
get_user pk = check λ db. or_raise Error.does_not_exist (find (λ r. r.id) pk db.users)

-- The loop over the designations, for those who are active reviewers of the project.
unfoldable pub assign_designated :
    ResearchProject → ℕ → List DeliverableReviewerDesignation → Step (Unit {0})
assign_designated project revision [] = pure tt
assign_designated project revision (g ∷ gs) = do
  m ← check λ db. ok (first_where (reviewer_membership project.id g.reviewer) db.memberships)
  advisor ← get_user project.advisor
  assign_member advisor project revision m
  assign_designated project revision gs

-- Whom the commit asks for the next step.
abbrev pub asked : ResearchProject → ℕ → List DeliverableReviewerDesignation → List FollowUp
asked project revision [] =
    FollowUp.create_revision_action project.advisor revision Subject.decision_required ∷ []
asked project revision (g ∷ gs) =
    map (λ h. FollowUp.create_revision_action h.reviewer revision Subject.review_required) (g ∷ gs)

-- The keyword arguments of `submit_deliverable`.
pub record NewRevision : Type 0 where
  pub description : Text
  pub evidence : List EvidenceItem
  pub idempotency_key : Text

abbrev pub submitted_status : Deliverable → DeliverableStatus
submitted_status d =
    if d.reviewer_required then DeliverableStatus.under_review else DeliverableStatus.submitted

abbrev pub submitted : ℕ → Deliverable → Deliverable
submitted revision d = record d {
  current_revision = some revision;
  current_status = submitted_status d;
  version = suc d.version;
}

-- What follows when the key was not used before.
unfoldable pub submit_new :
    Environment → User → Deliverable → ResearchProject → NewRevision → Step DeliverableRevision
submit_new env actor d project new = do
  is_assignee ←
      check λ db. ok (any (λ a. is_open_assignee d.id a && a.user == actor.id) db.assignees)
  can_manage ←
      check λ db. ok (project_capabilities actor project db.memberships).can_manage_deliverables
  raise_if (not is_assignee && not can_manage) Error.permission_denied
  raise_if (is_accepted d.current_status || is_archived d.current_status)
      (Error.value Reason.not_submittable)
  raise_if (is_empty new.evidence) (Error.value Reason.evidence_missing)
  designations ← check λ db. ok (select (open_designation d.id) db.designations)
  raise_if (d.reviewer_required && is_empty designations) (Error.value Reason.reviewer_missing)
  number ← check λ db. ok (next_number (revision_numbers d.id db.revisions))
  pk ← fresh_id
  evidence ← check λ _. prepare_evidence env actor d.project pk new.evidence
  let r : DeliverableRevision = record {
    id = pk;
    project = d.project;
    deliverable = d.id;
    revision_number = number;
    criteria_snapshot = d.acceptance_criteria;
    description_snapshot = strip new.description;
    submitted_by = actor.id;
    idempotency_key = new.idempotency_key;
    state = RevisionState.submitted;
  }
  modify (store_revision r)
  modify λ db. record db { evidence = db.evidence ++ evidence }
  assign_designated project pk designations
  save_deliverable (submitted pk d)
  reconcile_milestone env d.milestone
  record_execution_event d.project actor
      (EventAction.deliverable_submitted pk RevisionState.submitted) false
  on_commit (asked project pk designations)
  pure r

abbrev pub or_submit :
    Environment
    → User
    → Deliverable
    → ResearchProject
    → NewRevision
    → Option DeliverableRevision
    → Step DeliverableRevision
or_submit env actor d project new (some existing) = pure existing
or_submit env actor d project new none = submit_new env actor d project new

unfoldable pub submit_deliverable : Environment → User → ℕ → NewRevision → Step DeliverableRevision
submit_deliverable env actor pk new = atomic do
  d ← get_deliverable pk
  project ← get_project d.project
  require_writable project
  existing ← check λ db. ok (submitted_before d.id new.idempotency_key db)
  or_submit env actor d project new existing

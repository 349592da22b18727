-- ===== src/Submissions/Reviewers.antt =====
-- backend/apps/submissions/review_assignment_services.py: who reviews a submission.
use grad_sync.Prelude.{
  ℕ, suc, Bool, true, false, not, ◌&&◌, ◌||◌, Option, none, some, any, find, put, ◌==◌,
  if◌then◌else◌,
}
use grad_sync.Accounts.{User}
use grad_sync.Projects.Model.{ResearchProject, ProjectMembership, is_live, is_reviewer}
use grad_sync.Projects.Access.{project_capabilities, first_where}
use grad_sync.Projects.Execution.{
  Reason, Error, EventAction, Database, Environment, Step, fresh_id, get_project, add_event,
}
use grad_sync.Submissions.Model.{
  ReviewTarget, AssignmentStatus, SubmissionReviewAssignment, is_assigned, same_target,
}
use grad_sync.Transactions.{ok, err, pure, check, atomic, ◌>>=◌, ◌>>◌, raise_if, modify, or_raise}

abbrev pub get_membership : ℕ → Step ProjectMembership
get_membership pk = check λ db. or_raise Error.does_not_exist (find (λ r. r.id) pk db.memberships)

abbrev pub require_assigning : User → ResearchProject → Step (Unit {0})
require_assigning actor project = check λ db.
    if (project_capabilities actor project db.memberships).can_assign_reviews
    then ok tt
    else err Error.permission_denied

abbrev pub is_assignment_of : ℕ → ReviewTarget → SubmissionReviewAssignment → Bool
is_assignment_of membership target a =
    a.reviewer_membership == membership && is_assigned a.status && same_target a.target target

abbrev pub store_assignment : SubmissionReviewAssignment → Database → Database
store_assignment a db = record db { assignments = put (λ r. r.id) a db.assignments }

abbrev pub new_assignment : ℕ → ℕ → ℕ → ReviewTarget → User → SubmissionReviewAssignment
new_assignment pk project membership target actor = record {
  id = pk;
  project = project;
  reviewer_membership = membership;
  target = target;
  status = AssignmentStatus.active;
  assigned_by = actor.id;
  removed_by = none;
  removed_at = none;
  version = 1;
}

-- `get_or_create`
unfoldable pub get_or_create :
    User
    → ℕ
    → ℕ
    → ReviewTarget
    → Option SubmissionReviewAssignment
    → Step SubmissionReviewAssignment
get_or_create actor project membership target (some a) = pure a
get_or_create actor project membership target none = do
  pk ← fresh_id
  modify (store_assignment (new_assignment pk project membership target actor))
  pure (new_assignment pk project membership target actor)

-- `target_project` is the project of the target.
unfoldable pub assign_reviewer :
    User → ResearchProject → ℕ → ReviewTarget → ℕ → Step SubmissionReviewAssignment
assign_reviewer actor project membership target target_project = atomic do
  require_assigning actor project
  m ← get_membership membership
  raise_if (not (m.project == project.id) || not (is_reviewer m.role) || not (is_live m.status))
      (Error.value Reason.not_a_reviewer)
  raise_if (not (target_project == project.id)) (Error.value Reason.foreign_target)
  existing ← check λ db. ok (first_where (is_assignment_of m.id target) db.assignments)
  a ← get_or_create actor project.id m.id target existing
  modify (add_event project.id actor (EventAction.reviewer_assigned a.id a.status) false)
  pure a

abbrev pub ended : Environment → User → SubmissionReviewAssignment → SubmissionReviewAssignment
ended env actor a = record a {
  status = AssignmentStatus.removed;
  removed_by = some actor.id;
  removed_at = some env.now;
  version = suc a.version;
}

abbrev pub end_assignment :
    Environment → User → SubmissionReviewAssignment → Bool → Step SubmissionReviewAssignment
end_assignment env actor a true = do
  modify (store_assignment (ended env actor a))
  modify
      (add_event a.project actor (EventAction.reviewer_removed a.id AssignmentStatus.removed) false)
  pure (ended env actor a)
end_assignment env actor a false = pure a

unfoldable pub remove_review_assignment :
    Environment → User → ℕ → ℕ → Step SubmissionReviewAssignment
remove_review_assignment env actor pk expected_version = atomic do
  a ← check λ db. or_raise Error.does_not_exist (find (λ r. r.id) pk db.assignments)
  project ← get_project a.project
  require_assigning actor project
  raise_if (not (a.version == expected_version)) (Error.value Reason.stale)
  end_assignment env actor a (is_assigned a.status)

abbrev pub is_reviewer_of : ℕ → User → ProjectMembership → Bool
is_reviewer_of project user m =
    m.project == project && m.user == user.id && is_reviewer m.role && is_live m.status

-- `project` is the project of the target.
unfoldable pub reviewer_can_access_target : User → ResearchProject → ReviewTarget → Database → Bool
reviewer_can_access_target user project target db =
    let c = project_capabilities user project db.memberships in
    if c.can_manage_project || c.can_supervise_governance
    then true
    else elim (first_where (is_reviewer_of project.id user) db.memberships) [
      | none ↦ false
      | some m ↦ any (is_assignment_of m.id target) db.assignments
    ]

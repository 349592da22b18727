-- ===== src/Projects/Members/Collaborators.antt =====
-- backend/apps/projects/collaboration_services.py: the roles of teachers in a project.
use grad_sync.Prelude.{
  ℕ, suc, Bool, true, false, not, ◌&&◌, Option, none, some, Text, is_blank, strip, find, ◌==◌,
  if◌then◌else◌,
}
use grad_sync.Accounts.{User, is_active, is_advisor_role, is_given, is_teacher, is_administrator}
use grad_sync.Projects.Model.{
  ResearchProject, Role, MembershipStatus, ProjectMembership, is_live, is_primary, is_held,
}
use grad_sync.Projects.Access.{project_capabilities, first_where}
use grad_sync.Projects.Members.{
  Reason, Error, EventType, Subject, Step, fresh_id, get_project, get_membership, save_membership,
  new_membership, record_event, notify, is_row_of,
}
use grad_sync.Transactions.{ok, err, pure, check, atomic, ◌>>=◌, ◌>>◌, raise_if, or_raise}

abbrev pub is_eligible_teacher : User → Bool
is_eligible_teacher user =
    is_advisor_role user.global_role
    && is_active user.status
    && is_teacher user.active_role
    && is_given user.email_verified_at

-- `ensure_teacher_eligible`
abbrev pub ensure_teacher_eligible : User → Step (Unit {0})
ensure_teacher_eligible user =
    raise_if (not (is_eligible_teacher user)) (Error.validation Reason.ineligible_teacher)

-- `_require_collaborator_management`
unfoldable pub require_collaborator_management : User → ResearchProject → Step (Unit {0})
require_collaborator_management actor project = do
  check λ db.
      if (project_capabilities actor project db.memberships).can_manage_collaborators
      then ok tt
      else err Error.permission_denied
  raise_if (is_held project.governance_state) (Error.validation Reason.on_hold)

abbrev pub is_collaborator_role : Role → Bool
is_collaborator_role Role.co_advisor = true
is_collaborator_role Role.reviewer = true
is_collaborator_role Role.observer = true
is_collaborator_role _ = false

abbrev pub require_role_and_reason : User → Role → Text → Step (Unit {0})
require_role_and_reason actor role reason = do
  raise_if (not (is_collaborator_role role)) (Error.validation Reason.unsupported_role)
  raise_if (is_administrator actor && is_blank (strip reason))
      (Error.validation Reason.reason_missing)

abbrev pub is_live_row : Option ProjectMembership → Bool
is_live_row none = false
is_live_row (some m) = is_live m.status

abbrev pub revived : ℕ → User → Role → Text → ProjectMembership → ProjectMembership
revived now actor role reason m = record m {
  role = role;
  status = MembershipStatus.active;
  removed_at = none;
  assigned_by = some actor.id;
  assignment_reason = reason;
  role_changed_at = some now;
  version = suc m.version;
}

abbrev pub assigned : ℕ → User → Role → Text → ℕ → ℕ → ℕ → ProjectMembership
assigned now actor role reason pk project user = record (new_membership pk project user role) {
  assigned_by = some actor.id;
  assignment_reason = reason;
  role_changed_at = some now;
}

-- The row that is revived, or created.
abbrev pub row_for :
    (ProjectMembership → ProjectMembership)
    → (ℕ → ProjectMembership)
    → Option ProjectMembership
    → Step ProjectMembership
row_for revive create (some m) = do save_membership (revive m); pure (revive m)
row_for revive create none = do pk ← fresh_id; save_membership (create pk); pure (create pk)

unfoldable pub assign_collaborator : ℕ → User → ℕ → User → Role → Text → Step ProjectMembership
assign_collaborator now actor project user role reason = atomic do
  p ← get_project project
  require_collaborator_management actor p
  ensure_teacher_eligible user
  require_role_and_reason actor role reason
  existing ← check λ db. ok (first_where (is_row_of p.id user.id) db.memberships)
  raise_if (is_live_row existing) (Error.validation Reason.already_member)
  m ←
      row_for (revived now actor role reason) (λ pk. assigned now actor role reason pk p.id user.id)
        existing
  record_event p.id actor (EventType.collaborator_assigned m.id role m.status)
  notify now m actor Subject.role_assigned
  pure m

abbrev pub with_role : ℕ → Role → Text → ProjectMembership → ProjectMembership
with_role now role reason m = record m {
  role = role;
  assignment_reason = reason;
  role_changed_at = some now;
  version = suc m.version;
}

unfoldable pub change_collaborator_role : ℕ → User → ℕ → Role → ℕ → Text → Step ProjectMembership
change_collaborator_role now actor membership role expected_version reason = atomic do
  m ← get_membership membership
  p ← get_project m.project
  user ← check λ db. or_raise Error.does_not_exist (find (λ r. r.id) m.user db.users)
  require_collaborator_management actor p
  raise_if (not (m.version == expected_version)) (Error.validation Reason.stale_membership)
  raise_if (is_primary m.role) (Error.validation Reason.primary_by_transfer)
  ensure_teacher_eligible user
  require_role_and_reason actor role reason
  save_membership (with_role now role reason m)
  record_event p.id actor (EventType.collaborator_role_changed m.id role (suc m.version))
  notify now m actor Subject.role_changed
  pure (with_role now role reason m)

abbrev pub taken_off : ℕ → Text → ProjectMembership → ProjectMembership
taken_off now reason m = record m {
  status = MembershipStatus.removed;
  removed_at = some now;
  assignment_reason = reason;
  version = suc m.version;
}

unfoldable pub remove_collaborator : ℕ → User → ℕ → ℕ → Text → Step ProjectMembership
remove_collaborator now actor membership expected_version reason = atomic do
  m ← get_membership membership
  p ← get_project m.project
  require_collaborator_management actor p
  raise_if (not (m.version == expected_version)) (Error.validation Reason.stale_membership)
  raise_if (is_primary m.role) (Error.validation Reason.primary_not_removed)
  raise_if (is_administrator actor && is_blank (strip reason))
      (Error.validation Reason.reason_missing)
  save_membership (taken_off now reason m)
  record_event p.id actor
      (EventType.collaborator_removed m.id MembershipStatus.removed (suc m.version))
  notify now m actor Subject.role_removed
  pure (taken_off now reason m)

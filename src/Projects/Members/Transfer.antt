-- ===== src/Projects/Members/Transfer.antt =====
-- backend/apps/projects/collaboration_services.py: the primary advisor hands a project over, and a
-- project is put on hold.
use grad_sync.Prelude.{
  ℕ, suc, Bool, true, false, not, ◌&&◌, ◌||◌, Option, none, some, [], Text, map, is_blank, strip,
  text_eq, put, ◌==◌, if◌then◌else◌,
}
use grad_sync.Accounts.{User, is_administrator, is_given}
use grad_sync.Projects.Model.{
  ResearchProject, GovernanceState, GovernanceHoldReason, Role, MembershipStatus, ProjectMembership,
  PreviousAdvisorResult, ProjectOwnershipTransfer, is_held,
}
use grad_sync.Projects.Access.{project_capabilities, first_where}
use grad_sync.Projects.Members.{
  Reason, Error, EventType, Subject, Database, Step, fresh_id, get_project, is_live_primary,
  new_membership, store_project, record_event, notify, is_row_of,
}
use grad_sync.Projects.Members.Collaborators.{ensure_teacher_eligible, row_for}
use grad_sync.Transactions.{ok, err, pure, check, atomic, ◌>>=◌, ◌>>◌, raise_if, modify}

abbrev pub role_after : PreviousAdvisorResult → Role
role_after PreviousAdvisorResult.co_advisor = Role.co_advisor
role_after PreviousAdvisorResult.reviewer = Role.reviewer
role_after PreviousAdvisorResult.observer = Role.observer
role_after PreviousAdvisorResult.removed = Role.observer

abbrev pub status_after : PreviousAdvisorResult → MembershipStatus
status_after PreviousAdvisorResult.removed = MembershipStatus.removed
status_after _ = MembershipStatus.active

-- The query `update` of the rows of the live primary advisors.
abbrev pub demoted : ℕ → ℕ → PreviousAdvisorResult → ProjectMembership → ProjectMembership
demoted now project result m =
    if m.project == project && is_live_primary m
    then record m {
      role = role_after result;
      status = status_after result;
      role_changed_at = some now;
    }
    else m

abbrev pub demote_all : ℕ → ℕ → PreviousAdvisorResult → Database → Database
demote_all now project result db = record db {
  memberships = map (demoted now project result) db.memberships;
}

abbrev pub promoted : ℕ → User → ProjectMembership → ProjectMembership
promoted now actor m = record m {
  role = Role.advisor;
  status = MembershipStatus.active;
  removed_at = none;
  assigned_by = some actor.id;
  role_changed_at = some now;
  version = suc m.version;
}

abbrev pub new_primary : ℕ → User → ℕ → ℕ → ℕ → ProjectMembership
new_primary now actor project user pk = record (new_membership pk project user Role.advisor) {
  assigned_by = some actor.id;
  role_changed_at = some now;
}

abbrev pub handed_over : ℕ → User → User → Text → ResearchProject → ResearchProject
handed_over now actor new_advisor reason p = record p {
  advisor = new_advisor.id;
  governance_state = GovernanceState.normal;
  governance_hold_resolved_at =
      if is_given p.governance_hold_started_at then some now else p.governance_hold_resolved_at;
  governance_hold_resolved_by = if is_administrator actor then some actor.id else none;
  governance_hold_resolution_reason = reason;
  governance_hold_reason = none;
  governance_version = suc p.governance_version;
}

-- The arguments of a transfer.
pub record Handover : Type 0 where
  pub new_advisor : User
  pub expected_version : ℕ
  pub previous_advisor_result : PreviousAdvisorResult
  pub reason : Text
  pub idempotency_key : Text

abbrev pub transfer_of : User → ResearchProject → Handover → ℕ → ProjectOwnershipTransfer
transfer_of actor p h pk = record {
  id = pk;
  project = p.id;
  previous_advisor = p.advisor;
  new_advisor = h.new_advisor.id;
  previous_advisor_result = h.previous_advisor_result;
  initiated_by = actor.id;
  reason = h.reason;
  expected_project_version = h.expected_version;
  idempotency_key = h.idempotency_key;
}

abbrev pub has_key : ℕ → Text → ProjectOwnershipTransfer → Bool
has_key project [] t = false
has_key project key t = t.project == project && text_eq t.idempotency_key key

abbrev pub store_transfer : ProjectOwnershipTransfer → Database → Database
store_transfer t db = record db { transfers = put (λ r. r.id) t db.transfers }

-- What is left to do when no transfer has the key.
unfoldable pub hand_over :
    ℕ
    → User
    → ResearchProject
    → Handover
    → Option ProjectOwnershipTransfer
    → Step ProjectOwnershipTransfer
hand_over now actor p h (some existing) = pure existing
hand_over now actor p h none = do
  existing ← check λ db. ok (first_where (is_row_of p.id h.new_advisor.id) db.memberships)
  modify (demote_all now p.id h.previous_advisor_result)
  m ← row_for (promoted now actor) (new_primary now actor p.id h.new_advisor.id) existing
  modify (store_project (handed_over now actor h.new_advisor h.reason p))
  pk ← fresh_id
  modify (store_transfer (transfer_of actor p h pk))
  record_event p.id actor (EventType.ownership_transferred pk GovernanceState.normal)
  notify now m actor Subject.now_primary
  pure (transfer_of actor p h pk)

abbrev pub may_transfer : User → ResearchProject → Database → Bool
may_transfer actor p db =
    let c = project_capabilities actor p db.memberships in
    c.can_transfer_ownership || c.can_resolve_governance_hold

unfoldable pub transfer_ownership : ℕ → User → ℕ → Handover → Step ProjectOwnershipTransfer
transfer_ownership now actor project h = atomic do
  p ← get_project project
  check λ db. if may_transfer actor p db then ok tt else err Error.permission_denied
  raise_if (not (p.governance_version == h.expected_version))
      (Error.validation Reason.stale_project)
  raise_if (is_administrator actor && is_blank (strip h.reason))
      (Error.validation Reason.reason_missing)
  ensure_teacher_eligible h.new_advisor
  raise_if (h.new_advisor.id == p.advisor) (Error.validation Reason.same_advisor)
  existing ← check λ db. ok (first_where (has_key p.id h.idempotency_key) db.transfers)
  hand_over now actor p h existing

abbrev pub held : ℕ → GovernanceHoldReason → ResearchProject → ResearchProject
held now reason p = record p {
  governance_state = GovernanceState.hold;
  governance_hold_reason = some reason;
  governance_hold_started_at = some now;
  governance_version = suc p.governance_version;
}

abbrev pub hold_once : ℕ → GovernanceHoldReason → ResearchProject → Bool → Step ResearchProject
hold_once now reason p true = pure p
hold_once now reason p false = do
  modify (store_project (held now reason p))
  pure (held now reason p)

unfoldable pub place_governance_hold : ℕ → ℕ → GovernanceHoldReason → Step ResearchProject
place_governance_hold now project reason =
    atomic do p ← get_project project; hold_once now reason p (is_held p.governance_state)

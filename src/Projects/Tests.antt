-- ===== src/Projects/Tests.antt =====
-- A small project, on which the theorems about projects are tried out.
mod Executing
mod Execution
mod Members
mod Owners
mod Records
use grad_sync.Prelude.{ℕ, Bool, true, false, Option, none, some, List, [], ◌∷◌, Text, text}
use grad_sync.Accounts.{RequestedRole, User, GlobalRole, UserStatus}
use grad_sync.Projects.Model.{
  ResearchProject, ProjectStatus, GovernanceState, ProjectMembership, MembershipStatus, Role,
  DecisionRecord, DecisionStatus, Level, RiskState, SourceType, RiskRecord, RiskRevision,
  TargetType,
}
use grad_sync.Projects.Governance.{Database, Environment}

abbrev pub lead : User
lead = record {
  id = 1;
  is_authenticated = true;
  status = UserStatus.active;
  global_role = GlobalRole.advisor;
  email_verified_at = some 10;
  active_role = RequestedRole.teacher;
}

abbrev pub suspended : User
suspended = record lead { status = UserStatus.suspended }

abbrev pub thesis : ResearchProject
thesis = record {
  id = 5;
  advisor = 1;
  status = ProjectStatus.active;
  title = [];
  description = [];
  starts_on = none;
  ends_on = none;
  archived_at = none;
  governance_state = GovernanceState.normal;
  governance_hold_reason = none;
  governance_hold_started_at = none;
  governance_hold_resolved_at = none;
  governance_hold_resolved_by = none;
  governance_hold_resolution_reason = [];
  governance_version = 1;
}

abbrev pub held_thesis : ResearchProject
held_thesis = record thesis { governance_state = GovernanceState.hold }

abbrev pub lead_membership : ProjectMembership
lead_membership = record {
  id = 6;
  project = 5;
  user = 1;
  role = Role.advisor;
  status = MembershipStatus.active;
  removed_at = none;
  assigned_by = none;
  assignment_reason = [];
  role_changed_at = none;
  version = 1;
}

abbrev pub plan : DecisionRecord
plan = record {
  id = 8;
  project = 5;
  title = text "plan";
  context = [];
  options_considered = text "a" ∷ [];
  outcome = [];
  rationale = [];
  owner = 1;
  effective_date = 3;
  status = DecisionStatus.current;
  supersedes = none;
  published_by = 1;
  idempotency_key = text "plan-key";
}

abbrev pub delay : RiskRecord
delay = record {
  id = 9;
  project = 5;
  title = text "delay";
  description = [];
  source_type = SourceType.manual;
  source_key = [];
  likelihood = Level.low;
  impact = Level.low;
  severity = Level.low;
  owner = none;
  treatment = [];
  review_date = none;
  state = RiskState.raised;
  closure_rationale = [];
  closed_at = none;
  version = 1;
  raised_by = 1;
  idempotency_key = text "delay-key";
}

abbrev pub delay_raised : RiskRevision
delay_raised = record {
  project = 5;
  risk = 9;
  revision_number = 1;
  previous_state = RiskState.raised;
  new_state = RiskState.raised;
  likelihood = Level.low;
  impact = Level.low;
  severity = Level.low;
  owner_id_snapshot = none;
  treatment = [];
  review_date = none;
  closure_rationale = [];
  actor = 1;
  reason = text "Risk raised";
  idempotency_key = [];
}

abbrev pub files : Database
files = record {
  projects = thesis ∷ [];
  memberships = lead_membership ∷ [];
  decisions = plan ∷ [];
  risks = delay ∷ [];
  revisions = delay_raised ∷ [];
  links = [];
  events = [];
  next_id = 20;
}

abbrev pub clock : ℕ → Environment
clock now = record { now = now; target = λ kind project pk. none }

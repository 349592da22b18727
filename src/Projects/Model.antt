-- ===== src/Projects/Model.antt =====
-- The rows of backend/apps/projects/models.py that the services of the projects read and write.
use grad_sync.Prelude.{ℕ, Bool, true, false, Option, List, Text}

pub data ProjectStatus : Type 0 where
  active archived : ProjectStatus

pub data GovernanceState : Type 0 where
  normal hold : GovernanceState

pub data GovernanceHoldReason : Type 0 where
  owner_ineligible legacy_admin_owner migration_conflict manual_correction : GovernanceHoldReason

pub record ResearchProject : Type 0 where
  pub id : ℕ
  pub title : Text
  pub description : Text
  pub advisor : ℕ
  pub status : ProjectStatus
  pub starts_on : Option ℕ
  pub ends_on : Option ℕ
  pub archived_at : Option ℕ
  pub governance_state : GovernanceState
  pub governance_hold_reason : Option GovernanceHoldReason
  pub governance_hold_started_at : Option ℕ
  pub governance_hold_resolved_at : Option ℕ
  pub governance_hold_resolved_by : Option ℕ
  pub governance_hold_resolution_reason : Text
  pub governance_version : ℕ

pub data Role : Type 0 where
  advisor co_advisor student reviewer observer : Role

pub data MembershipStatus : Type 0 where
  active removed : MembershipStatus

pub record ProjectMembership : Type 0 where
  pub id : ℕ
  pub project : ℕ
  pub user : ℕ
  pub role : Role
  pub status : MembershipStatus
  pub removed_at : Option ℕ
  pub assigned_by : Option ℕ
  pub assignment_reason : Text
  pub role_changed_at : Option ℕ
  pub version : ℕ

-- What the former primary advisor is after a transfer.
pub data PreviousAdvisorResult : Type 0 where
  co_advisor reviewer observer removed : PreviousAdvisorResult

pub record ProjectOwnershipTransfer : Type 0 where
  pub id : ℕ
  pub project : ℕ
  pub previous_advisor : ℕ
  pub new_advisor : ℕ
  pub previous_advisor_result : PreviousAdvisorResult
  pub initiated_by : ℕ
  pub reason : Text
  pub expected_project_version : ℕ
  pub idempotency_key : Text

pub data DecisionStatus : Type 0 where
  current superseded : DecisionStatus

pub record DecisionRecord : Type 0 where
  pub id : ℕ
  pub project : ℕ
  pub title : Text
  pub context : Text
  pub options_considered : List Text
  pub outcome : Text
  pub rationale : Text
  pub owner : ℕ
  pub effective_date : ℕ
  pub status : DecisionStatus
  pub supersedes : Option ℕ
  pub published_by : ℕ
  pub idempotency_key : Text

pub data Level : Type 0 where
  low medium high : Level

pub data RiskState : Type 0 where
  raised opened mitigating accepted resolved : RiskState

pub data SourceType : Type 0 where
  manual report_blocker deliverable decision : SourceType

pub record RiskRecord : Type 0 where
  pub id : ℕ
  pub project : ℕ
  pub title : Text
  pub description : Text
  pub source_type : SourceType
  pub source_key : Text
  pub likelihood : Level
  pub impact : Level
  pub severity : Level
  pub owner : Option ℕ
  pub treatment : Text
  pub review_date : Option ℕ
  pub state : RiskState
  pub closure_rationale : Text
  pub closed_at : Option ℕ
  pub version : ℕ
  pub raised_by : ℕ
  pub idempotency_key : Text

pub record RiskRevision : Type 0 where
  pub project : ℕ
  pub risk : ℕ
  pub revision_number : ℕ
  pub previous_state : RiskState
  pub new_state : RiskState
  pub likelihood : Level
  pub impact : Level
  pub severity : Level
  pub owner_id_snapshot : Option ℕ
  pub treatment : Text
  pub review_date : Option ℕ
  pub closure_rationale : Text
  pub actor : ℕ
  pub reason : Text
  pub idempotency_key : Text

pub data TargetType : Type 0 where
  milestone deliverable project_material report decision risk task : TargetType

-- The title, or what a row without one is called by.
pub data Label : Type 0 where
  titled : Text → Label
  numbered : TargetType → ℕ → Label

-- What a link starts from: one of `decision` and `risk` is set.
pub data Source : Type 0 where
  of_decision of_risk : ℕ → Source

pub record ProjectRecordLink : Type 0 where
  pub project : ℕ
  pub source : Source
  pub target_type_snapshot : TargetType
  pub target_id_snapshot : ℕ
  pub label_snapshot : Label
  pub created_by : ℕ

abbrev pub is_live : MembershipStatus → Bool
is_live MembershipStatus.active = true
is_live _ = false

abbrev pub is_primary : Role → Bool
is_primary Role.advisor = true
is_primary _ = false

abbrev pub is_co_advisor : Role → Bool
is_co_advisor Role.co_advisor = true
is_co_advisor _ = false

abbrev pub is_student : Role → Bool
is_student Role.student = true
is_student _ = false

abbrev pub is_reviewer : Role → Bool
is_reviewer Role.reviewer = true
is_reviewer _ = false

abbrev pub is_observer : Role → Bool
is_observer Role.observer = true
is_observer _ = false

abbrev pub is_active_project : ProjectStatus → Bool
is_active_project ProjectStatus.active = true
is_active_project _ = false

abbrev pub is_held : GovernanceState → Bool
is_held GovernanceState.hold = true
is_held _ = false

-- ===== src/Projects/Execution/Model.antt =====
-- The rows of backend/apps/projects/models.py that the execution of a project reads and writes.
use grad_sync.Prelude.{ℕ, Bool, true, false, Option, none, some, Text}

pub data MilestoneStatus : Type 0 where
  planned in_progress at_risk blocked overdue completed archived : MilestoneStatus

pub record Milestone : Type 0 where
  pub id : ℕ
  pub project : ℕ
  pub title : Text
  pub description : Text
  pub target_date : ℕ
  pub order : ℕ
  pub current_status : MilestoneStatus
  pub completed_at : Option ℕ
  pub archived_at : Option ℕ
  pub version : ℕ
  pub created_by : ℕ

pub record MilestoneOwner : Type 0 where
  pub milestone : ℕ
  pub user : ℕ
  pub assigned_by : ℕ

pub data DeliverableStatus : Type 0 where
  planned in_progress blocked submitted under_review changes_requested : DeliverableStatus
  accepted archived : DeliverableStatus

pub record Deliverable : Type 0 where
  pub id : ℕ
  pub project : ℕ
  pub milestone : ℕ
  pub title : Text
  pub description : Text
  pub acceptance_criteria : Text
  pub due_date : ℕ
  pub required : Bool
  pub reviewer_required : Bool
  pub order : ℕ
  pub current_status : DeliverableStatus
  pub progress_percent : ℕ
  pub blocker_summary : Text
  pub current_revision : Option ℕ
  pub accepted_revision : Option ℕ
  pub accepted_at : Option ℕ
  pub archived_at : Option ℕ
  pub version : ℕ
  pub created_by : ℕ

pub record DeliverableAssignee : Type 0 where
  pub deliverable : ℕ
  pub user : ℕ
  pub assigned_by : ℕ
  pub removed_at : Option ℕ

pub record DeliverableReviewerDesignation : Type 0 where
  pub deliverable : ℕ
  pub reviewer : ℕ
  pub designated_by : ℕ
  pub removed_at : Option ℕ

pub record DeliverableTaskLink : Type 0 where
  pub deliverable : ℕ
  pub task : ℕ
  pub linked_by : ℕ

pub data RevisionState : Type 0 where
  submitted recommended_accept recommended_return accepted returned : RevisionState

pub record DeliverableRevision : Type 0 where
  pub id : ℕ
  pub project : ℕ
  pub deliverable : ℕ
  pub revision_number : ℕ
  pub criteria_snapshot : Text
  pub description_snapshot : Text
  pub submitted_by : ℕ
  pub idempotency_key : Text
  pub state : RevisionState

-- The type of the source, with the key that is kept beside it.
pub data EvidenceSource : Type 0 where
  project_material task weekly_progress_report : ℕ → EvidenceSource
  external_url : Text → EvidenceSource

pub record DeliverableEvidence : Type 0 where
  pub project : ℕ
  pub revision : ℕ
  pub source : EvidenceSource
  pub label_snapshot : Text
  pub added_by : ℕ

pub data Recommendation : Type 0 where
  accept return : Recommendation

pub record DeliverableReviewRecommendation : Type 0 where
  pub id : ℕ
  pub project : ℕ
  pub revision : ℕ
  pub reviewer : ℕ
  pub recommendation : Recommendation
  pub rationale : Text
  pub review_assignment : Option ℕ
  pub superseded_at : Option ℕ

pub data FinalDecision : Type 0 where
  accepted returned : FinalDecision

pub record DeliverableFinalDecision : Type 0 where
  pub id : ℕ
  pub project : ℕ
  pub revision : ℕ
  pub decision : FinalDecision
  pub rationale : Text
  pub decided_by : ℕ
  pub idempotency_key : Text

abbrev pub is_null : Option ℕ → Bool
is_null none = true
is_null (some t) = false

abbrev pub is_completed : MilestoneStatus → Bool
is_completed MilestoneStatus.completed = true
is_completed _ = false

abbrev pub is_archived_milestone : MilestoneStatus → Bool
is_archived_milestone MilestoneStatus.archived = true
is_archived_milestone _ = false

abbrev pub is_accepted : DeliverableStatus → Bool
is_accepted DeliverableStatus.accepted = true
is_accepted _ = false

abbrev pub is_blocked : DeliverableStatus → Bool
is_blocked DeliverableStatus.blocked = true
is_blocked _ = false

abbrev pub is_archived : DeliverableStatus → Bool
is_archived DeliverableStatus.archived = true
is_archived _ = false

-- `IN_PROGRESS`, `SUBMITTED`, `UNDER_REVIEW` or `CHANGES_REQUESTED`
abbrev pub is_under_way : DeliverableStatus → Bool
is_under_way DeliverableStatus.in_progress = true
is_under_way DeliverableStatus.submitted = true
is_under_way DeliverableStatus.under_review = true
is_under_way DeliverableStatus.changes_requested = true
is_under_way _ = false

-- `PLANNED`, `IN_PROGRESS` or `BLOCKED`
abbrev pub is_work_status : DeliverableStatus → Bool
is_work_status DeliverableStatus.planned = true
is_work_status DeliverableStatus.in_progress = true
is_work_status DeliverableStatus.blocked = true
is_work_status _ = false

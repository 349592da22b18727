-- ===== src/Submissions/Model.antt =====
-- The rows of backend/apps/submissions/models.py that are read and written.
use grad_sync.Prelude.{ℕ, Bool, true, false, Option, ◌==◌}

-- What is reviewed, by its key: one of the four references of the row is set.
pub data ReviewTarget : Type 0 where
  weekly_report writing_version draft_version deliverable_revision : ℕ → ReviewTarget

pub data AssignmentStatus : Type 0 where
  active removed : AssignmentStatus

pub record SubmissionReviewAssignment : Type 0 where
  pub id : ℕ
  pub project : ℕ
  pub reviewer_membership : ℕ
  pub target : ReviewTarget
  pub status : AssignmentStatus
  pub assigned_by : ℕ
  pub removed_by : Option ℕ
  pub removed_at : Option ℕ
  pub version : ℕ

abbrev pub is_assigned : AssignmentStatus → Bool
is_assigned AssignmentStatus.active = true
is_assigned _ = false

abbrev pub same_target : ReviewTarget → ReviewTarget → Bool
same_target (ReviewTarget.weekly_report a) (ReviewTarget.weekly_report b) = a == b
same_target (ReviewTarget.writing_version a) (ReviewTarget.writing_version b) = a == b
same_target (ReviewTarget.draft_version a) (ReviewTarget.draft_version b) = a == b
same_target (ReviewTarget.deliverable_revision a) (ReviewTarget.deliverable_revision b) = a == b
same_target _ _ = false

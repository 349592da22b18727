-- ===== src/Projects/Tests/Executing.antt =====
-- A milestone of the project with one deliverable, which is submitted, recommended and accepted.
use grad_sync.Prelude.{ℕ, ◌+◌, true, false, none, some, [], ◌∷◌, text}
use grad_sync.Projects.Execution.Model.{
  MilestoneStatus, Milestone, DeliverableStatus, Deliverable, RevisionState, DeliverableRevision,
  Recommendation, DeliverableReviewRecommendation, FinalDecision, DeliverableFinalDecision,
}
use grad_sync.Projects.Execution.{Database, Environment}
use grad_sync.Projects.Execution.Evidence.{EvidenceItem}
use grad_sync.Projects.Execution.Revisions.{NewRevision}
use grad_sync.Projects.Execution.Milestones.{NewMilestone}
use grad_sync.Projects.Tests.{lead, thesis, held_thesis, lead_membership}

abbrev pub day : ℕ → Environment
day n = record { now = 1_000 + n; today = n; belongs = λ kind project pk. true }

abbrev pub draft : Milestone
draft = record {
  id = 30;
  project = 5;
  title = text "draft";
  description = [];
  target_date = 40;
  order = 0;
  current_status = MilestoneStatus.planned;
  completed_at = none;
  archived_at = none;
  version = 1;
  created_by = 1;
}

abbrev pub chapter : Deliverable
chapter = record {
  id = 31;
  project = 5;
  milestone = 30;
  title = text "chapter";
  description = [];
  acceptance_criteria = text "c";
  due_date = 35;
  required = true;
  reviewer_required = false;
  order = 0;
  current_status = DeliverableStatus.planned;
  progress_percent = 0;
  blocker_summary = [];
  current_revision = none;
  accepted_revision = none;
  accepted_at = none;
  archived_at = none;
  version = 1;
  created_by = 1;
}

abbrev pub board : Database
board = record {
  users = lead ∷ [];
  projects = thesis ∷ [];
  memberships = lead_membership ∷ [];
  milestones = draft ∷ [];
  owners = [];
  deliverables = chapter ∷ [];
  assignees = [];
  designations = [];
  task_links = [];
  revisions = [];
  evidence = [];
  recommendations = [];
  decisions = [];
  assignments = [];
  events = [];
  follow_ups = [];
  next_id = 50;
}

abbrev pub link : EvidenceItem
link = record {
  project_material_id = none;
  task_id = some 7;
  weekly_progress_report_id = none;
  external_url = [];
  label = [];
}

abbrev pub first_draft : NewRevision
first_draft = record { description = []; evidence = link ∷ []; idempotency_key = text "k" }

abbrev pub first_revision : DeliverableRevision
first_revision = record {
  id = 50;
  project = 5;
  deliverable = 31;
  revision_number = 1;
  criteria_snapshot = text "c";
  description_snapshot = [];
  submitted_by = 1;
  idempotency_key = text "k";
  state = RevisionState.submitted;
}

-- The board with the revision, and a member who may recommend.
abbrev pub review_board : Database
review_board = record board {
  deliverables =
      record chapter {
        current_status = DeliverableStatus.submitted;
        current_revision = some 50;
        version = 2;
      }
      ∷ [];
  revisions = first_revision ∷ [];
  designations =
      record { deliverable = 31; reviewer = 1; designated_by = 1; removed_at = none } ∷ [];
  next_id = 60;
}

abbrev pub verdict : DeliverableFinalDecision
verdict = record {
  id = 60;
  project = 5;
  revision = 50;
  decision = FinalDecision.accepted;
  rationale = [];
  decided_by = 1;
  idempotency_key = [];
}

abbrev pub advice : DeliverableReviewRecommendation
advice = record {
  id = 60;
  project = 5;
  revision = 50;
  reviewer = 1;
  recommendation = Recommendation.return;
  rationale = text "r";
  review_assignment = none;
  superseded_at = none;
}

abbrev pub decided_board : Database
decided_board = record review_board {
  decisions = verdict ∷ [];
  revisions = record first_revision { state = RevisionState.accepted } ∷ [];
}

abbrev pub done_board : Database
done_board = record board {
  milestones =
      record draft { current_status = MilestoneStatus.completed; completed_at = some 9 } ∷ [];
  deliverables = [];
}

abbrev pub held_board : Database
held_board = record board { projects = held_thesis ∷ [] }

abbrev pub second : NewMilestone
second = record { title = text "b"; description = []; target_date = 50; owner_ids = 1 ∷ [] }

-- ===== src/Projects/Execution.antt =====
-- backend/apps/projects/execution_services.py: the state, and what its functions share.
pub mod Model
pub mod Reconcile
pub mod Milestones
pub mod Deliverables
pub mod Updates
pub mod Evidence
pub mod Revisions
pub mod Reviews
pub mod Runs
pub mod Plan
pub mod PlanChanges
pub mod Changes
pub mod WorkChanges
pub mod ReviewChanges
pub mod SubmissionChanges
pub mod Calls
pub mod Derivation
pub mod Guards
pub mod Submitting
pub mod Retries
pub mod Deciding
pub mod DecidedOnce
pub mod Recommending
pub mod Collisions
use grad_sync.Prelude.{
  contains, ℕ, suc, max, Bool, true, false, not, ◌&&◌, ◌||◌, Option, none, some, List, [], ◌∷◌,
  ◌++◌, Text, any, select, find, put, ◌==◌, if◌then◌else◌,
}
use grad_sync.Accounts.{User}
use grad_sync.Projects.Model.{
  ResearchProject, ProjectMembership, is_live, is_active_project, is_held,
}
use grad_sync.Projects.Access.{Capabilities, project_capabilities}
use grad_sync.Projects.Execution.Model.{
  MilestoneStatus, Milestone, MilestoneOwner, DeliverableStatus, Deliverable, DeliverableAssignee,
  DeliverableReviewerDesignation, DeliverableTaskLink, RevisionState, DeliverableRevision,
  DeliverableEvidence, DeliverableReviewRecommendation, FinalDecision, DeliverableFinalDecision,
}
use grad_sync.Submissions.Model.{AssignmentStatus, SubmissionReviewAssignment}
use grad_sync.Transactions.{
  Result, ok, err, Action, pure, check, ◌>>=◌, ◌>>◌, raise_if, modify, or_raise,
}

-- The messages of `ValueError` and of `ValidationError`.
pub data Reason : Type 0 where
  no_active_member stale archived_milestone foreign_milestone : Reason
  ineligible_reviewer reviewer_missing criteria_missing foreign_task : Reason
  progress_range status_invalid blocker_missing milestone_completed : Reason
  one_source url_invalid foreign_evidence evidence_missing not_submittable : Reason
  recommendation_invalid rationale_missing decision_invalid recommendation_missing : Reason
  not_a_reviewer foreign_target : Reason

-- `broken` is Django's error for a query in a transaction in which a statement has failed.
pub data Error : Type 0 where
  permission_denied : Error
  value : Reason → Error
  does_not_exist integrity broken : Error

-- The action of an event, its target, and the state that is stored with it.
pub data EventAction : Type 0 where
  milestone_created milestone_updated milestone_archived : ℕ → MilestoneStatus → ℕ → EventAction
  deliverable_created deliverable_updated : ℕ → DeliverableStatus → ℕ → EventAction
  deliverable_archived : ℕ → DeliverableStatus → ℕ → EventAction
  deliverable_submitted deliverable_recommended : ℕ → RevisionState → EventAction
  deliverable_decided : ℕ → FinalDecision → EventAction
  reviewer_assigned reviewer_removed : ℕ → AssignmentStatus → EventAction

pub record Event : Type 0 where
  pub project : ℕ
  pub actor : ℕ
  pub action : EventAction
  pub privileged : Bool

pub data Subject : Type 0 where
  review_required decision_required final_decision_required : Subject

-- What runs when the transaction is committed: the follow-up notification of a revision
-- (`_create_revision_action`), and the completion of those that are open
-- (`_complete_revision_actions`).
pub data FollowUp : Type 0 where
  create_revision_action : ℕ → ℕ → Subject → FollowUp
  complete_revision_actions : ℕ → FollowUp

-- The tables. `next_id` is above every key in use, `follow_ups` what commits have run.
pub record Database : Type 0 where
  pub users : List User
  pub projects : List ResearchProject
  pub memberships : List ProjectMembership
  pub milestones : List Milestone
  pub owners : List MilestoneOwner
  pub deliverables : List Deliverable
  pub assignees : List DeliverableAssignee
  pub designations : List DeliverableReviewerDesignation
  pub task_links : List DeliverableTaskLink
  pub revisions : List DeliverableRevision
  pub evidence : List DeliverableEvidence
  pub recommendations : List DeliverableReviewRecommendation
  pub decisions : List DeliverableFinalDecision
  pub assignments : List SubmissionReviewAssignment
  pub events : List Event
  pub follow_ups : List FollowUp
  pub next_id : ℕ

-- What of the project an item of evidence or a link may name.
pub data SourceKind : Type 0 where
  material task report : SourceKind

-- The time, the date in the current time zone, and whether a row of another component's table with
-- a key is of a project.
pub record Environment : Type 0 where
  pub now : ℕ
  pub today : ℕ
  pub belongs : SourceKind → ℕ → ℕ → Bool

abbrev pub Step : Type 0 → Type 0
Step A = Action Database Error A

unfoldable pub fresh_id : Step ℕ
fresh_id = do
  key ← check λ db. ok db.next_id
  modify λ db. record db { next_id = suc db.next_id }
  pure key

-- `Model.objects.get(pk=pk)`
abbrev pub get_project : ℕ → Step ResearchProject
get_project pk = check λ db. or_raise Error.does_not_exist (find (λ r. r.id) pk db.projects)

abbrev pub get_milestone : ℕ → Step Milestone
get_milestone pk = check λ db. or_raise Error.does_not_exist (find (λ r. r.id) pk db.milestones)

abbrev pub get_deliverable : ℕ → Step Deliverable
get_deliverable pk = check λ db. or_raise Error.does_not_exist (find (λ r. r.id) pk db.deliverables)

abbrev pub get_revision : ℕ → Step DeliverableRevision
get_revision pk = check λ db. or_raise Error.does_not_exist (find (λ r. r.id) pk db.revisions)

abbrev pub store_milestone : Milestone → Database → Database
store_milestone m db = record db { milestones = put (λ r. r.id) m db.milestones }

abbrev pub store_deliverable : Deliverable → Database → Database
store_deliverable d db = record db { deliverables = put (λ r. r.id) d db.deliverables }

abbrev pub store_revision : DeliverableRevision → Database → Database
store_revision r db = record db { revisions = put (λ r. r.id) r db.revisions }

-- The query of `_active_members`.
abbrev pub members_among : ℕ → List ℕ → List ProjectMembership → List ProjectMembership
members_among project ids rows =
    select (λ m. m.project == project && contains m.user ids && is_live m.status) rows

abbrev pub is_empty {ℓ} : {A : Type ℓ} → List A → Bool
is_empty [] = true
is_empty (x ∷ xs) = false

-- `_active_members`: the memberships of the users, each of whom has to have one.
unfoldable pub active_members : ℕ → List ℕ → Database → Result Error (List ProjectMembership)
active_members project ids db =
    if is_empty ids
      || any (λ i. not (any (λ m. m.user == i) (members_among project ids db.memberships))) ids
    then err (Error.value Reason.no_active_member)
    else ok (members_among project ids db.memberships)

abbrev pub is_writable : ResearchProject → Bool
is_writable project = is_active_project project.status && not (is_held project.governance_state)

-- `_require_writable`
abbrev pub require_writable : ResearchProject → Step (Unit {0})
require_writable project = raise_if (not (is_writable project)) Error.permission_denied

-- `_require_capability`
unfoldable pub require_capability : User → ResearchProject → (Capabilities → Bool) → Step (Unit {0})
require_capability actor project capability = do
  require_writable project
  check λ db.
      if capability (project_capabilities actor project db.memberships)
      then ok tt
      else err Error.permission_denied

abbrev pub add_event : ℕ → User → EventAction → Bool → Database → Database
add_event project actor action privileged db = record db {
  events =
      db.events
      ++ record { project = project; actor = actor.id; action = action; privileged = privileged }
        ∷ [];
}

-- `record_execution_event`
abbrev pub record_execution_event : ℕ → User → EventAction → Bool → Step (Unit {0})
record_execution_event project actor action privileged =
    modify (add_event project actor action privileged)

-- `transaction.on_commit`
abbrev pub on_commit : List FollowUp → Step (Unit {0})
on_commit actions = modify λ db. record db { follow_ups = db.follow_ups ++ actions }

-- The largest of the numbers, `aggregate(Max(...))`.
unfoldable pub max_of {ℓ} : {A : Type ℓ} → (A → ℕ) → List A → Option ℕ
max_of f [] = none
max_of f (r ∷ rows) = elim (max_of f rows) [ none ↦ some (f r) | some n ↦ some (max (f r) n) ]

-- `(aggregate(Max("order")) or -1) + 1`: a maximum of 0 counts as none.
unfoldable pub next_order : Option ℕ → ℕ
next_order none = 0
next_order (some n) = if n == 0 then 0 else suc n

-- ===== src/Projects/Execution/Reviews.antt =====
-- backend/apps/projects/execution_services.py: recommendations and final decisions.
use grad_sync.Prelude.{
  ℕ, suc, Bool, true, false, not, ◌&&◌, Option, none, some, [], ◌∷◌, Text, strip, is_blank, text_eq,
  map, any, put, ◌==◌, if◌then◌else◌,
}
use grad_sync.Accounts.{User}
use grad_sync.Projects.Model.{ProjectMembership, is_live}
use grad_sync.Projects.Access.{first_where}
use grad_sync.Projects.Execution.Model.{
  DeliverableStatus, Deliverable, DeliverableReviewerDesignation, RevisionState,
  DeliverableRevision, Recommendation, DeliverableReviewRecommendation, FinalDecision,
  DeliverableFinalDecision, is_null,
}
use grad_sync.Projects.Execution.{
  Reason, Error, EventAction, Subject, FollowUp, Database, Environment, Step, fresh_id, get_project,
  get_deliverable, get_revision, store_revision, require_capability, record_execution_event,
  on_commit,
}
use grad_sync.Projects.Execution.Reconcile.{reconcile_milestone}
use grad_sync.Projects.Execution.Deliverables.{save_deliverable, may_review}
use grad_sync.Submissions.Model.{ReviewTarget, is_assigned, SubmissionReviewAssignment}
use grad_sync.Transactions.{Result, ok, err, pure, check, atomic, ◌>>=◌, ◌>>◌, raise_if, modify}
use grad_sync.Projects.Execution.Revisions.{open_designation}

abbrev pub is_designated : ℕ → User → DeliverableReviewerDesignation → Bool
is_designated deliverable actor g = open_designation deliverable g && g.reviewer == actor.id

abbrev pub eligible_reviewer : ℕ → User → ProjectMembership → Bool
eligible_reviewer project actor m =
    m.project == project && m.user == actor.id && is_live m.status && may_review m.role

abbrev pub or_invalid : {A : Type 0} → Reason → Option A → Result Error A
or_invalid why none = err (Error.value why)
or_invalid why (some a) = ok a

abbrev pub open_recommendation : ℕ → DeliverableReviewRecommendation → Bool
open_recommendation revision n = n.revision == revision && is_null n.superseded_at

abbrev pub supersede :
    ℕ → ℕ → User → DeliverableReviewRecommendation → DeliverableReviewRecommendation
supersede now revision actor n =
    if open_recommendation revision n && n.reviewer == actor.id
    then record n { superseded_at = some now }
    else n

abbrev pub recommended_state : Recommendation → RevisionState
recommended_state Recommendation.accept = RevisionState.recommended_accept
recommended_state Recommendation.return = RevisionState.recommended_return

-- `revision.review_assignments.filter(reviewer_membership__user=actor, status="active")`
abbrev pub is_assignment : ℕ → User → Database → SubmissionReviewAssignment → Bool
is_assignment revision actor db a =
    is_assigned a.status
    && elim a.target [ ReviewTarget.deliverable_revision r ↦ r == revision | _ ↦ false ]
    && any (λ m. m.id == a.reviewer_membership && m.user == actor.id) db.memberships

abbrev pub key_of : Option SubmissionReviewAssignment → Option ℕ
key_of none = none
key_of (some a) = some a.id

-- The recommendation is `none` for a text that is none.
unfoldable pub recommend_deliverable :
    Environment → User → ℕ → Option Recommendation → Text → Step DeliverableReviewRecommendation
recommend_deliverable env actor pk recommendation rationale = atomic do
  r ← get_revision pk
  project ← get_project r.project
  allowed ← check λ db. ok (
      any (is_designated r.deliverable actor) db.designations
      && any (eligible_reviewer r.project actor) db.memberships)
  raise_if (not allowed) Error.permission_denied
  choice ← check λ _. or_invalid Reason.recommendation_invalid recommendation
  raise_if (is_blank (strip rationale)) (Error.value Reason.rationale_missing)
  modify λ db. record db { recommendations = map (supersede env.now r.id actor) db.recommendations }
  assignment ← check λ db. ok (first_where (is_assignment r.id actor db) db.assignments)
  key ← fresh_id
  let result : DeliverableReviewRecommendation = record {
    id = key;
    project = r.project;
    revision = r.id;
    reviewer = actor.id;
    recommendation = choice;
    rationale = strip rationale;
    review_assignment = key_of assignment;
    superseded_at = none;
  }
  modify λ db. record db { recommendations = put (λ n. n.id) result db.recommendations }
  modify (store_revision (record r { state = recommended_state choice }))
  record_execution_event r.project actor
      (EventAction.deliverable_recommended r.id (recommended_state choice)) false
  on_commit (
      FollowUp.complete_revision_actions r.id
      ∷ FollowUp.create_revision_action project.advisor r.id Subject.final_decision_required
      ∷ [])
  pure result

-- `revision.final_decision`
unfoldable pub decided_before : ℕ → Database → Option DeliverableFinalDecision
decided_before revision db = first_where (λ f. f.revision == revision) db.decisions

abbrev pub is_return : FinalDecision → Bool
is_return FinalDecision.returned = true
is_return FinalDecision.accepted = false

-- The unique constraint on the project and the key.
abbrev pub same_key : ℕ → Text → DeliverableFinalDecision → Bool
same_key project key f = not (is_blank key) && f.project == project && text_eq f.idempotency_key key

abbrev pub decided_state : FinalDecision → RevisionState
decided_state FinalDecision.accepted = RevisionState.accepted
decided_state FinalDecision.returned = RevisionState.returned

abbrev pub decided_deliverable : FinalDecision → ℕ → ℕ → Deliverable → Deliverable
decided_deliverable FinalDecision.accepted now revision d = record d {
  current_status = DeliverableStatus.accepted;
  accepted_revision = some revision;
  accepted_at = some now;
  progress_percent = 100;
  version = suc d.version;
}
decided_deliverable FinalDecision.returned now revision d = record d {
  current_status = DeliverableStatus.changes_requested;
  accepted_revision = none;
  accepted_at = none;
  version = suc d.version;
}

-- What follows when the revision has no decision yet. The key of another decision fails the insert,
-- after which the query for that decision fails as well.
unfoldable pub decide_new :
    Environment
    → User
    → DeliverableRevision
    → Option FinalDecision
    → Text
    → Text
    → Step DeliverableFinalDecision
decide_new env actor r decision rationale key = do
  choice ← check λ _. or_invalid Reason.decision_invalid decision
  raise_if (is_return choice && is_blank (strip rationale)) (Error.value Reason.rationale_missing)
  d ← get_deliverable r.deliverable
  recommended ← check λ db. ok (any (open_recommendation r.id) db.recommendations)
  raise_if (d.reviewer_required && not recommended) (Error.value Reason.recommendation_missing)
  check λ db. if any (same_key r.project key) db.decisions then err Error.broken else ok tt
  pk ← fresh_id
  let result : DeliverableFinalDecision = record {
    id = pk;
    project = r.project;
    revision = r.id;
    decision = choice;
    rationale = strip rationale;
    decided_by = actor.id;
    idempotency_key = key;
  }
  modify λ db. record db { decisions = put (λ f. f.id) result db.decisions }
  modify (store_revision (record r { state = decided_state choice }))
  save_deliverable (decided_deliverable choice env.now r.id d)
  reconcile_milestone env d.milestone
  record_execution_event r.project actor (EventAction.deliverable_decided pk choice) true
  on_commit (FollowUp.complete_revision_actions r.id ∷ [])
  pure result

abbrev pub or_decide :
    Environment
    → User
    → DeliverableRevision
    → Option FinalDecision
    → Text
    → Text
    → Option DeliverableFinalDecision
    → Step DeliverableFinalDecision
or_decide env actor r decision rationale key (some existing) = pure existing
or_decide env actor r decision rationale key none = decide_new env actor r decision rationale key

-- The decision is `none` for a text that is none.
unfoldable pub decide_deliverable :
    Environment → User → ℕ → Option FinalDecision → Text → Text → Step DeliverableFinalDecision
decide_deliverable env actor pk decision rationale key = atomic do
  r ← get_revision pk
  project ← get_project r.project
  require_capability actor project (λ c. c.can_decide_deliverables)
  existing ← check λ db. ok (decided_before r.id db)
  or_decide env actor r decision rationale key existing

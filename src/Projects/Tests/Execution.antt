-- ===== src/Projects/Tests/Execution.antt =====
-- The promises of the execution services, on a small project.
use grad_sync.Prelude.{
  ◌<◌, ◌≡◌, ◌↔◌, refl, true, false, not, ◌&&◌, ◌||◌, none, some, [], ◌∷◌, text, strip, is_blank,
  any, arith, ◌++◌, List, find, ◌==◌, All,
}
use grad_sync.Projects.Access.{project_capabilities}
use grad_sync.Projects.Execution.Model.{
  MilestoneStatus, Milestone, DeliverableStatus, Deliverable, DeliverableRevision,
  DeliverableEvidence, RevisionState, Recommendation, FinalDecision, DeliverableFinalDecision,
  is_accepted, is_archived, is_blocked,
}
use grad_sync.Projects.Execution.{
  Error, Database, require_capability, fresh_id, active_members, max_of, is_empty,
}
use grad_sync.Projects.Execution.Reconcile.{
  reconcile_milestone, open_status, reconciled, required_of,
}
use grad_sync.Projects.Execution.Milestones.{create_milestone, orders_of}
use grad_sync.Projects.Execution.Deliverables.{save_deliverable}
use grad_sync.Projects.Execution.Evidence.{
  prepare_evidence, validate_evidence, one_source, supplied, check_source,
}
use grad_sync.Projects.Execution.Revisions.{
  submit_deliverable, submit_new, submitted_before, assign_designated,
}
use grad_sync.Projects.Execution.Reviews.{
  recommend_deliverable, decide_deliverable, decide_new, decided_before, open_recommendation,
  is_return,
}
use grad_sync.Projects.Execution.Plan.{plan_of, Change, Act, AreStamped, AreFit, AreEarned}
use grad_sync.Projects.Execution.Calls.{
  Call, after, after_all, after-Change, after_all-AreStamped, after-AreEarned,
}
use grad_sync.Projects.Execution.Derivation.{
  IsDone, reconcile_milestone_iff, reconcile_milestone_idem,
}
use grad_sync.Projects.Execution.Guards.{after-read_only}
use grad_sync.Projects.Execution.Submitting.{submit_deliverable_ok, AreKept}
use grad_sync.Projects.Execution.Retries.{
  submit_deliverable-retry, submit_deliverable-retry_decided,
}
use grad_sync.Projects.Execution.Deciding.{decide_deliverable_ok, HasEffect}
use grad_sync.Projects.Execution.DecidedOnce.{
  IsDecidedOnce, Stays, decide_deliverable-IsDecidedOnce,
}
use grad_sync.Projects.Execution.Recommending.{is_open_by, recommend_deliverable_ok}
use grad_sync.Projects.Execution.Collisions.{create_milestone-second}
use grad_sync.Transactions.{ok, err, statements}
use grad_sync.Projects.Tests.{lead, thesis, held_thesis, lead_membership}
use grad_sync.Projects.Tests.Executing.{
  day, draft, chapter, board, first_draft, first_revision, review_board, verdict, advice,
  decided_board, held_board, second,
}

after-Change_example :
    Change
      (day 3)
      (Act.works (some 31))
      false
      (plan_of board)
      (plan_of (after (day 3) (Call.submits lead 31 first_draft) board))
after-Change_example = after-Change (day 3) (Call.submits lead 31 first_draft) board

after_all-AreStamped_example :
    let db' =
      after_all
        ((day 3, Call.submits lead 31 first_draft)
          ∷ (day 4, Call.decides lead 50 (some FinalDecision.accepted) [] [])
          ∷ [])
        board in
    AreStamped (plan_of db') × AreFit (plan_of db')
after_all-AreStamped_example =
    after_all-AreStamped
      ((day 3, Call.submits lead 31 first_draft)
        ∷ (day 4, Call.decides lead 50 (some FinalDecision.accepted) [] [])
        ∷ [])
      board ((refl, refl), tt) ((omega arith, refl), tt)

after-AreEarned_example : AreEarned (
    plan_of (after (day 4) (Call.decides lead 50 (some FinalDecision.accepted) [] []) review_board))
after-AreEarned_example =
    after-AreEarned (day 4) (Call.decides lead 50 (some FinalDecision.accepted) [] []) review_board
      refl ((λ e. cc), tt)

reconciled_draft : Database
unfolding statements reconcile_milestone open_status reconciled
reconciled_draft = (reconcile_milestone (day 45) 30 board).1

late_draft : reconcile_milestone (day 45) 30 board ≡ (
  ok (record draft { current_status = MilestoneStatus.overdue; version = 2 }),
  reconciled_draft,
)
unfolding statements reconcile_milestone open_status reconciled reconciled_draft
late_draft = refl

reconcile_milestone_iff_example :
    let late : Milestone = record draft { current_status = MilestoneStatus.overdue; version = 2 } in
    (find (λ r. r.id) 30 reconciled_draft.milestones ≡ some late)
    × (late.current_status ≡ MilestoneStatus.completed ↔ IsDone 30 board.deliverables)
    × (late.current_status ≡ MilestoneStatus.overdue → 40 < 45)
    × (late.current_status ≡ MilestoneStatus.blocked
        → any (λ d. is_blocked d.current_status) (required_of 30 board.deliverables) ≡ true)
reconcile_milestone_iff_example =
    reconcile_milestone_iff (day 45) 30 board reconciled_draft draft
      (record draft { current_status = MilestoneStatus.overdue; version = 2 }) refl refl late_draft

reconcile_milestone_idem_example :
    reconcile_milestone (record (day 45) { now = 2_000 }) 30 reconciled_draft ≡ (
      ok (record draft { current_status = MilestoneStatus.overdue; version = 2 }),
      reconciled_draft,
    )
reconcile_milestone_idem_example =
    reconcile_milestone_idem (day 45) (record (day 45) { now = 2_000 }) 30 board reconciled_draft
      (record draft { current_status = MilestoneStatus.overdue; version = 2 }) refl late_draft

after-read_only_example : after (day 3) (Call.submits lead 31 first_draft) held_board ≡ held_board
after-read_only_example =
    after-read_only (day 3) (Call.submits lead 31 first_draft) held_board held_thesis refl refl

submitted_board : Database
unfolding statements submit_deliverable submit_new submitted_before fresh_id prepare_evidence
    validate_evidence one_source supplied check_source assign_designated save_deliverable
    reconcile_milestone open_status reconciled max_of project_capabilities
submitted_board = (submit_deliverable (day 3) lead 31 first_draft board).1

submission :
    submit_deliverable (day 3) lead 31 first_draft board ≡ (ok first_revision, submitted_board)
unfolding statements submit_deliverable submit_new submitted_before fresh_id prepare_evidence
    validate_evidence one_source supplied check_source assign_designated save_deliverable
    reconcile_milestone open_status reconciled max_of project_capabilities submitted_board strip
submission = refl

unused_key : submitted_before 31 (text "k") board ≡ none
unfolding submitted_before
unused_key = refl

stored_submission : find (λ x. x.id) 50 submitted_board.revisions ≡ some first_revision
unfolding statements submit_deliverable submit_new submitted_before fresh_id prepare_evidence
    validate_evidence one_source supplied check_source assign_designated save_deliverable
    reconcile_milestone open_status reconciled max_of project_capabilities submitted_board strip
stored_submission = refl

submit_deliverable_ok_example :
    ((is_accepted chapter.current_status || is_archived chapter.current_status) ≡ false)
    × (is_empty first_draft.evidence ≡ false)
    × (find (λ x. x.id) 50 submitted_board.revisions ≡ some first_revision)
    × (first_revision.criteria_snapshot ≡ text "c")
    × All (λ x. (x.deliverable == 31) ≡ true → x.revision_number < 1) board.revisions
    × ((rows : List DeliverableEvidence) × (submitted_board.evidence ≡ board.evidence ++ rows)
        × AreKept 5 50 1 first_draft.evidence rows)
    × (find (λ x. x.id) 31 submitted_board.deliverables
        ≡ some (record chapter {
          current_revision = some 50;
          current_status = DeliverableStatus.submitted;
          version = 2;
        }))
submit_deliverable_ok_example =
    submit_deliverable_ok (day 3) lead 31 first_draft board submitted_board chapter first_revision
      submission refl unused_key

submit_deliverable-retry_example :
    submit_deliverable (day 9) lead 31 first_draft submitted_board
    ≡ (ok first_revision, submitted_board)
submit_deliverable-retry_example =
    submit_deliverable-retry (day 3) (day 9) lead lead 31 first_draft first_draft board
      submitted_board first_revision submission refl refl

accepted_board : Database
unfolding statements decide_deliverable decide_new decided_before fresh_id require_capability
    save_deliverable reconcile_milestone open_status reconciled project_capabilities strip
accepted_board =
    (decide_deliverable (day 4) lead 50 (some FinalDecision.accepted) [] [] review_board).1

acceptance :
    decide_deliverable (day 4) lead 50 (some FinalDecision.accepted) [] [] review_board
    ≡ (ok verdict, accepted_board)
unfolding statements decide_deliverable decide_new decided_before fresh_id require_capability
    save_deliverable reconcile_milestone open_status reconciled project_capabilities strip
    accepted_board
acceptance = refl

undecided : decided_before 50 review_board ≡ none
unfolding decided_before
undecided = refl

decide_deliverable_ok_example :
    let before : Deliverable = record chapter {
      current_status = DeliverableStatus.submitted;
      current_revision = some 50;
      version = 2;
    } in
    ((is_return FinalDecision.accepted && is_blank (strip [])) ≡ false)
    × ((before.reviewer_required && not (any (open_recommendation 50) review_board.recommendations))
        ≡ false)
    × (decided_before 50 accepted_board ≡ some verdict)
    × ((r' : DeliverableRevision) × (d' : Deliverable) × (find
            (λ x. x.id)
            50
            accepted_board.revisions
          ≡ some r')
        × (find (λ x. x.id) 31 accepted_board.deliverables ≡ some d')
        × HasEffect FinalDecision.accepted 1_004 first_revision before r' d')
decide_deliverable_ok_example =
    decide_deliverable_ok (day 4) lead 50 (some FinalDecision.accepted) [] [] review_board
      accepted_board first_revision
      (record chapter {
        current_status = DeliverableStatus.submitted;
        current_revision = some 50;
        version = 2;
      })
      verdict acceptance refl refl undecided

judged_board : Database
unfolding statements decide_deliverable decide_new decided_before fresh_id require_capability
    save_deliverable reconcile_milestone open_status reconciled project_capabilities strip
judged_board =
    (decide_deliverable (day 4) lead 50 (some FinalDecision.accepted) [] [] submitted_board).1

judged_verdict : DeliverableFinalDecision
judged_verdict = record verdict { id = submitted_board.next_id }

judgement :
    decide_deliverable (day 4) lead 50 (some FinalDecision.accepted) [] [] submitted_board
    ≡ (ok judged_verdict, judged_board)
unfolding statements decide_deliverable decide_new decided_before fresh_id require_capability
    save_deliverable reconcile_milestone open_status reconciled project_capabilities strip
    judged_board judged_verdict submitted_board submit_deliverable submit_new submitted_before
    prepare_evidence validate_evidence one_source supplied check_source assign_designated max_of
judgement = refl

submit_deliverable-retry_decided_example :
    (r' : DeliverableRevision) × (find (λ x. x.id) 50 judged_board.revisions ≡ some r')
    × (submit_deliverable (day 9) lead 31 first_draft judged_board ≡ (ok r', judged_board))
submit_deliverable-retry_decided_example =
    submit_deliverable-retry_decided (day 3) (day 4) (day 9) lead lead lead 31 first_draft
      first_draft (some FinalDecision.accepted) [] [] board submitted_board judged_board
      first_revision judged_verdict submission refl refl stored_submission judgement

may_plan : (project_capabilities lead thesis board.memberships).can_manage_milestones ≡ true
unfolding project_capabilities
may_plan = refl

review_board-IsDecidedOnce : IsDecidedOnce review_board
review_board-IsDecidedOnce = (λ k. omega arith, tt)

decide_deliverable-IsDecidedOnce_example :
    let db' =
      (decide_deliverable (day 4) lead 50 (some FinalDecision.accepted) [] [] review_board).1 in
    IsDecidedOnce db' × Stays review_board db'
decide_deliverable-IsDecidedOnce_example =
    decide_deliverable-IsDecidedOnce (day 4) lead 50 (some FinalDecision.accepted) [] []
      review_board review_board-IsDecidedOnce

-- After the decision, a recommendation still changes the state of the revision.
advised_board : Database
unfolding statements recommend_deliverable fresh_id strip
advised_board =
    (recommend_deliverable (day 9) lead 50 (some Recommendation.return) (text "r") decided_board).1

late_advice :
    recommend_deliverable (day 9) lead 50 (some Recommendation.return) (text "r") decided_board
    ≡ (ok advice, advised_board)
unfolding statements recommend_deliverable fresh_id strip advised_board
late_advice = refl

recommend_deliverable_ok_example :
    (is_blank (strip (text "r")) ≡ false)
    × (advice.recommendation ≡ Recommendation.return)
    × (find (λ x. x.id) 50 advised_board.revisions
        ≡ some (record first_revision { state = RevisionState.recommended_return }))
    × (find (λ x. x.id) 60 advised_board.recommendations ≡ some advice)
    × (is_open_by 50 1 advice ≡ true)
    × All (λ x. is_open_by 50 1 x ≡ true → x ≡ advice) advised_board.recommendations
    × (advised_board.deliverables ≡ decided_board.deliverables)
    × (advised_board.decisions ≡ decided_board.decisions)
recommend_deliverable_ok_example =
    recommend_deliverable_ok (day 9) lead 50 Recommendation.return (text "r") decided_board
      advised_board (record first_revision { state = RevisionState.accepted }) advice late_advice
      refl

one_owner : active_members 5 (1 ∷ []) board ≡ ok (lead_membership ∷ [])
unfolding active_members
one_owner = refl

first_order : orders_of 5 board.milestones ≡ some 0
unfolding max_of
first_order = refl

create_milestone-second_example :
    create_milestone (day 3) lead thesis second board ≡ (err Error.integrity, board)
create_milestone-second_example =
    create_milestone-second (day 3) lead thesis second (lead_membership ∷ []) board refl may_plan
      one_owner (omega arith, tt) first_order

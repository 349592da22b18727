-- ===== src/Projects/Execution/Deciding.antt =====
-- What final decisions promise.
use grad_sync.Prelude.{
  none-some, ℕ, suc, ◌≡◌, refl, ap, sym, subst, ◌∙◌, true, false, not, ◌&&◌, Option, none, some,
  List, Text, strip, is_blank, any, find, put, find_pk, find-put_self, some_eq, ◌==◌, ==_iff,
}
use grad_sync.Accounts.{User}
use grad_sync.Projects.Execution.Model.{
  DeliverableStatus, RevisionState, Deliverable, DeliverableRevision, FinalDecision,
  DeliverableFinalDecision,
}
use grad_sync.Projects.Execution.{Database, Environment}
use grad_sync.Projects.Execution.Reviews.{
  decided_before, is_return, open_recommendation, decided_state, decided_deliverable, or_decide,
  decide_deliverable,
}
use grad_sync.Projects.Execution.Runs.{require_capability_ok}
use grad_sync.Projects.Execution.ReviewChanges.{DecisionRun, decide_new_run}
use grad_sync.Transactions.{ok}
use grad_sync.Transactions.Runs.{check_ok, atomic_ok, or_raise_ok, ok_eq}

or_decide_run :
    (env : Environment) (actor : User) (r : DeliverableRevision) (decision : Option FinalDecision)
    (rationale key : Text) (db db' : Database) (f : DeliverableFinalDecision)
    (existing : Option DeliverableFinalDecision)
    → existing ≡ none
    → or_decide env actor r decision rationale key existing db ≡ (ok f, db')
    → DecisionRun env actor r rationale key db db' f
or_decide_run env actor r decision rationale key db db' f (some old) free h =
    absurd (none-some (sym free))
or_decide_run env actor r decision rationale key db db' f none free h =
    decide_new_run env actor r decision rationale key db db' f h

decided_first :
    (revision : ℕ) (db : Database) (f : DeliverableFinalDecision)
    (rows : List DeliverableFinalDecision)
    → db.decisions ≡ put (λ x. x.id) f rows
    → f.revision ≡ revision
    → decided_before revision db ≡ some f
unfolding decided_before
decided_first revision db f rows stored names =
    let at : (f.revision == revision) ≡ true = (==_iff f.revision revision).1 names in
    rw (stored, at)

-- The deliverable, once its revision is accepted at a time.
abbrev pub IsAcceptedAs : ℕ → ℕ → Deliverable → Deliverable → Type 0
IsAcceptedAs now revision d d' = d' ≡ record d {
  current_status = DeliverableStatus.accepted;
  accepted_revision = some revision;
  accepted_at = some now;
  progress_percent = 100;
  version = suc d.version;
}

-- The deliverable, once changes are requested.
abbrev pub IsReturned : Deliverable → Deliverable → Type 0
IsReturned d d' = d' ≡ record d {
  current_status = DeliverableStatus.changes_requested;
  accepted_revision = none;
  accepted_at = none;
  version = suc d.version;
}

-- What a decision makes of the revision and of the deliverable.
abbrev pub HasEffect :
    FinalDecision
    → ℕ
    → DeliverableRevision
    → Deliverable
    → DeliverableRevision
    → Deliverable
    → Type 0
HasEffect FinalDecision.accepted now r d r' d' =
    (r' ≡ record r { state = RevisionState.accepted }) × IsAcceptedAs now r.id d d'
HasEffect FinalDecision.returned now r d r' d' =
    (r' ≡ record r { state = RevisionState.returned }) × IsReturned d d'

decided_effect :
    (c : FinalDecision) (now : ℕ) (r : DeliverableRevision) (d : Deliverable)
    → HasEffect c now r d (record r { state = decided_state c }) (decided_deliverable c now r.id d)
decided_effect FinalDecision.accepted now r d = (refl, refl)
decided_effect FinalDecision.returned now r d = (refl, refl)

-- What the first decision on a revision has done: a return was given a reason, a deliverable that
-- requires a reviewer had an open recommendation, and the decision is kept. On acceptance the revision
-- has the state accepted, and its deliverable is accepted with that revision, the time of the decision
-- and full progress. On a return the revision has the state returned, and its deliverable is one with
-- changes requested, without an accepted revision and a time of acceptance. The version of the
-- deliverable is raised by one, and nothing else of the two rows is changed.
pub decide_deliverable_ok :
    (env : Environment) (actor : User) (pk : ℕ) (decision : Option FinalDecision)
    (rationale key : Text) (db db' : Database) (r : DeliverableRevision) (d : Deliverable)
    (f : DeliverableFinalDecision)
    → decide_deliverable env actor pk decision rationale key db ≡ (ok f, db')
    → find (λ x. x.id) pk db.revisions ≡ some r
    → find (λ x. x.id) r.deliverable db.deliverables ≡ some d
    → decided_before r.id db ≡ none
    → ((is_return f.decision && is_blank (strip rationale)) ≡ false)
      × ((d.reviewer_required && not (any (open_recommendation r.id) db.recommendations)) ≡ false)
      × (decided_before r.id db' ≡ some f)
      × ((r' : DeliverableRevision) × (d' : Deliverable) × (find (λ x. x.id) pk db'.revisions
            ≡ some r')
          × (find (λ x. x.id) r.deliverable db'.deliverables ≡ some d')
          × HasEffect f.decision env.now r d r' d')
unfolding decide_deliverable
decide_deliverable_ok env actor pk decision rationale key db db' r d f h found placed free =
    check_ok _ _ _ (atomic_ok _ h) λ r0 found0 h1. check_ok _ _ _ h1 λ project of h2.
      require_capability_ok _ _ _ _ _ h2 λ w c h3. check_ok _ _ _ h3 λ existing known h4.
        let same : r0 ≡ r = some_eq (sym (or_raise_ok _ _ found0) ∙ found) in
        let none_yet : existing ≡ none =
          sym (ok_eq known)
          ∙ ap (λ (x : DeliverableRevision). decided_before x.id db) same
          ∙ free in
        finish (
          or_decide_run env actor r decision rationale key db db' f existing none_yet (
            subst (λ x. or_decide env actor x decision rationale key existing db ≡ (ok f, db')) same
              h4))
  where
    decided_key :
        (c : FinalDecision) (now k : ℕ) (x : Deliverable)
        → (decided_deliverable c now k x).id ≡ x.id
    decided_key FinalDecision.accepted now k x = refl
    decided_key FinalDecision.returned now k x = refl

    finish :
        DecisionRun env actor r rationale key db db' f
        → ((is_return f.decision && is_blank (strip rationale)) ≡ false)
          × ((d.reviewer_required && not (any (open_recommendation r.id) db.recommendations))
              ≡ false)
          × (decided_before r.id db' ≡ some f)
          × ((r' : DeliverableRevision) × (d' : Deliverable) × (find (λ x. x.id) pk db'.revisions
                ≡ some r')
              × (find (λ x. x.id) r.deliverable db'.deliverables ≡ some d')
              × HasEffect f.decision env.now r d r' d')
    finish run =
        let same : run.old ≡ d = some_eq (sym run.found ∙ placed) in
        let new : Deliverable = decided_deliverable f.decision env.now r.id d in
        let key : new.id ≡ r.deliverable =
          decided_key f.decision env.now r.id d
          ∙ find_pk (λ x. x.id) r.deliverable db.deliverables placed in
        let rows : db'.deliverables ≡ put (λ x. x.id) new db.deliverables =
          run.deliverables
          ∙ ap
              (λ x. put (λ y. y.id) (decided_deliverable f.decision env.now r.id x) db.deliverables)
              same in
        (
          run.reasoned,
          subst
              (λ (x : Deliverable).
                (x.reviewer_required && not (any (open_recommendation r.id) db.recommendations))
                ≡ false)
              same run.recommended,
          decided_first r.id db' f db.decisions run.decisions run.names,
          (
            record r { state = decided_state f.decision },
            new,
            subst
                (λ k.
                  find (λ x. x.id) k db'.revisions
                  ≡ some (record r { state = decided_state f.decision }))
                (find_pk (λ x. x.id) pk db.revisions found)
                (rw run.revisions (
                  find-put_self (λ x. x.id) (record r { state = decided_state f.decision })
                    db.revisions)),
            subst (λ k. find (λ x. x.id) k db'.deliverables ≡ some new) key
                (rw rows (find-put_self (λ x. x.id) new db.deliverables)),
            decided_effect f.decision env.now r d,
          ),
        )

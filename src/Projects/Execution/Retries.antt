-- ===== src/Projects/Execution/Retries.antt =====
-- Submitting or deciding once more: the first result stands.
use grad_sync.Prelude.{
  unnegated, refl, sym, some_eq, and_both, ◌&&◌, [], ◌∷◌, All, ℕ, ◌≡◌, ap, subst, ◌∙◌, true, false,
  not, Option, none, some, List, Text, is_blank, text_eq, text_eq_refl, find, put, find_pk,
  find-put_self, ◌==◌, ==_iff,
}
use grad_sync.Accounts.{User}
use grad_sync.Projects.Model.{ResearchProject}
use grad_sync.Projects.Access.{All-first}
use grad_sync.Projects.Execution.Model.{
  Deliverable, DeliverableRevision, FinalDecision, DeliverableFinalDecision,
}
use grad_sync.Projects.Execution.Runs.{require_capability_ok}
use grad_sync.Projects.Execution.Reviews.{
  decided_state, decided_deliverable, or_decide, decide_deliverable,
}
use grad_sync.Projects.Execution.ReviewChanges.{DecisionRun, decide_new_run}
use grad_sync.Projects.Execution.{Database, Environment, is_writable}
use grad_sync.Projects.Execution.Revisions.{
  submitted_before, NewRevision, submitted, or_submit, submit_deliverable,
}
use grad_sync.Projects.Execution.SubmissionChanges.{submit_new_run}
use grad_sync.Transactions.{ok, pure}
use grad_sync.Transactions.Runs.{check_ok, raise_if_ok, returns, atomic_ok, or_raise_ok, ok_eq}
use grad_sync.Transactions.Results.{check-finds, raise_if-passes, atomic-runs, or_raise-finds}

-- What a second submission with the key finds.
record Submitted (key : Text) (pk : ℕ) (db : Database) (r : DeliverableRevision) : Type 0 where
  d : Deliverable
  found : find (λ x. x.id) pk db.deliverables ≡ some d
  project : ResearchProject
  known : find (λ x. x.id) d.project db.projects ≡ some project
  writable : is_writable project ≡ true
  before : submitted_before d.id key db ≡ some r

stored_before :
    (deliverable : ℕ) (key : Text) (db : Database) (r : DeliverableRevision)
    (rows : List DeliverableRevision)
    → db.revisions ≡ put (λ x. x.id) r rows
    → r.deliverable ≡ deliverable
    → r.idempotency_key ≡ key
    → is_blank key ≡ false
    → submitted_before deliverable key db ≡ some r
unfolding submitted_before
stored_before deliverable key db r rows stored owner used given =
    let same : text_eq r.idempotency_key key ≡ true = rw used (text_eq_refl key) in
    let at : (r.deliverable == deliverable) ≡ true = (==_iff r.deliverable deliverable).1 owner in
    rw (given, stored, at, same)

submit_deliverable_found :
    (env : Environment) (actor : User) (pk : ℕ) (new : NewRevision) (db db' : Database)
    (r : DeliverableRevision)
    → submit_deliverable env actor pk new db ≡ (ok r, db')
    → is_blank new.idempotency_key ≡ false
    → Submitted new.idempotency_key pk db' r
unfolding submit_deliverable
submit_deliverable_found env actor pk new db db' r h given =
    check_ok _ _ _ (atomic_ok _ h) λ d found h1. check_ok _ _ _ h1 λ project of h2.
      raise_if_ok _ _ _ _ h2 λ open_project h3. check_ok _ _ _ h3 λ existing known h4.
        go d (or_raise_ok _ _ found) project (or_raise_ok _ _ of)
          (unnegated (is_writable project) open_project) existing (ok_eq known) h4
  where
    go :
        (d : Deliverable)
        → find (λ x. x.id) pk db.deliverables ≡ some d
        → (project : ResearchProject) → find (λ x. x.id) d.project db.projects ≡ some project
        → is_writable project ≡ true
        → (existing : Option DeliverableRevision)
        → submitted_before d.id new.idempotency_key db ≡ existing
        → or_submit env actor d project new existing db ≡ (ok r, db')
        → Submitted new.idempotency_key pk db' r
    go d found project of w (some old) known e =
        returns (λ b x. Submitted new.idempotency_key pk x b) _ e
          (record {
            d = d;
            found = found;
            project = project;
            known = of;
            writable = w;
            before = known;
          })
    go d found project of w none known e =
        let run = submit_new_run env actor d project new db db' r e in
        record {
          d = submitted r.id d;
          found =
              subst (λ k. find (λ x. x.id) k db'.deliverables ≡ some (submitted r.id d))
                (find_pk (λ x. x.id) pk db.deliverables found)
                (rw run.deliverables
                  (find-put_self (λ x. x.id) (submitted r.id d) db.deliverables));
          project = project;
          known = rw run.projects of;
          writable = w;
          before =
              stored_before d.id new.idempotency_key db' r db.revisions run.revisions run.owner
                run.key given;
        }

-- What a submission with the key does then.
resubmitted :
    (later : Environment) (other : User) (pk : ℕ) (again : NewRevision) (key : Text) (db : Database)
    (r : DeliverableRevision)
    → again.idempotency_key ≡ key
    → Submitted key pk db r
    → submit_deliverable later other pk again db ≡ (ok r, db)
unfolding submit_deliverable pure
resubmitted later other pk again key db r same s =
    let before : submitted_before s.d.id again.idempotency_key db ≡ some r = rw same s.before in
    atomic-runs db _ (
      check-finds db _ _ (or_raise-finds _ s.found)
      ∙ check-finds db _ _ (or_raise-finds _ s.known)
      ∙ raise_if-passes db _ _ _ (ap not s.writable)
      ∙ check-finds db _ _ (ap ok before))

-- Submitting again, directly after a submission that was accepted and with its key, returns its
-- revision and changes nothing, whoever submits and whatever the rest of the arguments.
pub submit_deliverable-retry :
    (env later : Environment) (actor other : User) (pk : ℕ) (new again : NewRevision)
    (db db' : Database) (r : DeliverableRevision)
    → submit_deliverable env actor pk new db ≡ (ok r, db')
    → is_blank new.idempotency_key ≡ false
    → again.idempotency_key ≡ new.idempotency_key
    → submit_deliverable later other pk again db' ≡ (ok r, db')
submit_deliverable-retry env later actor other pk new again db db' r h given same =
    resubmitted later other pk again new.idempotency_key db' r same
      (submit_deliverable_found env actor pk new db db' r h given)

-- The tests that the row of a submission with the key passes.
before-passes :
    (deliverable : ℕ) (key : Text) (db : Database) (r : DeliverableRevision)
    → is_blank key ≡ false
    → submitted_before deliverable key db ≡ some r
    → (r.deliverable == deliverable && text_eq r.idempotency_key key) ≡ true
unfolding submitted_before
before-passes deliverable key db r given before =
    (All-first (λ x. Unit {0}) (λ x. x.deliverable == deliverable && text_eq x.idempotency_key key)
      db.revisions (everything db.revisions) (rw given at before)).1
  where
    everything : (rows : List DeliverableRevision) → All (λ x. Unit {0}) rows
    everything [] = tt
    everything (x ∷ rows) = (tt, everything rows)

stored_again :
    (deliverable : ℕ) (key : Text) (db : Database) (r : DeliverableRevision)
    (rows : List DeliverableRevision)
    → db.revisions ≡ put (λ x. x.id) r rows
    → is_blank key ≡ false
    → (r.deliverable == deliverable && text_eq r.idempotency_key key) ≡ true
    → submitted_before deliverable key db ≡ some r
unfolding submitted_before
stored_again deliverable key db r rows stored given passes = rw (given, stored, passes) refl

decided_same :
    (c : FinalDecision) (now k : ℕ) (d : Deliverable)
    → ((decided_deliverable c now k d).id ≡ d.id)
      × ((decided_deliverable c now k d).project ≡ d.project)
decided_same FinalDecision.accepted now k d = (refl, refl)
decided_same FinalDecision.returned now k d = (refl, refl)

-- A decision leaves a submission to be found.
decided-Submitted :
    (env : Environment) (judge : User) (pk : ℕ) (key rationale used : Text) (db db' : Database)
    (r : DeliverableRevision) (f : DeliverableFinalDecision)
    → is_blank key ≡ false
    → Submitted key pk db r
    → DecisionRun env judge r rationale used db db' f
    → Submitted key pk db' (record r { state = decided_state f.decision })
decided-Submitted env judge pk key rationale used db db' r f given s run =
    let passes = before-passes s.d.id key db r given s.before in
    let owner : r.deliverable ≡ s.d.id =
      (==_iff r.deliverable s.d.id).0 (and_both (r.deliverable == s.d.id) _ passes).0 in
    let at : s.d.id ≡ pk = find_pk (λ x. x.id) pk db.deliverables s.found in
    let old : run.old ≡ s.d =
      some_eq
        (sym run.found ∙ ap (λ k. find (λ x. x.id) k db.deliverables) (owner ∙ at) ∙ s.found) in
    let new : Deliverable = decided_deliverable f.decision env.now r.id s.d in
    let (same_id, same_project) = decided_same f.decision env.now r.id s.d in
    let rows : db'.deliverables ≡ put (λ x. x.id) new db.deliverables =
      run.deliverables
      ∙ ap (λ x. put (λ y. y.id) (decided_deliverable f.decision env.now r.id x) db.deliverables)
          old in
    record {
      d = new;
      found =
          subst (λ k. find (λ x. x.id) k db'.deliverables ≡ some new) (same_id ∙ at)
            (rw rows (find-put_self (λ x. x.id) new db.deliverables));
      project = s.project;
      known =
          ap (λ k. find (λ x. x.id) k db'.projects) same_project
          ∙ ap (λ l. find (λ x. x.id) s.d.project l) run.projects
          ∙ s.known;
      writable = s.writable;
      before =
          subst
            (λ k. submitted_before k key db' ≡ some (record r { state = decided_state f.decision }))
            (sym same_id)
            (stored_again s.d.id key db' (record r { state = decided_state f.decision })
              db.revisions run.revisions given passes);
    }

-- A submission that was accepted, whose revision `r` is stored, is also found when the revision has
-- been decided since: after a decision on it that succeeds, by anyone, submitting again with the
-- key returns the revision, in the state that it has now, and changes nothing, though the
-- deliverable may have been accepted.
pub submit_deliverable-retry_decided :
    (env later last : Environment) (actor judge other : User) (pk : ℕ) (new again : NewRevision)
    (decision : Option FinalDecision) (rationale used : Text) (db db' db'' : Database)
    (r : DeliverableRevision) (f : DeliverableFinalDecision)
    → submit_deliverable env actor pk new db ≡ (ok r, db')
    → is_blank new.idempotency_key ≡ false
    → again.idempotency_key ≡ new.idempotency_key
    → find (λ x. x.id) r.id db'.revisions ≡ some r
    → decide_deliverable later judge r.id decision rationale used db' ≡ (ok f, db'')
    → (r' : DeliverableRevision) × (find (λ x. x.id) r.id db''.revisions ≡ some r')
      × (submit_deliverable last other pk again db'' ≡ (ok r', db''))
unfolding decide_deliverable
submit_deliverable-retry_decided env later last actor judge other pk new again decision rationale
      used db db' db'' r f h given same stored decides =
    check_ok _ _ _ (atomic_ok _ decides) λ r0 found h1. check_ok _ _ _ h1 λ project of h2.
      require_capability_ok _ _ _ _ _ h2 λ w c h3. check_ok _ _ _ h3 λ existing known h4.
        go existing (
          subst (λ x. or_decide later judge x decision rationale used existing db' ≡ (ok f, db''))
            (some_eq (sym (or_raise_ok _ _ found) ∙ stored)) h4)
  where
    s : Submitted new.idempotency_key pk db' r
    s = submit_deliverable_found env actor pk new db db' r h given

    Found : Database → Type 0
    Found d =
        (r' : DeliverableRevision) × (find (λ x. x.id) r.id d.revisions ≡ some r')
        × (submit_deliverable last other pk again d ≡ (ok r', d))

    go :
        (existing : Option DeliverableFinalDecision)
        → or_decide later judge r decision rationale used existing db' ≡ (ok f, db'')
        → Found db''
    go (some old) e =
        returns (λ b d. Found d) _ e
          (r, stored, resubmitted last other pk again new.idempotency_key db' r same s)
    go none e =
        let run = decide_new_run later judge r decision rationale used db' db'' f e in
        let r' : DeliverableRevision = record r { state = decided_state f.decision } in
        (
          r',
          rw run.revisions (find-put_self (λ x. x.id) r' db'.revisions),
          resubmitted last other pk again new.idempotency_key db'' r' same (
              decided-Submitted later judge pk new.idempotency_key rationale used db' db'' r f given
                s run),
        )

-- ===== src/Projects/Execution/ReviewChanges.antt =====
-- Recommendations and final decisions refine steps of the abstract plan.
use grad_sync.Prelude.{
  suc, ap, sym, ◌∙◌, find_pk, ℕ, ◌≡◌, refl, subst, Bool, false, not, ◌&&◌, Option, none, some, Text,
  strip, is_blank, any, arith, find, put,
}
use grad_sync.Accounts.{User}
use grad_sync.Projects.Execution.Model.{
  Milestone, Deliverable, DeliverableRevision, Recommendation, FinalDecision,
  DeliverableFinalDecision,
}
use grad_sync.Projects.Execution.{Database, Environment}
use grad_sync.Projects.Execution.Reviews.{
  open_recommendation, is_return, decided_state, recommend_deliverable, decided_deliverable,
  decide_new, or_decide, decide_deliverable,
}
use grad_sync.Projects.Execution.Runs.{
  fresh_id_ok, reconcile_ok, save_deliverable_ok, require_capability_ok,
}
use grad_sync.Projects.Execution.Plan.{plan_of, Change, Act, IsFit, IsWorkOf}
use grad_sync.Projects.Execution.Changes.{atomic-Change, found_itself}
use grad_sync.Projects.Execution.Reconcile.{derived_status, reconciled}
use grad_sync.Transactions.{ok}
use grad_sync.Transactions.Runs.{check_ok, raise_if_ok, modify_ok, returns, atomic_ok, or_raise_ok}

pub recommend_deliverable-Change :
    (env : Environment) (debt : Bool) (actor : User) (pk : ℕ)
    (recommendation : Option Recommendation) (rationale : Text) (db : Database)
    → Change env Act.reads debt
        (plan_of db)
        (plan_of (recommend_deliverable env actor pk recommendation rationale db).1)
unfolding recommend_deliverable
recommend_deliverable-Change env debt actor pk recommendation rationale db =
    atomic-Change env Act.reads debt _ db λ r db' h. check_ok _ _ _ (atomic_ok _ h) λ x found h1.
      check_ok _ _ _ h1 λ project of h2. check_ok _ _ _ h2 λ allowed may h3.
        raise_if_ok _ _ _ _ h3 λ designated h4. check_ok _ _ _ h4 λ choice chosen h5.
          raise_if_ok _ _ _ _ h5 λ told h6. modify_ok _ _ _ h6 λ h7.
            check_ok _ _ _ h7 λ a assigned h8. fresh_id_ok _ _ h8 λ h9. modify_ok _ _ _ h9 λ h10.
              modify_ok _ _ _ h10 λ h11. modify_ok _ _ _ h11 λ h12. modify_ok _ _ _ h12 λ h13.
                returns (λ b x. Change env Act.reads debt (plan_of db) (plan_of x)) _ h13
                  (Change.unchanged refl refl)

-- What a decision that is new has done.
pub record DecisionRun (env : Environment) (actor : User) (r : DeliverableRevision)
    (rationale key : Text) (db db' : Database) (f : DeliverableFinalDecision) : Type 0 where
  pub old : Deliverable
  pub found : find (λ x. x.id) r.deliverable db.deliverables ≡ some old
  pub milestone : Milestone
  pub placed : find (λ x. x.id) old.milestone db.milestones ≡ some milestone
  pub names : f.revision ≡ r.id
  pub own_key : f.id ≡ db.next_id
  pub next : db'.next_id ≡ suc db.next_id
  pub projects : db'.projects ≡ db.projects
  pub recommended :
      (old.reviewer_required && not (any (open_recommendation r.id) db.recommendations)) ≡ false
  pub reasoned : (is_return f.decision && is_blank (strip rationale)) ≡ false
  pub decisions : db'.decisions ≡ put (λ x. x.id) f db.decisions
  pub revisions :
      db'.revisions ≡ put (λ x. x.id) (record r { state = decided_state f.decision }) db.revisions
  pub deliverables :
      db'.deliverables
      ≡ put (λ x. x.id) (decided_deliverable f.decision env.now r.id old) db.deliverables
  pub milestones :
      db'.milestones
      ≡ put
          (λ x. x.id)
          (reconciled env.now
            (derived_status env.today milestone
              (put (λ x. x.id) (decided_deliverable f.decision env.now r.id old) db.deliverables))
            milestone)
          db.milestones

same_place :
    (c : FinalDecision) (now k : ℕ) (d : Deliverable)
    → (d.id ≡ (decided_deliverable c now k d).id)
      × (d.milestone ≡ (decided_deliverable c now k d).milestone)
      × (IsFit d → IsFit (decided_deliverable c now k d))
same_place FinalDecision.accepted now k d = (refl, refl, λ f. (omega arith, refl))
same_place FinalDecision.returned now k d = (refl, refl, λ f. (f.0, refl))

decided-IsWorkOf :
    (c : FinalDecision) (now k : ℕ) (d : Deliverable) → IsWorkOf d (decided_deliverable c now k d)
decided-IsWorkOf FinalDecision.accepted now k d = (refl, refl, refl, refl)
decided-IsWorkOf FinalDecision.returned now k d = (refl, refl, refl, refl)

pub decide_new_run :
    (env : Environment) (actor : User) (r : DeliverableRevision) (decision : Option FinalDecision)
    (rationale key : Text) (db db' : Database) (f : DeliverableFinalDecision)
    → decide_new env actor r decision rationale key db ≡ (ok f, db')
    → DecisionRun env actor r rationale key db db' f
unfolding decide_new
decide_new_run env actor r decision rationale key db db' f h = check_ok _ _ _ h λ choice chosen h1.
    raise_if_ok _ _ _ _ h1 λ reasoned h2. check_ok _ _ _ h2 λ d found h3.
      check_ok _ _ _ h3 λ recommended known h4. raise_if_ok _ _ _ _ h4 λ reviewed h5.
        check_ok _ _ _ h5 λ u apart h6. fresh_id_ok _ _ h6 λ h7. modify_ok _ _ _ h7 λ h8.
          modify_ok _ _ _ h8 λ h9. save_deliverable_ok _ _ _ h9 λ free h10.
            reconcile_ok _ _ _ _ h10 λ m a at h11. modify_ok _ _ _ h11 λ h12.
              modify_ok _ _ _ h12 λ h13.
                let any_open : any (open_recommendation r.id) db.recommendations ≡ recommended =
                  cc in
                returns (λ b x. DecisionRun env actor r rationale key db x b) _ h13
                  (record {
                    old = d;
                    found = or_raise_ok _ _ found;
                    milestone = m;
                    placed = at;
                    names = refl;
                    own_key = refl;
                    next = refl;
                    projects = refl;
                    recommended = rw any_open reviewed;
                    reasoned = reasoned;
                    decisions = refl;
                    revisions = refl;
                    deliverables = refl;
                    milestones = refl;
                  })

-- The deliverable that a revision is of.
abbrev pub judged : ℕ → Database → Option ℕ
judged pk db = elim (find (λ x. x.id) pk db.revisions) [ none ↦ none | some r ↦ some r.deliverable ]

judged_of :
    (pk : ℕ) (db : Database) (r : DeliverableRevision)
    → find (λ x. x.id) pk db.revisions ≡ some r
    → judged pk db ≡ some r.deliverable
judged_of pk db r at = rw (judged, at) refl

pub decide_deliverable-Change :
    (env : Environment) (debt : Bool) (actor : User) (pk : ℕ) (decision : Option FinalDecision)
    (rationale key : Text) (db : Database)
    → Change env
        (Act.works (judged pk db))
        debt
        (plan_of db)
        (plan_of (decide_deliverable env actor pk decision rationale key db).1)
unfolding decide_deliverable
decide_deliverable-Change env debt actor pk decision rationale key db =
    atomic-Change env (Act.works (judged pk db)) debt _ db λ f db' h.
      check_ok _ _ _ (atomic_ok _ h) λ r found h1. check_ok _ _ _ h1 λ project of h2.
        require_capability_ok _ _ _ _ _ h2 λ w c h3.
          check_ok _ _ _ h3 λ existing known h4. go r (or_raise_ok _ _ found) existing f db' h4
  where
    go :
        (r : DeliverableRevision)
        → find (λ x. x.id) pk db.revisions ≡ some r
        → (existing : Option DeliverableFinalDecision) (f : DeliverableFinalDecision)
          (db' : Database)
        → or_decide env actor r decision rationale key existing db ≡ (ok f, db')
        → Change env (Act.works (judged pk db)) debt (plan_of db) (plan_of db')
    go r at (some old) f db' e =
        returns (λ b x. Change env (Act.works (judged pk db)) debt (plan_of db) (plan_of x)) _ e
          (Change.unchanged refl refl)
    go r at none f db' e =
        let run = decide_new_run env actor r decision rationale key db db' f e in
        let (ids, places, fits) = same_place f.decision env.now r.id run.old in
        Change.worked run.old (decided_deliverable f.decision env.now r.id run.old) run.milestone
          (ap Act.works (
            judged_of pk db r at
            ∙ ap some (sym (find_pk (λ x. x.id) r.deliverable db.deliverables run.found))))
          (found_itself (λ r. r.id) run.old r.deliverable db.deliverables run.found) ids places
          (decided-IsWorkOf f.decision env.now r.id run.old) fits
          (subst (λ k. find (λ x. x.id) k db.milestones ≡ some run.milestone) places run.placed)
          run.milestones run.deliverables

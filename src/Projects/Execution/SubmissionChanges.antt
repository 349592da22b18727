-- ===== src/Projects/Execution/SubmissionChanges.antt =====
-- A submission refines a step of the abstract plan.
use grad_sync.Prelude.{
  find_pk, ℕ, ◌≡◌, refl, ap, sym, ◌∙◌, Bool, false, ◌||◌, Option, none, some, List, [], ◌∷◌, ◌++◌,
  find, put,
}
use grad_sync.Accounts.{User}
use grad_sync.Projects.Model.{ResearchProject, ProjectMembership}
use grad_sync.Projects.Execution.Model.{
  Milestone, Deliverable, DeliverableReviewerDesignation, DeliverableRevision, is_accepted,
  is_archived, RevisionState, DeliverableEvidence,
}
use grad_sync.Projects.Execution.{Database, Environment, is_empty, EventAction, add_event}
use grad_sync.Projects.Execution.Revisions.{
  next_number, revision_numbers, assign_member, assign_designated, NewRevision, submitted,
  submit_new, or_submit, submit_deliverable,
}
use grad_sync.Projects.Execution.Runs.{fresh_id_ok, reconcile_ok, save_deliverable_ok}
use grad_sync.Projects.Execution.Plan.{plan_of, Change, Act}
use grad_sync.Projects.Execution.Changes.{atomic-Change, found_itself}
use grad_sync.Projects.Execution.Reconcile.{derived_status, reconciled}
use grad_sync.Projects.Execution.Evidence.{prepare_evidence}
use grad_sync.Submissions.Model.{ReviewTarget, SubmissionReviewAssignment}
use grad_sync.Submissions.Reviewers.{get_or_create, assign_reviewer}
use grad_sync.Transactions.{ok}
use grad_sync.Transactions.Runs.{
  check_ok, bind_ok, raise_if_ok, modify_ok, returns, atomic_ok, or_raise_ok,
}

-- What assigning reviewers leaves as it was: every table but the assignments and the events.
abbrev pub OnlyAssigns : Database → Database → Type 0
OnlyAssigns db d =
    record db { assignments = d.assignments; events = d.events; next_id = d.next_id } ≡ d

then_assigns : (a b c : Database) → OnlyAssigns a b → OnlyAssigns b c → OnlyAssigns a c
then_assigns a b c e f =
    ap
      (λ (x : Database). record x {
        assignments = c.assignments;
        events = c.events;
        next_id = c.next_id;
      })
      e
    ∙ f

get_or_create_ok :
    (actor : User) (project membership : ℕ) (target : ReviewTarget)
    (o : Option SubmissionReviewAssignment) (db mid : Database) (a : SubmissionReviewAssignment)
    → get_or_create actor project membership target o db ≡ (ok a, mid)
    → OnlyAssigns db mid
unfolding get_or_create
get_or_create_ok actor project membership target (some x) db mid a h =
    returns (λ b d. OnlyAssigns db d) _ h refl
get_or_create_ok actor project membership target none db mid a h =
    fresh_id_ok _ _ h λ h1. modify_ok _ _ _ h1 λ h2. returns (λ b d. OnlyAssigns db d) _ h2 refl

pub assign_reviewer_ok :
    (actor : User) (project : ResearchProject) (membership : ℕ) (target : ReviewTarget)
    (target_project : ℕ) (db mid : Database) (a : SubmissionReviewAssignment)
    → assign_reviewer actor project membership target target_project db ≡ (ok a, mid)
    → OnlyAssigns db mid
unfolding assign_reviewer
assign_reviewer_ok actor project membership target target_project db mid a h =
    check_ok _ _ _ (atomic_ok _ h) λ u may h1. check_ok _ _ _ h1 λ m found h2.
      raise_if_ok _ _ _ _ h2 λ reviewer h3. raise_if_ok _ _ _ _ h3 λ local h4.
        check_ok _ _ _ h4 λ o existing h5. bind_ok _ _ _ h5 λ b last got h6.
          modify_ok _ _ _ h6 λ h7.
            returns (λ b d. OnlyAssigns db d) _ h7
              (ap (add_event project.id actor (EventAction.reviewer_assigned b.id b.status) false)
                (get_or_create_ok actor project.id m.id target o db last b got))

assign_member_ok :
    (advisor : User) (project : ResearchProject) (revision : ℕ) (m : Option ProjectMembership)
    (db mid : Database) (u : Unit {0})
    → assign_member advisor project revision m db ≡ (ok u, mid)
    → OnlyAssigns db mid
assign_member_ok advisor project revision none db mid u h =
    returns (λ b d. OnlyAssigns db d) _ h refl
assign_member_ok advisor project revision (some m) db mid u h = bind_ok _ _ _ h λ a last run h1.
    returns (λ b d. OnlyAssigns db d) _ h1
      (assign_reviewer_ok advisor project m.id (ReviewTarget.deliverable_revision revision)
        project.id db last a run)

pub assign_designated_ok :
    (project : ResearchProject) (revision : ℕ) (gs : List DeliverableReviewerDesignation)
    (db mid : Database) (u : Unit {0})
    → assign_designated project revision gs db ≡ (ok u, mid)
    → OnlyAssigns db mid
unfolding assign_designated
assign_designated_ok project revision [] db mid u h = returns (λ b d. OnlyAssigns db d) _ h refl
assign_designated_ok project revision (g ∷ gs) db mid u h = check_ok _ _ _ h λ m found h1.
    check_ok _ _ _ h1 λ advisor known h2. bind_ok _ _ _ h2 λ v last run h3.
      then_assigns db last mid (assign_member_ok advisor project revision m db last v run)
        (assign_designated_ok project revision gs last mid u h3)

-- What a submission that is new has done.
pub record SubmissionRun (env : Environment) (actor : User) (d : Deliverable) (new : NewRevision)
    (db db' : Database) (r : DeliverableRevision) : Type 0 where
  pub milestone : Milestone
  pub found : find (λ x. x.id) d.milestone db.milestones ≡ some milestone
  pub number : r.revision_number ≡ next_number (revision_numbers d.id db.revisions)
  pub criteria : r.criteria_snapshot ≡ d.acceptance_criteria
  pub owner : r.deliverable ≡ d.id
  pub state : r.state ≡ RevisionState.submitted
  pub key : r.idempotency_key ≡ new.idempotency_key
  pub projects : db'.projects ≡ db.projects
  pub revisions : db'.revisions ≡ put (λ x. x.id) r db.revisions
  pub evidence :
      (rows : List DeliverableEvidence) × (prepare_evidence env actor d.project r.id new.evidence
        ≡ ok rows)
      × (db'.evidence ≡ db.evidence ++ rows)
  pub given : is_empty new.evidence ≡ false
  pub unfinished : (is_accepted d.current_status || is_archived d.current_status) ≡ false
  pub deliverables : db'.deliverables ≡ put (λ x. x.id) (submitted r.id d) db.deliverables
  pub milestones :
      db'.milestones
      ≡ put
          (λ x. x.id)
          (reconciled env.now
            (derived_status env.today milestone
              (put (λ x. x.id) (submitted r.id d) db.deliverables))
            milestone)
          db.milestones

pub submit_new_run :
    (env : Environment) (actor : User) (d : Deliverable) (project : ResearchProject)
    (new : NewRevision) (db db' : Database) (r : DeliverableRevision)
    → submit_new env actor d project new db ≡ (ok r, db')
    → SubmissionRun env actor d new db db' r
unfolding submit_new
submit_new_run env actor d project new db db' r h = check_ok _ _ _ h λ assigned m1 h1.
    check_ok _ _ _ h1 λ manages m2 h2. raise_if_ok _ _ _ _ h2 λ may h3.
      raise_if_ok _ _ _ _ h3 λ unfinished h4. raise_if_ok _ _ _ _ h4 λ given h5.
        check_ok _ _ _ h5 λ gs designated h6. raise_if_ok _ _ _ _ h6 λ reviewed h7.
          check_ok _ _ _ h7 λ number counted h8. fresh_id_ok _ _ h8 λ h9.
            check_ok _ _ _ h9 λ evidence prepared h10. modify_ok _ _ _ h10 λ h11.
              modify_ok _ _ _ h11 λ h12. bind_ok _ _ _ h12 λ u mid assigning h13.
                save_deliverable_ok _ _ _ h13 λ free h14. reconcile_ok _ _ _ _ h14 λ m a at h15.
                  modify_ok _ _ _ h15 λ h16. modify_ok _ _ _ h16 λ h17.
                    let same = assign_designated_ok project db.next_id gs _ mid u assigning in
                    let next : next_number (revision_numbers d.id db.revisions) ≡ number = cc in
                    returns (λ b x. SubmissionRun env actor d new db x b) _ h17
                      (record {
                        milestone = m;
                        found =
                            ap (λ (x : Database). find (λ y. y.id) d.milestone x.milestones) same
                            ∙ at;
                        number = sym next;
                        criteria = refl;
                        owner = refl;
                        state = refl;
                        key = refl;
                        projects = sym (ap (λ (x : Database). x.projects) same);
                        revisions = sym (ap (λ (x : Database). x.revisions) same);
                        evidence =
                            (evidence, prepared, sym (ap (λ (x : Database). x.evidence) same));
                        given = given;
                        unfinished = unfinished;
                        deliverables =
                            ap
                              (λ (x : Database).
                                put (λ y. y.id) (submitted db.next_id d) x.deliverables)
                              (sym same);
                        milestones =
                            ap
                              (λ (x : Database).
                                put (λ y. y.id)
                                  (reconciled env.now
                                    (derived_status env.today m
                                      (put (λ y. y.id) (submitted db.next_id d) x.deliverables))
                                    m)
                                  x.milestones)
                              (sym same);
                      })

pub submit_deliverable-Change :
    (env : Environment) (debt : Bool) (actor : User) (pk : ℕ) (new : NewRevision) (db : Database)
    → Change env
        (Act.works (some pk))
        debt
        (plan_of db)
        (plan_of (submit_deliverable env actor pk new db).1)
unfolding submit_deliverable
submit_deliverable-Change env debt actor pk new db =
    atomic-Change env (Act.works (some pk)) debt _ db λ r db' h.
      check_ok _ _ _ (atomic_ok _ h) λ d found h1. check_ok _ _ _ h1 λ project of h2.
        raise_if_ok _ _ _ _ h2 λ writable h3.
          check_ok _ _ _ h3
            λ existing known h4. go d (or_raise_ok _ _ found) project existing r db' h4
  where
    go :
        (d : Deliverable)
        → find (λ x. x.id) pk db.deliverables ≡ some d
        → (project : ResearchProject) (existing : Option DeliverableRevision)
          (r : DeliverableRevision) (db' : Database)
        → or_submit env actor d project new existing db ≡ (ok r, db')
        → Change env (Act.works (some pk)) debt (plan_of db) (plan_of db')
    go d found project (some old) r db' e =
        returns (λ b x. Change env (Act.works (some pk)) debt (plan_of db) (plan_of x)) _ e
          (Change.unchanged refl refl)
    go d found project none r db' e =
        let run = submit_new_run env actor d project new db db' r e in
        Change.worked d (submitted r.id d) run.milestone
          (ap (λ k. Act.works (some k)) (sym (find_pk (λ r. r.id) pk db.deliverables found)))
          (found_itself (λ r. r.id) d pk db.deliverables found) refl refl (refl, refl, refl, refl)
          (λ f. f) run.found run.milestones run.deliverables

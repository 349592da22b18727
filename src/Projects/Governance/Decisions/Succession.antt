-- ===== src/Projects/Governance/Decisions/Succession.antt =====
-- What a publication has done when it returns, and what happens to the decision that it supersedes.
use grad_sync.Prelude.{
  ℕ, suc, ◌≡◌, refl, ◌⊎◌, inl, inr, Bool, true, false, Option, none, some, arith, any, find,
  if◌then◌else◌,
}
use grad_sync.Accounts.{User}
use grad_sync.Projects.Model.{ResearchProject, DecisionRecord, DecisionStatus}
use grad_sync.Projects.Access.{project_capabilities}
use grad_sync.Projects.Governance.{Error, Database, Environment, require_capability}
use grad_sync.Projects.Governance.Steps.{fresh_id_ok, create_links_ok}
use grad_sync.Projects.Governance.Decisions.{
  NewDecision, published_before, is_current, supersedes_it, current_predecessor, get_predecessor,
  save_decision, supersede, key_of, publish_new, or_publish, publish_decision,
}
use grad_sync.Transactions.{Result, ok, err}
use grad_sync.Transactions.Runs.{check_ok, modify_ok, atomic_ok, returns}

-- The decision to supersede is one of the project's, current, and has no successor.
pub record Superseded (project pk : ℕ) (db : Database) (old : DecisionRecord) : Type 0 where
  pub found : find (λ r. r.id) pk db.decisions ≡ some old
  pub of_project : old.project ≡ project
  pub current : is_current old.status ≡ true
  pub alone : any (supersedes_it old.id) db.decisions ≡ false

predecessor_facts :
    (project pk : ℕ) (o : Option DecisionRecord) (db : Database) (p : Option DecisionRecord)
    → find (λ r. r.id) pk db.decisions ≡ o
    → current_predecessor project o db ≡ ok p
    → (old : DecisionRecord) × (p ≡ some old) × Superseded project pk db old
predecessor_facts project pk none db p e h = cc
predecessor_facts project pk (some d) db p e h = (
  d,
  ground arith,
  record { found = e; of_project = ground arith; current = ground arith; alone = ground arith },
)

pub get_predecessor_facts :
    (project pk : ℕ) (db : Database) (p : Option DecisionRecord)
    → get_predecessor project (some pk) db ≡ ok p
    → (old : DecisionRecord) × (p ≡ some old) × Superseded project pk db old
unfolding get_predecessor
get_predecessor_facts project pk db p h =
    predecessor_facts project pk (find (λ r. r.id) pk db.decisions) db p refl h

pub record PublicationRun (actor : User) (project : ResearchProject) (new : NewDecision)
    (db db' : Database) (decision : DecisionRecord) : Type 0 where
  pub predecessor : Option DecisionRecord
  pub checked : get_predecessor project.id new.supersedes db ≡ ok predecessor
  pub key : decision.id ≡ db.next_id
  pub next : db'.next_id ≡ suc db.next_id
  pub of_project : decision.project ≡ project.id
  pub status : decision.status ≡ DecisionStatus.current
  pub supersedes : decision.supersedes ≡ key_of predecessor
  pub retry_key : decision.idempotency_key ≡ new.idempotency_key
  pub decisions : db'.decisions ≡ (supersede predecessor (save_decision decision db)).decisions
  pub memberships : db'.memberships ≡ db.memberships

supersede_tables :
    (p : Option DecisionRecord) (decision : DecisionRecord) (db mid : Database)
    → mid.decisions ≡ db.decisions
    → let after = supersede p (save_decision decision mid) in
      (after.decisions ≡ (supersede p (save_decision decision db)).decisions)
      × (after.next_id ≡ mid.next_id)
      × (after.memberships ≡ mid.memberships)
supersede_tables none decision db mid same = (rw same, refl, refl)
supersede_tables (some p) decision db mid same = (rw same, refl, refl)

publish_new_run :
    (env : Environment) (actor : User) (project : ResearchProject) (new : NewDecision)
    (db db' : Database) (decision : DecisionRecord)
    → publish_new env actor project new db ≡ (ok decision, db')
    → PublicationRun actor project new db db' decision
unfolding publish_new
publish_new_run env actor project new db db' decision h = check_ok _ _ _ h λ u valid h1.
    check_ok _ _ _ h1 λ owner eligible h2. check_ok _ _ _ h2 λ predecessor checked h3.
      fresh_id_ok _ _ h3 λ h4. modify_ok _ _ _ h4 λ h5. modify_ok _ _ _ h5 λ h6.
        create_links_ok _ _ _ _ _ _ _ h6 λ rows built apart h7. modify_ok _ _ _ h7 λ h8.
          let tables =
            supersede_tables predecessor _ db (record db { next_id = suc db.next_id }) refl in
          returns (λ b d. PublicationRun actor project new db d b) _ h8
            (record {
              predecessor = predecessor;
              checked = checked;
              key = refl;
              next = tables.1;
              of_project = refl;
              status = refl;
              supersedes = refl;
              retry_key = refl;
              decisions = tables.0;
              memberships = tables.2;
            })

pub publish_decision_run :
    (env : Environment) (actor : User) (project : ResearchProject) (new : NewDecision)
    (db db' : Database) (decision : DecisionRecord)
    → publish_decision env actor project new db ≡ (ok decision, db')
    → ((project_capabilities actor project db.memberships).can_publish_decisions ≡ true)
      × (((published_before project.id new.idempotency_key db ≡ some decision) × (db' ≡ db))
          ⊎ ((published_before project.id new.idempotency_key db ≡ none)
              × PublicationRun actor project new db db' decision))
unfolding publish_decision require_capability
publish_decision_run env actor project new db db' decision h =
    check_ok _ _ _ (atomic_ok _ h) λ u allowed h1.
      check_ok _ _ _ h1 λ existing found h2.
        (allowed_true _ _ allowed, old_or_new existing (ok_option _ _ found) h2)
  where
    allowed_true :
        (c : Bool) (u : Unit {0})
        → ◌≡◌ {A = Result Error (Unit {0})}
            (if c then ok tt else err Error.permission_denied)
            (ok u)
        → c ≡ true
    allowed_true true u e = refl
    allowed_true false u e = cc

    ok_option :
        (a b : Option DecisionRecord)
        → ◌≡◌ {A = Result Error (Option DecisionRecord)} (ok a) (ok b)
        → a ≡ b
    ok_option a b e = cc

    old_or_new :
        (existing : Option DecisionRecord)
        → published_before project.id new.idempotency_key db ≡ existing
        → ◌≡◌ {A = Result Error DecisionRecord × Database}
            (or_publish env actor project new existing db)
            (ok decision, db')
        → ((published_before project.id new.idempotency_key db ≡ some decision) × (db' ≡ db))
          ⊎ ((published_before project.id new.idempotency_key db ≡ none)
              × PublicationRun actor project new db db' decision)
    old_or_new none e r = inr (e, publish_new_run env actor project new db db' decision r)
    old_or_new (some old) e r = inl (
        returns (λ b d. (published_before project.id new.idempotency_key db ≡ some b) × (d ≡ db)) _
          r (e, refl))

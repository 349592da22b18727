-- ===== src/Projects/Governance/Risks/Transitions.antt =====
-- What `transition_risk` has done when it returns.
use grad_sync.Prelude.{
  ==_iff, text_eq_refl, ℕ, ◌+◌, ◌≡◌, refl, ap, sym, subst, ◌⊎◌, inl, inr, Bool, true, false, Option,
  none, some, List, ◌∷◌, Text, arith, find, find_pk, ==_iff,
}
use grad_sync.Accounts.{User}
use grad_sync.Projects.Model.{ResearchProject, RiskRecord, RiskRevision}
use grad_sync.Projects.Access.{project_capabilities}
use grad_sync.Projects.Governance.{Error, RiskAction, Database, Environment, require_capability}
use grad_sync.Projects.Governance.Steps.{create_links_ok}
use grad_sync.Projects.Governance.Risks.Moves.{
  supported, Transition, target_of, is_closed, transition_new, is_retry, unless_retry,
  transition_risk,
}
use grad_sync.Transactions.{Result, ok}
use grad_sync.Transactions.Runs.{check_ok, raise_if_ok, modify_ok, atomic_ok, returns, or_raise_ok}
use grad_sync.Projects.Governance.Risks.Log.{AreSound, RiskRun, Changes}
use grad_sync.Projects.Governance.Risks.Runs.{append_ok, allowed_true}
use grad_sync.Projects.Governance.Risks.Preparing.{prepare_ok}

-- A transition that is no retry.
pub record TransitionRun (env : Environment) (old : RiskRecord) (t : Transition) (db db' : Database)
    (risk : RiskRecord) : Type 0 where
  pub action : RiskAction
  pub named : t.action ≡ some action
  pub current : old.version ≡ t.expected_version
  pub key : risk.id ≡ old.id
  pub project : risk.project ≡ old.project
  pub state : risk.state ≡ target_of action
  pub version : risk.version ≡ old.version + 1
  pub reopening : action ≡ RiskAction.reopen → is_closed old.state ≡ true
  pub revised : is_retry risk.id t.idempotency_key db'.revisions ≡ true
  pub projects : db'.projects ≡ db.projects
  pub memberships : db'.memberships ≡ db.memberships
  pub run : find (λ r. r.id) old.id db.risks ≡ some old → RiskRun db db' risk

supported_ok : (o : Option RiskAction) (a : RiskAction) → supported o ≡ ok a → o ≡ some a
supported_ok none a h = cc
supported_ok (some x) a h = cc

seen :
    (revision : RiskRevision) (k : ℕ) (key : Text)
    → revision.risk ≡ k
    → revision.idempotency_key ≡ key
    → (older : List RiskRevision) → is_retry k key (revision ∷ older) ≡ true
seen revision k key e same older = rw ((==_iff revision.risk k).1 e, same, text_eq_refl key)

transition_new_run :
    (env : Environment) (actor : User) (old : RiskRecord) (t : Transition) (db db' : Database)
    (risk : RiskRecord)
    → transition_new env actor old t db ≡ (ok risk, db')
    → TransitionRun env old t db db' risk
unfolding transition_new AreSound
transition_new_run env actor old t db db' risk h = raise_if_ok _ _ _ _ h λ current h1.
    check_ok _ _ _ h1 λ action named h2. check_ok _ _ _ h2 λ changed prepared h3.
      modify_ok _ _ _ h3 λ h4. create_links_ok _ _ _ _ _ _ _ h4 λ rows built apart h5.
        append_ok _ _ _ _ _ _ _ h5 λ revision logs number keyed h6. modify_ok _ _ _ h6 λ h7.
          let p = prepare_ok env t action old changed db prepared in
          returns (λ b d. TransitionRun env old t db d b) _ h7
            (record {
              action = action;
              named = supported_ok _ _ named;
              current = ground arith;
              key = p.key;
              project = p.project;
              state = refl;
              version = refl;
              reopening = λ e. p.reopening (ap target_of e);
              revised = seen revision _ _ logs.risk_id keyed _;
              projects = refl;
              memberships = refl;
              run = λ found. record {
                risks = refl;
                revision = revision;
                revisions = refl;
                logs = logs;
                number = number;
                sound = λ sound. record {
                  severity =
                      rw (p.severity, p.likelihood, p.impact) (sound old.id old found).severity;
                  rationale = p.rationale;
                  closing = p.closing;
                };
              };
            })

-- A transition returns the risk as it is when the key was used for it before, and else changes it.
pub record TransitionOutcome (env : Environment) (actor : User) (pk : ℕ) (t : Transition)
    (db db' : Database) (risk : RiskRecord) : Type 0 where
  pub old : RiskRecord
  pub project : ResearchProject
  pub found : find (λ r. r.id) pk db.risks ≡ some old
  pub of_project : find (λ r. r.id) old.project db.projects ≡ some project
  pub allowed : (project_capabilities actor project db.memberships).can_triage_risks ≡ true
  pub outcome :
      ((is_retry old.id t.idempotency_key db.revisions ≡ true) × (risk ≡ old) × (db' ≡ db))
      ⊎ ((is_retry old.id t.idempotency_key db.revisions ≡ false)
          × TransitionRun env old t db db' risk)

pub transition_risk_run :
    (env : Environment) (actor : User) (pk : ℕ) (t : Transition) (db db' : Database)
    (risk : RiskRecord)
    → transition_risk env actor pk t db ≡ (ok risk, db')
    → TransitionOutcome env actor pk t db db' risk
unfolding transition_risk require_capability
transition_risk_run env actor pk t db db' risk h = check_ok _ _ _ (atomic_ok _ h) λ old found h1.
    check_ok _ _ _ h1 λ project of_project h2. check_ok _ _ _ h2 λ u allowed h3.
      check_ok _ _ _ h3 λ retry used h4. record {
        old = old;
        project = project;
        found = or_raise_ok _ _ found;
        of_project = or_raise_ok _ _ of_project;
        allowed = allowed_true _ _ allowed;
        outcome = retry_or_new old retry used h4;
      }
  where
    ok_retry : (a b : Bool) → ◌≡◌ {A = Result Error Bool} (ok a) (ok b) → a ≡ b
    ok_retry a b e = cc

    retry_or_new :
        (old : RiskRecord) (retry : Bool)
        → ◌≡◌ {A = Result Error Bool}
            (ok (is_retry old.id t.idempotency_key db.revisions))
            (ok retry)
        → ◌≡◌ {A = Result Error RiskRecord × Database}
            (unless_retry env actor old t retry db)
            (ok risk, db')
        → ((is_retry old.id t.idempotency_key db.revisions ≡ true) × (risk ≡ old) × (db' ≡ db))
          ⊎ ((is_retry old.id t.idempotency_key db.revisions ≡ false)
              × TransitionRun env old t db db' risk)
    retry_or_new old true used e = inl (
        returns
          (λ b d. (is_retry old.id t.idempotency_key db.revisions ≡ true) × (b ≡ old) × (d ≡ db)) _
          e (ok_retry _ _ used, refl, refl))
    retry_or_new old false used e =
        inr (ok_retry _ _ used, transition_new_run env actor old t db db' risk e)

pub transition_risk-Changes :
    (env : Environment) (actor : User) (pk : ℕ) (t : Transition) (db db' : Database)
    (risk : RiskRecord)
    → TransitionOutcome env actor pk t db db' risk
    → Changes db db' risk
unfolding Changes
transition_risk-Changes env actor pk t db db' risk out = elim out.outcome [
  | inl (retry, kept, same) ↦ inl same
  | inr (fresh, run) ↦ inr (
      run.run (
        subst (λ n. find (λ r. r.id) n db.risks ≡ some out.old)
          (sym (find_pk (λ r. r.id) pk db.risks out.found)) out.found))
]

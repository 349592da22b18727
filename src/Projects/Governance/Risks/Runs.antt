-- ===== src/Projects/Governance/Risks/Runs.antt =====
-- What the operations on risks have done when they return.
use grad_sync.Prelude.{
  ℕ, ◌+◌, ◌≡◌, refl, inl, inr, Bool, true, false, Option, none, some, ◌∷◌, Text, is_blank, arith,
  find, if◌then◌else◌,
}
use grad_sync.Accounts.{User}
use grad_sync.Projects.Model.{ResearchProject, Level, RiskState, RiskRecord, RiskRevision}
use grad_sync.Projects.Access.{project_capabilities}
use grad_sync.Projects.Governance.{Error, Database, Environment, Step, require_capability}
use grad_sync.Projects.Governance.Steps.{fresh_id_ok, create_links_ok}
use grad_sync.Projects.Governance.Risks.{
  risk_matrix, derive_risk_severity, last_number, append_risk_revision, NewRisk, raise_new,
  raise_risk, or_raise_new, Triage, triage_risk, is_set,
}
use grad_sync.Transactions.{Result, ok, err, ◌>>=◌, ◌>>◌, modify}
use grad_sync.Transactions.Runs.{check_ok, raise_if_ok, modify_ok, atomic_ok, returns, or_raise_ok}
use grad_sync.Projects.Governance.Risks.Log.{Logs, RiskRun, Changes}

pub append_ok :
    {B P : Type 0} (actor : User) (risk : RiskRecord) (previous : RiskState) (reason key : Text)
    (k : Step B) (db : Database) {db' : Database} {b : B}
    → (append_risk_revision actor risk previous reason key >> k) db ≡ (ok b, db')
    → ((revision : RiskRevision)
        → Logs risk revision
        → revision.revision_number ≡ last_number risk.id db.revisions + 1
        → revision.idempotency_key ≡ key
        → k (record db { revisions = revision ∷ db.revisions }) ≡ (ok b, db')
        → P)
    → P
unfolding append_risk_revision ◌>>=◌ modify
append_ok actor risk previous reason key k db h rest =
    rest _
      (record {
        risk_id = refl;
        state = refl;
        likelihood = refl;
        impact = refl;
        severity = refl;
        owner = refl;
        treatment = refl;
        review_date = refl;
        rationale = refl;
      })
      refl refl h

raise_new_run :
    (env : Environment) (actor : User) (project : ResearchProject) (new : NewRisk)
    (db db' : Database) (risk : RiskRecord)
    → raise_new env actor project new db ≡ (ok risk, db')
    → RiskRun db db' risk
unfolding raise_new risk_matrix
raise_new_run env actor project new db db' risk h = fresh_id_ok _ _ h λ h1. modify_ok _ _ _ h1 λ h2.
    create_links_ok _ _ _ _ _ _ _ h2 λ rows built apart h3.
      append_ok _ _ _ _ _ _ _ h3 λ revision logs number keyed h4. modify_ok _ _ _ h4 λ h5.
        returns (λ b d. RiskRun db d b) _ h5
          (record {
            risks = refl;
            revision = revision;
            revisions = refl;
            logs = logs;
            number = number;
            sound = λ sound. record { severity = refl; rationale = λ c. cc; closing = λ c. cc };
          })

pub raise_risk_run :
    (env : Environment) (actor : User) (project : ResearchProject) (new : NewRisk)
    (db db' : Database) (risk : RiskRecord)
    → raise_risk env actor project new db ≡ (ok risk, db')
    → Changes db db' risk
unfolding raise_risk require_capability Changes
raise_risk_run env actor project new db db' risk h =
    check_ok _ _ _ (atomic_ok _ h)
      λ u allowed h1. check_ok _ _ _ h1 λ existing found h2. new_or_old existing h2
  where
    new_or_old :
        (existing : Option RiskRecord)
        → or_raise_new env actor project new existing db ≡ (ok risk, db')
        → Changes db db' risk
    new_or_old none e = inr (raise_new_run env actor project new db db' risk e)
    new_or_old (some old) e = returns (λ b d. Changes db d b) _ e (inl refl)

levels_derived :
    (likelihood impact : Option Level) (l i s : Level)
    → derive_risk_severity likelihood impact ≡ ok (l, i, s)
    → (likelihood ≡ some l) × (impact ≡ some i) × (s ≡ risk_matrix l i)
unfolding derive_risk_severity
levels_derived (some l') (some i') l i s h = (cc, cc, cc)
levels_derived none i' l i s h = cc
levels_derived (some l') none l i s h = cc

pub record TriageRun (actor : User) (pk : ℕ) (triage : Triage) (db db' : Database)
    (risk : RiskRecord) : Type 0 where
  pub old : RiskRecord
  pub project : ResearchProject
  pub found : find (λ r. r.id) pk db.risks ≡ some old
  pub allowed : (project_capabilities actor project db.memberships).can_triage_risks ≡ true
  pub current : old.version ≡ triage.expected_version
  pub levels : (triage.likelihood ≡ some risk.likelihood) × (triage.impact ≡ some risk.impact)
  pub key : risk.id ≡ old.id
  pub state : risk.state ≡ RiskState.opened
  pub version : risk.version ≡ old.version + 1
  pub owned : is_set risk.owner ≡ true
  pub treated : is_blank risk.treatment ≡ false
  pub reviewed : is_set risk.review_date ≡ true
  pub run : RiskRun db db' risk

pub allowed_true :
    (c : Bool) (u : Unit {0})
    → ◌≡◌ {A = Result Error (Unit {0})} (if c then ok tt else err Error.permission_denied) (ok u)
    → c ≡ true
allowed_true true u h = refl
allowed_true false u h = cc

pub triage_risk_run :
    (actor : User) (pk : ℕ) (triage : Triage) (db db' : Database) (risk : RiskRecord)
    → triage_risk actor pk triage db ≡ (ok risk, db')
    → TriageRun actor pk triage db db' risk
unfolding triage_risk require_capability
triage_risk_run actor pk triage db db' risk h = check_ok _ _ _ (atomic_ok _ h) λ old found h1.
    check_ok _ _ _ h1 λ project of_project h2. check_ok _ _ _ h2 λ u allowed h3.
      raise_if_ok _ _ _ _ h3 λ current h4. check_ok _ _ _ h4 λ owner eligible h5.
        raise_if_ok _ _ _ _ h5 λ complete h6. check_ok _ _ _ h6 λ levels derived h7.
          modify_ok _ _ _ h7 λ h8. append_ok _ _ _ _ _ _ _ h8 λ revision logs number keyed h9.
            modify_ok _ _ _ h9 λ h10.
              let (is_likelihood, is_impact, severe) =
                levels_derived _ _ levels.0 levels.1 levels.2 derived in
              returns (λ b d. TriageRun actor pk triage db d b) _ h10
                (record {
                  old = old;
                  project = project;
                  found = or_raise_ok _ _ found;
                  allowed = allowed_true _ _ allowed;
                  current = ground arith;
                  levels = (is_likelihood, is_impact);
                  key = refl;
                  state = refl;
                  version = refl;
                  owned = refl;
                  treated = ground arith;
                  reviewed = ground arith;
                  run = record {
                    risks = refl;
                    revision = revision;
                    revisions = refl;
                    logs = logs;
                    number = number;
                    sound = λ sound. record {
                      severity = severe;
                      rationale = λ c. cc;
                      closing = λ c. cc;
                    };
                  };
                })

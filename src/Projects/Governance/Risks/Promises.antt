-- ===== src/Projects/Governance/Risks/Promises.antt =====
-- What the operations on risks promise.
use grad_sync.Prelude.{
  ℕ, ◌+◌, ◌≡◌, sym, subst, ◌∙◌, inl, inr, Bool, true, false, some, find, find-put_self, find_pk,
  some_eq,
}
use grad_sync.Accounts.{User}
use grad_sync.Projects.Model.{ResearchProject, RiskRecord}
use grad_sync.Projects.Governance.{RiskAction, RiskState, Database, Environment}
use grad_sync.Projects.Governance.Risks.{NewRisk, raise_risk, Triage, triage_risk}
use grad_sync.Projects.Governance.Risks.Moves.{
  Transition, target_of, is_closed, is_retry, transition_risk,
}
use grad_sync.Transactions.{ok}
use grad_sync.Transactions.Runs.{atomic-keeps}
use grad_sync.Projects.Governance.Risks.Log.{AreSound, Changes}
use grad_sync.Projects.Governance.Risks.Log.{IsLogged, Changes-AreSound, Changes-IsLogged}
use grad_sync.Projects.Governance.Risks.Runs.{raise_risk_run, triage_risk_run}
use grad_sync.Projects.Governance.Risks.Transitions.{transition_risk_run, transition_risk-Changes}

-- What every change of one risk keeps, the three operations keep.
operations-keep :
    (P : Database → Type 0)
    → ((db db' : Database) (risk : RiskRecord) → Changes db db' risk → P db → P db')
    → (env : Environment) (actor : User) (project : ResearchProject) (new : NewRisk) (pk : ℕ)
      (triage : Triage) (t : Transition) (db : Database)
    → P db
    → P (raise_risk env actor project new db).1
      × P (triage_risk actor pk triage db).1
      × P (transition_risk env actor pk t db).1
unfolding raise_risk triage_risk transition_risk Changes
operations-keep P keeps env actor project new pk triage t db before = (
  atomic-keeps P _ db before
      λ risk db' h. keeps db db' risk (raise_risk_run env actor project new db db' risk h) before,
  atomic-keeps P _ db before λ risk db' h.
      keeps db db' risk (inr (triage_risk_run actor pk triage db db' risk h).run) before,
  atomic-keeps P _ db before λ risk db' h.
      keeps db db' risk
        (transition_risk-Changes env actor pk t db db' risk
          (transition_risk_run env actor pk t db db' risk h))
        before,
)

-- Raising, triaging and moving risks keeps, for every risk, the newest revision equal to what the risk
-- is and its number the highest.
pub risks-IsLogged :
    (env : Environment) (actor : User) (project : ResearchProject) (new : NewRisk) (pk : ℕ)
    (triage : Triage) (t : Transition) (db : Database)
    → IsLogged db
    → IsLogged (raise_risk env actor project new db).1
      × IsLogged (triage_risk actor pk triage db).1
      × IsLogged (transition_risk env actor pk t db).1
risks-IsLogged = operations-keep IsLogged Changes-IsLogged

-- Raising, triaging and moving risks keeps every severity that of the matrix, and every closed risk
-- with a rationale and the time of its closing.
pub risks-AreSound :
    (env : Environment) (actor : User) (project : ResearchProject) (new : NewRisk) (pk : ℕ)
    (triage : Triage) (t : Transition) (db : Database)
    → AreSound db
    → AreSound (raise_risk env actor project new db).1
      × AreSound (triage_risk actor pk triage db).1
      × AreSound (transition_risk env actor pk t db).1
risks-AreSound = operations-keep AreSound Changes-AreSound

-- The state that an action leads to.
abbrev pub IsTarget : RiskAction → RiskState → Type 0
IsTarget RiskAction.start_mitigation s = s ≡ RiskState.mitigating
IsTarget RiskAction.accept s = s ≡ RiskState.accepted
IsTarget RiskAction.resolve s = s ≡ RiskState.resolved
IsTarget RiskAction.reopen s = s ≡ RiskState.opened

IsTarget-told : (a : RiskAction) (s : RiskState) → s ≡ target_of a → IsTarget a s
IsTarget-told RiskAction.start_mitigation s h = h
IsTarget-told RiskAction.accept s h = h
IsTarget-told RiskAction.resolve s h = h
IsTarget-told RiskAction.reopen s h = h

-- A transition with a key that is new moves the risk, at the version that the caller saw, to the
-- state of the action (mitigating, accepted, resolved or open) and raises the version by one; only
-- a closed risk is reopened.
pub transition_risk_ok :
    (env : Environment) (actor : User) (pk : ℕ) (t : Transition) (db db' : Database)
    (risk old : RiskRecord)
    → transition_risk env actor pk t db ≡ (ok risk, db')
    → find (λ r. r.id) pk db.risks ≡ some old
    → is_retry old.id t.idempotency_key db.revisions ≡ false
    → (action : RiskAction) × (t.action ≡ some action)
      × (old.version ≡ t.expected_version)
      × (find (λ r. r.id) pk db'.risks ≡ some risk)
      × IsTarget action risk.state
      × (risk.version ≡ old.version + 1)
      × (action ≡ RiskAction.reopen → is_closed old.state ≡ true)
transition_risk_ok env actor pk t db db' risk old h found fresh =
    let out = transition_risk_run env actor pk t db db' risk h in
    let same : out.old ≡ old = some_eq (sym out.found ∙ found) in
    elim out.outcome [
      | inl (retry, kept, unchanged) ↦ absurd (clash _ retry (rw same fresh))
      | inr (new, run) ↦
          let pk_old = find_pk (λ r. r.id) pk db.risks out.found in
          let change =
            run.run
              (subst (λ n. find (λ r. r.id) n db.risks ≡ some out.old) (sym pk_old) out.found) in
          let stored : find (λ r. r.id) risk.id db'.risks ≡ some risk =
            rw change.risks (find-put_self (λ r. r.id) risk db.risks) in
          (
            run.action,
            run.named,
            rw (← same) run.current,
            subst (λ n. find (λ r. r.id) n db'.risks ≡ some risk) (run.key ∙ pk_old) stored,
            IsTarget-told run.action risk.state run.state,
            rw (← same) run.version,
            λ e. rw (← same) (run.reopening e),
          )
    ]
  where
    clash : (b : Bool) → b ≡ true → b ≡ false → ⊥
    clash b x y = cc

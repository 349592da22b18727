-- ===== src/Projects/Governance/Risks/Preparing.antt =====
-- What a transition of a risk makes of the row.
use grad_sync.Prelude.{
  ℕ, ◌≡◌, refl, subst, Bool, true, false, not, Option, Text, is_blank, arith, if◌then◌else◌,
}
use grad_sync.Projects.Model.{RiskState, RiskRecord}
use grad_sync.Projects.Governance.{Error, RiskAction, Database, Environment}
use grad_sync.Projects.Governance.Risks.{is_set}
use grad_sync.Projects.Governance.Risks.Moves.{
  Transition, target_of, is_closed, closed, reopened, prepare,
}
use grad_sync.Transactions.Runs.{err_if}
use grad_sync.Transactions.{Result, ok, err}

-- What `prepare` keeps, and what it asks of an action that closes.
pub record Prepared (now : ℕ) (action : RiskAction) (old changed : RiskRecord) : Type 0 where
  pub key : changed.id ≡ old.id
  pub project : changed.project ≡ old.project
  pub likelihood : changed.likelihood ≡ old.likelihood
  pub impact : changed.impact ≡ old.impact
  pub severity : changed.severity ≡ old.severity
  pub rationale : is_closed (target_of action) ≡ true → is_blank changed.closure_rationale ≡ false
  pub closing : is_closed (target_of action) ≡ true → is_set changed.closed_at ≡ true
  pub reopening : target_of action ≡ RiskState.opened → is_closed old.state ≡ true

closed-Prepared :
    (now : ℕ) (reason : Text) (action : RiskAction) (old changed : RiskRecord)
    → is_closed (target_of action) ≡ true
    → closed now reason old ≡ ok changed
    → Prepared now action old changed
closed-Prepared now reason action old changed closes h =
    let (stated, same) = err_if _ _ h in
    subst (Prepared now action old) same (record {
      key = refl;
      project = refl;
      likelihood = refl;
      impact = refl;
      severity = refl;
      rationale = λ c. stated;
      closing = λ c. refl;
      reopening = λ e. absurd (not_opened action closes e);
    })
  where
    not_opened :
        (action : RiskAction)
        → is_closed (target_of action) ≡ true
        → target_of action ≡ RiskState.opened
        → ⊥
    not_opened action c e = ground arith

reopened-Prepared :
    (now : ℕ) (review_date : Option ℕ) (owner : Result Error (Option ℕ)) (old changed : RiskRecord)
    → is_closed old.state ≡ true
    → reopened old review_date owner ≡ ok changed
    → Prepared now RiskAction.reopen old changed
reopened-Prepared now review_date (err e) old changed was_closed h = cc
reopened-Prepared now review_date (ok owner) old changed was_closed h =
    let (given, same) = err_if _ _ h in
    subst (Prepared now RiskAction.reopen old) same (record {
      key = refl;
      project = refl;
      likelihood = refl;
      impact = refl;
      severity = refl;
      rationale = λ c. cc;
      closing = λ c. cc;
      reopening = λ e. was_closed;
    })

if_closed :
    (c : Bool) (e : Error) (r : Result Error RiskRecord) (b : RiskRecord)
    → ◌≡◌ {A = Result Error RiskRecord} (if not c then err e else r) (ok b)
    → (c ≡ true) × (r ≡ ok b)
if_closed true e r b h = (refl, h)
if_closed false e r b h = cc

pub prepare_ok :
    (env : Environment) (t : Transition) (action : RiskAction) (old changed : RiskRecord)
    (db : Database)
    → prepare env t action old db ≡ ok changed
    → Prepared env.now action old changed
unfolding prepare
prepare_ok env t RiskAction.reopen old changed db h =
    let (was_closed, rest) = if_closed _ _ _ _ h in
    reopened-Prepared env.now t.review_date _ old changed was_closed rest
prepare_ok env t RiskAction.accept old changed db h =
    closed-Prepared env.now t.reason RiskAction.accept old changed refl h
prepare_ok env t RiskAction.resolve old changed db h =
    closed-Prepared env.now t.reason RiskAction.resolve old changed refl h
prepare_ok env t RiskAction.start_mitigation old changed db h =
    subst (Prepared env.now RiskAction.start_mitigation old) (ok_eq h) (record {
      key = refl;
      project = refl;
      likelihood = refl;
      impact = refl;
      severity = refl;
      rationale = λ c. cc;
      closing = λ c. cc;
      reopening = λ e. cc;
    })
  where
    ok_eq : {a b : RiskRecord} → ◌≡◌ {A = Result Error RiskRecord} (ok a) (ok b) → a ≡ b
    ok_eq h = cc

-- ===== src/Projects/Tests/Records.antt =====
-- The decisions and the risks of the project.
use grad_sync.Prelude.{
  find-put_cases, inl, inr, sym, subst, ℕ, ◌+◌, ◌≡◌, refl, true, none, some, [], ◌∷◌, text, strip,
  text_eq, find,
}
use grad_sync.Projects.Model.{
  DecisionRecord, DecisionStatus, Level, RiskState, SourceType, RiskRecord, RiskRevision,
}
use grad_sync.Projects.Access.{project_capabilities}
use grad_sync.Projects.Governance.{
  Error, Reason, RiskAction, Database, require_capability, fresh_id, create_links, link_rows,
  active_member,
}
use grad_sync.Projects.Governance.Decisions.{
  NewDecision, publish_decision, publish_new, published_before, get_predecessor,
  validate_decision_payload,
}
use grad_sync.Projects.Governance.Decisions.Succession.{Superseded}
use grad_sync.Projects.Governance.Decisions.Promises.{publish_decision-supersedes}
use grad_sync.Projects.Governance.Risks.{
  NewRisk, raise_risk, Triage, triage_risk, risk_matrix, last_number, append_risk_revision,
}
use grad_sync.Projects.Governance.Risks.Moves.{
  Transition, transition_risk, transition_new, is_closed, prepare,
}
use grad_sync.Projects.Governance.Risks.Log.{latest, Logs, IsLogged, IsSound, AreSound}
use grad_sync.Projects.Governance.Risks.Promises.{
  IsTarget, risks-IsLogged, risks-AreSound, transition_risk_ok,
}
use grad_sync.Transactions.{ok, err, statements}
use grad_sync.Projects.Tests.{lead, thesis, plan, delay, delay_raised, files, clock}

only_delay :
    (k : ℕ) (risk : RiskRecord)
    → find (λ r. r.id) k files.risks ≡ some risk
    → (9 ≡ k) × (delay ≡ risk)
only_delay k risk found = elim (find-put_cases (λ r. r.id) k delay [] found) [
  | inl (e, same) ↦ (sym e, same)
  | inr (away, none_left) ↦ absurd (nothing none_left)
]
  where
    nothing : none ≡ some risk → ⊥
    nothing e = cc

files-IsLogged : IsLogged files
unfolding IsLogged
files-IsLogged k risk found =
    let (e, same) = only_delay k risk found in
    subst
      (λ (x : ℕ × RiskRecord).
        (revision : RiskRevision) × (latest x.0 files.revisions ≡ some revision)
        × Logs x.1 revision
        × (revision.revision_number ≡ last_number x.0 files.revisions))
      (pair e same)
      (
        delay_raised,
        refl,
        record {
          risk_id = refl;
          state = refl;
          likelihood = refl;
          impact = refl;
          severity = refl;
          owner = refl;
          treatment = refl;
          review_date = refl;
          rationale = refl;
        },
        refl,
      )
  where
    pair : {a b : ℕ} {r s : RiskRecord} → a ≡ b → r ≡ s → ◌≡◌ {A = ℕ × RiskRecord} (a, r) (b, s)
    pair e f = cc

files-AreSound : AreSound files
unfolding AreSound risk_matrix
files-AreSound k risk found =
    subst IsSound (only_delay k risk found).1
      (record { severity = refl; rationale = λ c. cc; closing = λ c. cc })

abbrev new_risk : NewRisk
new_risk = record {
  title = text "loss";
  description = [];
  source_type = SourceType.manual;
  source_key = [];
  links = [];
  idempotency_key = [];
}

abbrev delay_triage : Triage
delay_triage = record {
  expected_version = 1;
  likelihood = some Level.high;
  impact = some Level.medium;
  owner_id = 1;
  treatment = text "t";
  review_date = some 30;
  reason = [];
}

abbrev delay_resolution : Transition
delay_resolution = record {
  expected_version = 1;
  action = some RiskAction.resolve;
  reason = text "r";
  idempotency_key = text "key-0001";
  owner_id = none;
  review_date = none;
  evidence_links = [];
}

risks-IsLogged_example :
    IsLogged (raise_risk (clock 100) lead thesis new_risk files).1
    × IsLogged (triage_risk lead 9 delay_triage files).1
    × IsLogged (transition_risk (clock 100) lead 9 delay_resolution files).1
risks-IsLogged_example =
    risks-IsLogged (clock 100) lead thesis new_risk 9 delay_triage delay_resolution files
      files-IsLogged

risks-AreSound_example :
    AreSound (raise_risk (clock 100) lead thesis new_risk files).1
    × AreSound (triage_risk lead 9 delay_triage files).1
    × AreSound (transition_risk (clock 100) lead 9 delay_resolution files).1
risks-AreSound_example =
    risks-AreSound (clock 100) lead thesis new_risk 9 delay_triage delay_resolution files
      files-AreSound

resolved_files : Database
unfolding transition_risk statements
resolved_files = (transition_risk (clock 100) lead 9 delay_resolution files).1

abbrev resolved_delay : RiskRecord
resolved_delay = record delay {
  state = RiskState.resolved;
  closure_rationale = text "r";
  closed_at = some 100;
  version = 2;
}

resolved :
    transition_risk (clock 100) lead 9 delay_resolution files ≡ (ok resolved_delay, resolved_files)
unfolding resolved_files transition_risk transition_new statements require_capability
    project_capabilities prepare create_links link_rows append_risk_revision strip text_eq
resolved = refl

transition_risk_ok_example :
    (action : RiskAction) × (some RiskAction.resolve ≡ some action)
    × (delay.version ≡ 1)
    × (find (λ r. r.id) 9 resolved_files.risks ≡ some resolved_delay)
    × IsTarget action RiskState.resolved
    × (2 ≡ delay.version + 1)
    × (action ≡ RiskAction.reopen → is_closed RiskState.raised ≡ true)
unfolding text_eq
transition_risk_ok_example =
    transition_risk_ok (clock 100) lead 9 delay_resolution files resolved_files resolved_delay delay
      resolved refl refl

abbrev revision_of_plan : NewDecision
revision_of_plan = record {
  title = text "plan two";
  context = [];
  options_considered = text "b" ∷ [];
  outcome = [];
  rationale = [];
  owner_id = 1;
  effective_date = 4;
  links = [];
  idempotency_key = text "plan-two";
  supersedes = some 8;
}

published_files : Database
unfolding publish_decision statements
published_files = (publish_decision (clock 100) lead thesis revision_of_plan files).1

abbrev plan_two : DecisionRecord
plan_two = record plan {
  id = 20;
  title = text "plan two";
  options_considered = text "b" ∷ [];
  effective_date = 4;
  supersedes = some 8;
  idempotency_key = text "plan-two";
}

published :
    publish_decision (clock 100) lead thesis revision_of_plan files ≡ (ok plan_two, published_files)
unfolding published_files publish_decision publish_new statements require_capability
    project_capabilities published_before validate_decision_payload active_member get_predecessor
    fresh_id create_links link_rows strip text_eq
published = refl

publish_decision-supersedes_example :
    (old : DecisionRecord) × Superseded 5 8 files old
    × (find (λ r. r.id) 8 published_files.decisions
        ≡ some (record old { status = DecisionStatus.superseded }))
    × (find (λ r. r.id) 20 published_files.decisions ≡ some plan_two)
    × (DecisionStatus.current ≡ DecisionStatus.current)
    × (some 8 ≡ some old.id)
    × (get_predecessor 5 (some 8) published_files
        ≡ err (Error.value Reason.only_current_superseded))
unfolding published_before text_eq
publish_decision-supersedes_example =
    publish_decision-supersedes (clock 100) lead thesis revision_of_plan 8 files published_files
      plan_two published refl refl refl

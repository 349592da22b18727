-- ===== src/Projects/Governance/Risks/Moves.antt =====
-- backend/apps/projects/decision_risk_services.py: transition_risk.
use grad_sync.Prelude.{
  ℕ, ◌+◌, Bool, true, false, not, ◌&&◌, ◌||◌, Option, none, some, List, [], Text, strip, is_blank,
  text_eq, any, ◌==◌, if◌then◌else◌,
}
use grad_sync.Accounts.{User}
use grad_sync.Projects.Model.{RiskState, RiskRecord, RiskRevision, Source}
use grad_sync.Projects.Governance.{
  Reason, Error, RiskAction, EventAction, Database, Environment, Step, get_project,
  require_capability, active_member, LinkRequest, create_links, record_execution_event,
}
use grad_sync.Transactions.{Result, ok, err, pure, check, atomic, ◌>>=◌, ◌>>◌, raise_if, modify}
use grad_sync.Projects.Governance.Risks.{append_risk_revision, save_risk, get_risk, is_set}

-- The keyword arguments of `transition_risk`; `action` is `none` for a text that is no action.
pub record Transition : Type 0 where
  pub expected_version : ℕ
  pub action : Option RiskAction
  pub reason : Text
  pub idempotency_key : Text
  pub owner_id : Option ℕ
  pub review_date : Option ℕ
  pub evidence_links : List LinkRequest

-- `transitions`
abbrev pub target_of : RiskAction → RiskState
target_of RiskAction.start_mitigation = RiskState.mitigating
target_of RiskAction.accept = RiskState.accepted
target_of RiskAction.resolve = RiskState.resolved
target_of RiskAction.reopen = RiskState.opened

abbrev pub is_closed : RiskState → Bool
is_closed RiskState.accepted = true
is_closed RiskState.resolved = true
is_closed _ = false

abbrev pub new_owner : ℕ → Option ℕ → Option ℕ → Database → Result Error (Option ℕ)
new_owner project none old db = ok old
new_owner project (some user) old db = elim (active_member project user (λ r. true) db) [
  | err e ↦ err e
  | ok owner ↦ ok (some owner)
]

abbrev pub reopened : RiskRecord → Option ℕ → Result Error (Option ℕ) → Result Error RiskRecord
reopened old review_date (err e) = err e
reopened old review_date (ok owner) =
    if not (is_set owner) || not (is_set review_date)
    then err (Error.value Reason.reopening_incomplete)
    else ok (record old {
      owner = owner;
      review_date = review_date;
      closure_rationale = [];
      closed_at = none;
    })

abbrev pub closed : ℕ → Text → RiskRecord → Result Error RiskRecord
closed now reason old =
    if is_blank (strip reason)
    then err (Error.value Reason.closing_needs_rationale)
    else ok (record old { closure_rationale = strip reason; closed_at = some now })

-- What an action asks for and changes, before the state.
unfoldable pub prepare :
    Environment → Transition → RiskAction → RiskRecord → Database → Result Error RiskRecord
prepare env t RiskAction.reopen old db =
    if not (is_closed old.state)
    then err (Error.value Reason.only_closed_reopened)
    else reopened old t.review_date (new_owner old.project t.owner_id old.owner db)
prepare env t RiskAction.accept old db = closed env.now t.reason old
prepare env t RiskAction.resolve old db = closed env.now t.reason old
prepare env t RiskAction.start_mitigation old db = ok old

abbrev pub is_privileged : RiskAction → Bool
is_privileged RiskAction.start_mitigation = false
is_privileged _ = true

abbrev pub supported : Option RiskAction → Result Error RiskAction
supported none = err (Error.value Reason.transition_invalid)
supported (some a) = ok a

unfoldable pub transition_new : Environment → User → RiskRecord → Transition → Step RiskRecord
transition_new env actor old t = do
  raise_if (not (old.version == t.expected_version)) (Error.value Reason.risk_changed)
  action ← check λ _. supported t.action
  changed ← check (prepare env t action old)
  let risk : RiskRecord = record changed { state = target_of action; version = old.version + 1 }
  modify (save_risk risk)
  create_links env actor risk.project (Source.of_risk risk.id) t.evidence_links
  append_risk_revision actor risk old.state t.reason t.idempotency_key
  record_execution_event risk.project actor
      (EventAction.risk_changed action risk.state risk.severity risk.version)
      (Source.of_risk risk.id) (is_privileged action)
  pure risk

abbrev pub is_retry : ℕ → Text → List RiskRevision → Bool
is_retry k key = any (λ r. r.risk == k && text_eq r.idempotency_key key)

abbrev pub unless_retry : Environment → User → RiskRecord → Transition → Bool → Step RiskRecord
unless_retry env actor old t true = pure old
unless_retry env actor old t false = transition_new env actor old t

unfoldable pub transition_risk : Environment → User → ℕ → Transition → Step RiskRecord
transition_risk env actor pk t = atomic do
  old ← get_risk pk
  project ← get_project old.project
  require_capability actor project (λ c. c.can_triage_risks)
  retry ← check λ db. ok (is_retry old.id t.idempotency_key db.revisions)
  unless_retry env actor old t retry

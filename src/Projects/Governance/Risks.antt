-- ===== src/Projects/Governance/Risks.antt =====
-- `raise_risk` and `triage_risk`, and the history of a risk.
pub mod Log
pub mod Runs
pub mod Transitions
pub mod Preparing
pub mod Promises
pub mod Moves
use grad_sync.Prelude.{
  ℕ, suc, ◌+◌, max, Bool, true, false, not, ◌&&◌, ◌||◌, Option, none, some, List, [], ◌∷◌, Text,
  text, strip, is_blank, text_eq, any, find, put, ◌==◌, if◌then◌else◌,
}
use grad_sync.Accounts.{User}
use grad_sync.Projects.Model.{
  ResearchProject, Level, RiskState, SourceType, RiskRecord, RiskRevision, Source,
}
use grad_sync.Projects.Access.{Capabilities, first_where}
use grad_sync.Projects.Governance.{
  Reason, Error, RiskAction, EventAction, Database, Environment, Step, fresh_id, get_project,
  require_capability, active_member, LinkRequest, create_links, record_execution_event,
}
use grad_sync.Transactions.{
  Result, ok, err, Action, pure, check, atomic, ◌>>=◌, ◌>>◌, raise_if, modify, or_raise,
}

-- `RISK_MATRIX`
unfoldable pub risk_matrix : Level → Level → Level
risk_matrix Level.low Level.low = Level.low
risk_matrix Level.low Level.medium = Level.low
risk_matrix Level.low Level.high = Level.medium
risk_matrix Level.medium Level.low = Level.low
risk_matrix Level.medium Level.medium = Level.medium
risk_matrix Level.medium Level.high = Level.high
risk_matrix Level.high Level.low = Level.medium
risk_matrix Level.high Level.medium = Level.high
risk_matrix Level.high Level.high = Level.high

-- `derive_risk_severity`, with the two levels that it was given; a text that is no level is `none`.
unfoldable pub derive_risk_severity :
    Option Level → Option Level → Result Error (Level × Level × Level)
unfolding risk_matrix
derive_risk_severity (some likelihood) (some impact) =
    ok (likelihood, impact, risk_matrix likelihood impact)
derive_risk_severity _ _ = err (Error.value Reason.level_invalid)

-- `risk.revisions.aggregate(value=Max("revision_number"))["value"] or 0`
abbrev pub last_number : ℕ → List RiskRevision → ℕ
last_number k [] = 0
last_number k (r ∷ rs) = max (if r.risk == k then r.revision_number else 0) (last_number k rs)

abbrev pub revision_of : User → RiskRecord → RiskState → Text → Text → Database → RiskRevision
revision_of actor risk previous reason key db = record {
  project = risk.project;
  risk = risk.id;
  revision_number = last_number risk.id db.revisions + 1;
  previous_state = previous;
  new_state = risk.state;
  likelihood = risk.likelihood;
  impact = risk.impact;
  severity = risk.severity;
  owner_id_snapshot = risk.owner;
  treatment = risk.treatment;
  review_date = risk.review_date;
  closure_rationale = risk.closure_rationale;
  actor = actor.id;
  reason = strip reason;
  idempotency_key = key;
}

abbrev pub add_revision : RiskRevision → Database → Database
add_revision r db = record db { revisions = r ∷ db.revisions }

-- `_append_risk_revision`
unfoldable pub append_risk_revision : User → RiskRecord → RiskState → Text → Text → Step (Unit {0})
append_risk_revision actor risk previous reason key =
    modify λ db. add_revision (revision_of actor risk previous reason key db) db

abbrev pub save_risk : RiskRecord → Database → Database
save_risk risk db = record db { risks = put (λ r. r.id) risk db.risks }

abbrev pub source_number : SourceType → ℕ
source_number SourceType.manual = 0
source_number SourceType.report_blocker = 1
source_number SourceType.deliverable = 2
source_number SourceType.decision = 3

-- The keyword arguments of `raise_risk`.
pub record NewRisk : Type 0 where
  pub title : Text
  pub description : Text
  pub source_type : SourceType
  pub source_key : Text
  pub links : List LinkRequest
  pub idempotency_key : Text

abbrev pub by_key : ℕ → Text → List RiskRecord → Option RiskRecord
by_key project key risks =
    if is_blank key
    then none
    else first_where (λ r. r.project == project && text_eq r.idempotency_key key) risks

abbrev pub by_source : ℕ → SourceType → Text → List RiskRecord → Option RiskRecord
by_source project kind key risks =
    if is_blank key
    then none
    else first_where
        (λ r.
          r.project == project
          && source_number r.source_type == source_number kind
          && text_eq r.source_key key)
        risks

abbrev pub or_first : Option RiskRecord → Option RiskRecord → Option RiskRecord
or_first none b = b
or_first (some a) b = some a

-- The risk that the key or the source already has.
unfoldable pub raised_before : ℕ → NewRisk → Database → Option RiskRecord
raised_before project new db =
    or_first (by_key project new.idempotency_key db.risks)
      (by_source project new.source_type new.source_key db.risks)

-- What follows when there is none.
unfoldable pub raise_new : Environment → User → ResearchProject → NewRisk → Step RiskRecord
raise_new env actor project new = do
  key ← fresh_id
  let risk : RiskRecord = record {
    id = key;
    project = project.id;
    title = strip new.title;
    description = strip new.description;
    source_type = new.source_type;
    source_key = new.source_key;
    likelihood = Level.low;
    impact = Level.low;
    severity = Level.low;
    owner = none;
    treatment = [];
    review_date = none;
    state = RiskState.raised;
    closure_rationale = [];
    closed_at = none;
    version = 1;
    raised_by = actor.id;
    idempotency_key = new.idempotency_key;
  }
  modify (save_risk risk)
  create_links env actor project.id (Source.of_risk key) new.links
  append_risk_revision actor risk RiskState.raised (text "Risk raised") []
  record_execution_event project.id actor
      (EventAction.risk_raised risk.state risk.severity risk.version) (Source.of_risk key) false
  pure risk

abbrev pub or_raise_new :
    Environment → User → ResearchProject → NewRisk → Option RiskRecord → Step RiskRecord
or_raise_new env actor project new (some existing) = pure existing
or_raise_new env actor project new none = raise_new env actor project new

unfoldable pub raise_risk : Environment → User → ResearchProject → NewRisk → Step RiskRecord
raise_risk env actor project new = atomic do
  require_capability actor project (λ c. c.can_raise_risks)
  existing ← check λ db. ok (raised_before project.id new db)
  or_raise_new env actor project new existing

abbrev pub get_risk : ℕ → Step RiskRecord
get_risk pk = check λ db. or_raise Error.does_not_exist (find (λ r. r.id) pk db.risks)

-- The keyword arguments of `triage_risk`.
pub record Triage : Type 0 where
  pub expected_version : ℕ
  pub likelihood : Option Level
  pub impact : Option Level
  pub owner_id : ℕ
  pub treatment : Text
  pub review_date : Option ℕ
  pub reason : Text

abbrev pub is_set : Option ℕ → Bool
is_set none = false
is_set (some n) = true

unfoldable pub triage_risk : User → ℕ → Triage → Step RiskRecord
triage_risk actor pk triage = atomic do
  old ← get_risk pk
  project ← get_project old.project
  require_capability actor project (λ c. c.can_triage_risks)
  raise_if (not (old.version == triage.expected_version)) (Error.value Reason.risk_changed)
  owner ← check (active_member project.id triage.owner_id (λ r. true))
  raise_if (is_blank (strip triage.treatment) || not (is_set triage.review_date))
      (Error.value Reason.triage_incomplete)
  levels ← check λ _. derive_risk_severity triage.likelihood triage.impact
  let risk : RiskRecord = record old {
    likelihood = levels.0;
    impact = levels.1;
    severity = levels.2;
    owner = some owner;
    treatment = strip triage.treatment;
    review_date = triage.review_date;
    state = RiskState.opened;
    version = old.version + 1;
  }
  modify (save_risk risk)
  append_risk_revision actor risk old.state triage.reason []
  record_execution_event project.id actor
      (EventAction.risk_triaged risk.state risk.severity risk.version) (Source.of_risk risk.id) true
  pure risk

-- ===== src/Projects/Governance/Decisions.antt =====
-- `publish_decision` and `supersede_decision`.
pub mod Succession
pub mod Promises
use grad_sync.Prelude.{
  ℕ, Bool, true, false, not, ◌&&◌, ◌||◌, Option, none, some, List, [], ◌∷◌, Text, strip, is_blank,
  text_eq, map, length, any, find, put, ltb, ◌==◌, if◌then◌else◌,
}
use grad_sync.Accounts.{User}
use grad_sync.Projects.Model.{
  ResearchProject, Role, DecisionRecord, DecisionStatus, Source, is_primary, is_co_advisor,
}
use grad_sync.Projects.Access.{Capabilities, first_where}
use grad_sync.Projects.Governance.{
  Reason, Error, EventAction, Database, Environment, Step, fresh_id, require_capability,
  active_member, LinkRequest, create_links, record_execution_event,
}
use grad_sync.Transactions.{
  Result, ok, err, Action, pure, check, atomic, ◌>>=◌, ◌>>◌, raise_if, modify,
}

-- `_validate_decision_payload`
unfoldable pub validate_decision_payload : List Text → Result Error (Unit {0})
validate_decision_payload options =
    if ltb (length options) 1 || ltb 20 (length options)
    then err (Error.value Reason.options_count)
    else if any (λ o. is_blank (strip o) || ltb 1_000 (length o)) options
    then err (Error.value Reason.option_length)
    else ok tt

-- The keyword arguments of `publish_decision`; `supersedes` is the key of the predecessor.
pub record NewDecision : Type 0 where
  pub title : Text
  pub context : Text
  pub options_considered : List Text
  pub outcome : Text
  pub rationale : Text
  pub owner_id : ℕ
  pub effective_date : ℕ
  pub links : List LinkRequest
  pub idempotency_key : Text
  pub supersedes : Option ℕ

-- `if idempotency_key and existing`
unfoldable pub published_before : ℕ → Text → Database → Option DecisionRecord
published_before project key db =
    if is_blank key
    then none
    else first_where (λ d. d.project == project && text_eq d.idempotency_key key) db.decisions

abbrev pub is_current : DecisionStatus → Bool
is_current DecisionStatus.current = true
is_current _ = false

abbrev pub supersedes_it : ℕ → DecisionRecord → Bool
supersedes_it pk d = elim d.supersedes [ none ↦ false | some old ↦ old == pk ]

abbrev pub current_predecessor :
    ℕ → Option DecisionRecord → Database → Result Error (Option DecisionRecord)
current_predecessor project none db = err (Error.value Reason.only_current_superseded)
current_predecessor project (some d) db =
    if not (d.project == project) || not (is_current d.status)
    then err (Error.value Reason.only_current_superseded)
    else if any (supersedes_it d.id) db.decisions
    then err (Error.value Reason.has_successor)
    else ok (some d)

-- The decision to supersede, which has to be current and without a successor.
unfoldable pub get_predecessor : ℕ → Option ℕ → Database → Result Error (Option DecisionRecord)
get_predecessor project none db = ok none
get_predecessor project (some pk) db =
    current_predecessor project (find (λ r. r.id) pk db.decisions) db

abbrev pub save_decision : DecisionRecord → Database → Database
save_decision d db = record db { decisions = put (λ r. r.id) d db.decisions }

-- `if predecessor: ... update(status=SUPERSEDED)`
abbrev pub supersede : Option DecisionRecord → Database → Database
supersede none db = db
supersede (some d) db = save_decision (record d { status = DecisionStatus.superseded }) db

abbrev pub key_of : Option DecisionRecord → Option ℕ
key_of none = none
key_of (some d) = some d.id

abbrev pub publication : Option DecisionRecord → EventAction
publication none = EventAction.decision_published
publication (some d) = EventAction.decision_superseded

-- What follows when the decision was not published before.
unfoldable pub publish_new :
    Environment → User → ResearchProject → NewDecision → Step DecisionRecord
publish_new env actor project new = do
  check λ _. validate_decision_payload new.options_considered
  owner ← check (active_member project.id new.owner_id (λ r. is_primary r || is_co_advisor r))
  predecessor ← check (get_predecessor project.id new.supersedes)
  key ← fresh_id
  let decision : DecisionRecord = record {
    id = key;
    project = project.id;
    title = strip new.title;
    context = strip new.context;
    options_considered = map strip new.options_considered;
    outcome = strip new.outcome;
    rationale = strip new.rationale;
    owner = owner;
    effective_date = new.effective_date;
    status = DecisionStatus.current;
    supersedes = key_of predecessor;
    published_by = actor.id;
    idempotency_key = new.idempotency_key;
  }
  modify (save_decision decision)
  modify (supersede predecessor)
  create_links env actor project.id (Source.of_decision key) new.links
  record_execution_event project.id actor (publication predecessor) (Source.of_decision key) true
  pure decision

abbrev pub or_publish :
    Environment → User → ResearchProject → NewDecision → Option DecisionRecord → Step DecisionRecord
or_publish env actor project new (some existing) = pure existing
or_publish env actor project new none = publish_new env actor project new

unfoldable pub publish_decision :
    Environment → User → ResearchProject → NewDecision → Step DecisionRecord
publish_decision env actor project new = atomic do
  require_capability actor project (λ c. c.can_publish_decisions)
  existing ← check λ db. ok (published_before project.id new.idempotency_key db)
  or_publish env actor project new existing

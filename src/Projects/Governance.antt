-- ===== src/Projects/Governance.antt =====
-- backend/apps/projects/decision_risk_services.py: the state, and the functions that decisions and
-- risks share. `Decisions` and `Risks` have the operations.
pub mod Decisions
pub mod Risks
pub mod Steps
use grad_sync.Prelude.{
  ℕ, suc, ◌+◌, max, Bool, true, false, not, ◌&&◌, ◌||◌, Option, none, some, List, [], ◌∷◌, ◌++◌,
  Text, is_blank, length, take, any, find, ltb, ◌==◌, if◌then◌else◌,
}
use grad_sync.Accounts.{User}
use grad_sync.Projects.Model.{
  ResearchProject, ProjectMembership, Role, DecisionRecord, Level, RiskState, RiskRecord,
  RiskRevision, TargetType, Label, Source, ProjectRecordLink, is_live,
}
use grad_sync.Projects.Access.{Capabilities, project_capabilities, first_where}
use grad_sync.Transactions.{
  Result, ok, err, Action, pure, check, ◌>>=◌, ◌>>◌, raise_if, modify, or_raise,
}

-- The messages of `ValueError`.
pub data Reason : Type 0 where
  level_invalid no_eligible_member link_outside_project too_many_links duplicate_link : Reason
  options_count option_length only_current_superseded has_successor : Reason
  risk_changed triage_incomplete transition_invalid only_closed_reopened : Reason
  reopening_incomplete closing_needs_rationale : Reason

pub data Error : Type 0 where
  permission_denied : Error
  value : Reason → Error
  does_not_exist integrity : Error

pub data RiskAction : Type 0 where
  start_mitigation accept resolve reopen : RiskAction

-- The action of the event, with the state that is stored with it.
pub data EventAction : Type 0 where
  decision_published decision_superseded : EventAction
  risk_raised risk_triaged : RiskState → Level → ℕ → EventAction
  risk_changed : RiskAction → RiskState → Level → ℕ → EventAction

pub record Event : Type 0 where
  pub project : ℕ
  pub actor : ℕ
  pub action : EventAction
  pub target : Source
  pub privileged : Bool

-- The tables. The revisions stand with the newest first; `next_id` is above every key in use.
pub record Database : Type 0 where
  pub projects : List ResearchProject
  pub memberships : List ProjectMembership
  pub decisions : List DecisionRecord
  pub risks : List RiskRecord
  pub revisions : List RiskRevision
  pub links : List ProjectRecordLink
  pub events : List Event
  pub next_id : ℕ

-- The time, and the query for a row of another component's table by its project and key, with the
-- row's title.
pub record Environment : Type 0 where
  pub now : ℕ
  pub target : TargetType → ℕ → ℕ → Option Text

abbrev pub Step : Type 0 → Type 0
Step A = Action Database Error A

unfoldable pub fresh_id : Step ℕ
fresh_id = do
  key ← check λ db. ok db.next_id
  modify λ db. record db { next_id = suc db.next_id }
  pure key

abbrev pub get_project : ℕ → Step ResearchProject
get_project pk = check λ db. or_raise Error.does_not_exist (find (λ r. r.id) pk db.projects)

-- `_require_capability`
unfoldable pub require_capability : User → ResearchProject → (Capabilities → Bool) → Step (Unit {0})
require_capability actor project capability = check λ db.
    if capability (project_capabilities actor project db.memberships)
    then ok tt
    else err Error.permission_denied

abbrev pub is_eligible : ℕ → ℕ → (Role → Bool) → ProjectMembership → Bool
is_eligible project user roles m =
    m.project == project && m.user == user && is_live m.status && roles m.role

abbrev pub user_of : Option ProjectMembership → Result Error ℕ
user_of none = err (Error.value Reason.no_eligible_member)
user_of (some m) = ok m.user

-- `_active_member`; where no roles are given, `roles` holds of every role.
unfoldable pub active_member : ℕ → ℕ → (Role → Bool) → Database → Result Error ℕ
active_member project user roles db =
    user_of (first_where (is_eligible project user roles) db.memberships)

-- One element of the argument `links`; the type is `none` for a text that is no type.
pub record LinkRequest : Type 0 where
  pub target_type : Option TargetType
  pub target_id : ℕ

abbrev pub decision_title : ℕ → Option DecisionRecord → Option Text
decision_title project none = none
decision_title project (some d) = if d.project == project then some d.title else none

abbrev pub risk_title : ℕ → Option RiskRecord → Option Text
risk_title project none = none
risk_title project (some r) = if r.project == project then some r.title else none

unfoldable pub target_title : Environment → ℕ → TargetType → ℕ → Database → Option Text
target_title env project TargetType.decision pk db =
    decision_title project (find (λ r. r.id) pk db.decisions)
target_title env project TargetType.risk pk db = risk_title project (find (λ r. r.id) pk db.risks)
target_title env project kind pk db = env.target kind project pk

-- `getattr(target, "title", None) or ...`, cut to 255 characters
abbrev pub label_of : TargetType → ℕ → Text → Label
label_of kind pk title =
    if is_blank title then Label.numbered kind pk else Label.titled (take 255 title)

-- `_target_snapshot`
unfoldable pub target_snapshot :
    Environment → ℕ → LinkRequest → Database → Result Error (TargetType × Label)
unfolding target_title
target_snapshot env project link db = elim link.target_type [
  | none ↦ err (Error.value Reason.link_outside_project)
  | some kind ↦ elim (target_title env project kind link.target_id db) [
    | none ↦ err (Error.value Reason.link_outside_project)
    | some title ↦ ok (kind, label_of kind link.target_id title)
  ]
]

abbrev pub type_number : TargetType → ℕ
type_number TargetType.milestone = 0
type_number TargetType.deliverable = 1
type_number TargetType.project_material = 2
type_number TargetType.report = 3
type_number TargetType.decision = 4
type_number TargetType.risk = 5
type_number TargetType.task = 6

abbrev pub same_target : TargetType → ℕ → ProjectRecordLink → Bool
same_target kind pk row =
    type_number row.target_type_snapshot == type_number kind && row.target_id_snapshot == pk

-- The loop over the links, with the rows so far.
unfoldable pub link_rows :
    Environment
    → User
    → ℕ
    → Source
    → Database
    → List LinkRequest
    → List ProjectRecordLink
    → Result Error (List ProjectRecordLink)
link_rows env actor project source db [] rows = ok rows
link_rows env actor project source db (link ∷ links) rows =
    elim (target_snapshot env project link db) [
      | err e ↦ err e
      | ok (kind, label) ↦
          if any (same_target kind link.target_id) rows
          then err (Error.value Reason.duplicate_link)
          else link_rows env actor project source db links (
              rows
              ++ record {
                project = project;
                source = source;
                target_type_snapshot = kind;
                target_id_snapshot = link.target_id;
                label_snapshot = label;
                created_by = actor.id;
              }
                ∷ [])
    ]

abbrev pub same_source : Source → Source → Bool
same_source (Source.of_decision a) (Source.of_decision b) = a == b
same_source (Source.of_risk a) (Source.of_risk b) = a == b
same_source _ _ = false

-- The unique constraints on the decision or the risk of a link and its target.
abbrev pub is_linked : List ProjectRecordLink → ProjectRecordLink → Bool
is_linked rows row =
    any
      (λ old.
        same_source old.source row.source
        && same_target row.target_type_snapshot row.target_id_snapshot old)
      rows

-- `_create_links`
unfoldable pub create_links : Environment → User → ℕ → Source → List LinkRequest → Step (Unit {0})
create_links env actor project source links = do
  raise_if (ltb 100 (length links)) (Error.value Reason.too_many_links)
  rows ← check λ db. link_rows env actor project source db links []
  check λ db. if any (is_linked db.links) rows then err Error.integrity else ok tt
  modify λ db. record db { links = db.links ++ rows }

abbrev pub add_event : ℕ → User → EventAction → Source → Bool → Database → Database
add_event project actor action target privileged db = record db {
  events =
      db.events
      ++ record {
        project = project;
        actor = actor.id;
        action = action;
        target = target;
        privileged = privileged;
      }
        ∷ [];
}

-- `record_execution_event`
abbrev pub record_execution_event : ℕ → User → EventAction → Source → Bool → Step (Unit {0})
record_execution_event project actor action target privileged =
    modify (add_event project actor action target privileged)

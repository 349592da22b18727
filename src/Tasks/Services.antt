-- ===== src/Tasks/Services.antt =====
-- `TaskService.create_task`, `update_task` and `_resolve_assignees`.
pub mod Promises
use grad_sync.Prelude.{
  ℕ, suc, Bool, true, false, not, ◌&&◌, ◌||◌, Option, none, some, List, [], ◌∷◌, ◌++◌, Text, any,
  ◌==◌, if◌then◌else◌,
}
use grad_sync.Accounts.{User}
use grad_sync.Projects.Model.{
  ResearchProject, ProjectMembership, is_live, is_primary, is_co_advisor, is_active_project,
}
use grad_sync.Tasks.{
  TaskStatus, Priority, Task, Reason, Error, EventType, Event, Database, Step, is_member,
  full_clean, stored_assignees, find_task, save_task,
}
use grad_sync.Transactions.{Result, ok, err, Action, pure, check, ◌>>=◌, ◌>>◌, raise_if, modify}

-- `user_is_active_project_member`
abbrev pub is_active_member : User → ℕ → Database → Bool
is_active_member user project db = user.is_authenticated && is_member project user.id db.memberships

-- The filter on the roles `advisor` and `co_advisor`
abbrev pub is_advising : User → ℕ → Database → Bool
is_advising user project db =
    any
      (λ m.
        m.project == project
        && m.user == user.id
        && is_live m.status
        && (is_primary m.role || is_co_advisor m.role))
      db.memberships

abbrev pub guard : (Database → Bool) → Error → Step (Unit {0})
guard c e = check λ db. if c db then ok tt else err e

-- `require_project_member` and `ensure_project_writable`
unfoldable pub require_writable : User → ResearchProject → Step (Unit {0})
require_writable user project = do
  guard (is_active_member user project.id) Error.permission_denied
  raise_if (not (is_active_project project.status)) Error.permission_denied

-- `normalized_ids`: the first of equal keys stays.
unfoldable pub normalized : List ℕ → List ℕ → List ℕ
normalized seen [] = seen
normalized seen (k ∷ ks) = normalized (if any (λ n. n == k) seen then seen else seen ++ k ∷ []) ks

-- `_resolve_assignees`; every key of a membership is one of a user.
unfoldable pub resolve_assignees : ℕ → Option (List ℕ) → Database → Result Error (List ℕ)
unfolding normalized
resolve_assignees project none db = ok []
resolve_assignees project (some ids) db =
    let keys = normalized [] ids in
    if any (λ k. not (is_member project k db.memberships)) keys
    then err (Error.validation Reason.assignees_not_members)
    else ok keys

abbrev pub first_of : List ℕ → Option ℕ
first_of [] = none
first_of (k ∷ ks) = some k

abbrev pub or_else : Option ℕ → Option ℕ → Option ℕ
or_else none b = b
or_else (some a) b = some a

abbrev pub add_event : ℕ → User → EventType → ℕ → Database → Database
add_event project user event_type target db = record db {
  events =
      db.events
      ++ record { project = project; actor = user.id; event_type = event_type; target = target }
        ∷ [];
}

-- The arguments of `create_task`; what `extra` leaves out is the default of the column.
pub record NewTask : Type 0 where
  pub title : Text
  pub description : Text
  pub parent_task : Option ℕ
  pub assignee : Option ℕ
  pub assignee_ids : Option (List ℕ)
  pub status : TaskStatus
  pub priority : Priority
  pub deadline_at : Option ℕ

unfoldable pub create_task : User → ResearchProject → NewTask → Step Task
create_task user project new = do
  guard (is_active_member user project.id) Error.permission_denied
  guard (is_advising user project.id) Error.permission_denied
  raise_if (not (is_active_project project.status)) Error.permission_denied
  assignees ← check (resolve_assignees project.id new.assignee_ids)
  key ← check λ db. ok db.next_id
  let task : Task = record {
    id = key;
    project = project.id;
    parent_task = new.parent_task;
    title = new.title;
    description = new.description;
    assignee = or_else new.assignee (first_of assignees);
    assignees = assignees;
    status = new.status;
    priority = new.priority;
    deadline_at = new.deadline_at;
    created_by = user.id;
    completed_at = none;
  }
  check (full_clean task)
  modify λ db. save_task task (record db { next_id = suc db.next_id })
  modify (add_event project.id user EventType.task_created key)
  pure task

-- The keyword arguments of `update_task`; the outer `none` is an argument that is not given.
pub record TaskUpdate : Type 0 where
  pub title : Option Text
  pub description : Option Text
  pub parent_task : Option (Option ℕ)
  pub assignee : Option (Option ℕ)
  pub assignee_ids : Option (List ℕ)
  pub status : Option TaskStatus
  pub priority : Option Priority
  pub deadline_at : Option (Option ℕ)

abbrev pub is_given {ℓ} : {A : Type ℓ} → Option A → Bool
is_given none = false
is_given (some a) = true

-- `advisor_only_fields.intersection(attrs)`
abbrev pub plans : TaskUpdate → Bool
plans attrs =
    is_given attrs.title
    || is_given attrs.description
    || is_given attrs.parent_task
    || is_given attrs.assignee
    || is_given attrs.assignee_ids
    || is_given attrs.priority
    || is_given attrs.deadline_at

abbrev pub given {ℓ} : {A : Type ℓ} → Option A → A → A
given none old = old
given (some new) old = new

-- `data["assignee"]`, which the list of assignees overrides
abbrev pub new_assignee : TaskUpdate → List ℕ → Option ℕ → Option ℕ
new_assignee attrs assignees old =
    if is_given attrs.assignee_ids then first_of assignees else given attrs.assignee old

abbrev pub is_completed : TaskStatus → Bool
is_completed TaskStatus.completed = true
is_completed _ = false

abbrev pub completes : Option TaskStatus → Bool
completes none = false
completes (some s) = is_completed s

abbrev pub status_number : TaskStatus → ℕ
status_number TaskStatus.not_started = 0
status_number TaskStatus.in_progress = 1
status_number TaskStatus.blocked = 2
status_number TaskStatus.submitted = 3
status_number TaskStatus.completed = 4
status_number TaskStatus.cancelled = 5

abbrev pub change_event : TaskStatus → TaskStatus → EventType
change_event old new =
    if status_number old == status_number new
    then EventType.task_updated
    else EventType.task_status_changed old new

abbrev pub is_same : ℕ → Option ℕ → Bool
is_same user none = false
is_same user (some k) = k == user

-- The object is the one that the caller has read; its assignees are rows of a table of their own,
-- which is read and, when the argument is given, written. `now` is the time.
unfoldable pub update_task : ℕ → User → ResearchProject → Task → TaskUpdate → Step Task
update_task now user project old attrs = do
  require_writable user project
  advisor ← check λ db. ok (is_advising user project.id db)
  stored ← check λ db. ok (stored_assignees (find_task old.id db.tasks))
  raise_if (not (advisor || is_same user.id old.assignee || any (λ k. k == user.id) stored))
      Error.permission_denied
  raise_if (not advisor && plans attrs) Error.permission_denied
  assignees ← check (resolve_assignees project.id attrs.assignee_ids)
  let task : Task = record old {
    title = given attrs.title old.title;
    description = given attrs.description old.description;
    parent_task = given attrs.parent_task old.parent_task;
    assignee = new_assignee attrs assignees old.assignee;
    assignees = if is_given attrs.assignee_ids then assignees else stored;
    status = given attrs.status old.status;
    priority = given attrs.priority old.priority;
    deadline_at = given attrs.deadline_at old.deadline_at;
    completed_at = if completes attrs.status then some now else old.completed_at;
  }
  check (full_clean task)
  modify (save_task task)
  modify (add_event project.id user (change_event old.status task.status) task.id)
  pure task

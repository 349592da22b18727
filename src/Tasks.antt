-- ===== src/Tasks.antt =====
-- The tasks of a project: backend/apps/tasks/{models,services}.py, with what they use of
-- backend/apps/common/project_scope.py and backend/apps/projects/archive_services.py.
pub mod Hierarchy
pub mod Services
mod Tests
use grad_sync.Prelude.{
  ℕ, zero, suc, Bool, true, false, not, ◌&&◌, ◌||◌, Option, none, some, List, [], ◌∷◌, Text,
  is_blank, length, any, find, put, ltb, ◌==◌, if◌then◌else◌,
}
use grad_sync.Projects.Model.{ProjectMembership, is_live}
use grad_sync.Transactions.{Result, ok, err, Action}

pub data TaskStatus : Type 0 where
  not_started in_progress blocked submitted completed cancelled : TaskStatus

pub data Priority : Type 0 where
  low normal high urgent : Priority

pub record Task : Type 0 where
  pub id : ℕ
  pub project : ℕ
  pub parent_task : Option ℕ
  pub title : Text
  pub description : Text
  pub assignee : Option ℕ
  pub assignees : List ℕ
  pub status : TaskStatus
  pub priority : Priority
  pub deadline_at : Option ℕ
  pub created_by : ℕ
  pub completed_at : Option ℕ

pub data Reason : Type 0 where
  parent_in_other_project deadline_after_parent hierarchy_cycle : Reason
  assignee_not_member assignees_not_members invalid_title : Reason

-- `endless` is the loop that is cut off; `walk_ends` in `Hierarchy` excludes it.
pub data Error : Type 0 where
  permission_denied : Error
  validation : Reason → Error
  does_not_exist endless : Error

pub data EventType : Type 0 where
  task_created task_updated : EventType
  task_status_changed : TaskStatus → TaskStatus → EventType

-- Project, actor, what happened, and the task.
pub record Event : Type 0 where
  pub project : ℕ
  pub actor : ℕ
  pub event_type : EventType
  pub target : ℕ

pub record Database : Type 0 where
  pub tasks : List Task
  pub memberships : List ProjectMembership
  pub events : List Event
  pub next_id : ℕ

abbrev pub Step : Type 0 → Type 0
Step A = Action Database Error A

abbrev pub find_task : ℕ → List Task → Option Task
find_task = find (λ t. t.id)

-- `parent.pk in seen`
abbrev pub is_seen : ℕ → List ℕ → Bool
is_seen k = any (λ n. n == k)

-- The loop up the parents, from the key of one on.
unfoldable pub walk : ℕ → List Task → List ℕ → Option ℕ → Result Error (Unit {0})
walk fuel rows seen none = ok tt
walk zero rows seen (some k) = err Error.endless
walk (suc fuel) rows seen (some k) =
    if is_seen k seen
    then err (Error.validation Reason.hierarchy_cycle)
    else elim (find_task k rows) [
      | none ↦ err Error.does_not_exist
      | some parent ↦ walk fuel rows (k ∷ seen) parent.parent_task
    ]

-- `deadline_at > parent.deadline_at`, where both are set
abbrev pub is_later : Option ℕ → Option ℕ → Bool
is_later (some a) (some b) = ltb b a
is_later _ _ = false

abbrev pub is_member : ℕ → ℕ → List ProjectMembership → Bool
is_member project user = any (λ m. m.project == project && m.user == user && is_live m.status)

abbrev pub is_foreign : ℕ → Option ℕ → List ProjectMembership → Bool
is_foreign project none memberships = false
is_foreign project (some user) memberships = not (is_member project user memberships)

-- The tests on the parent that need its row.
unfoldable pub parent_check : Task → Option Task → Result Error (Unit {0})
parent_check task none = ok tt
parent_check task (some parent) =
    if not (parent.project == task.project)
    then err (Error.validation Reason.parent_in_other_project)
    else if is_later task.deadline_at parent.deadline_at
    then err (Error.validation Reason.deadline_after_parent)
    else ok tt

abbrev pub parent_row : Option ℕ → List Task → Result Error (Option Task)
parent_row none rows = ok none
parent_row (some k) rows = elim (find_task k rows) [
  | none ↦ err Error.does_not_exist
  | some parent ↦ ok (some parent)
]

abbrev pub then_check : Result Error (Unit {0}) → Result Error (Unit {0}) → Result Error (Unit {0})
then_check (err e) next = err e
then_check (ok u) next = next

abbrev pub with_parent : Task → Result Error (Option Task) → Result Error (Unit {0})
with_parent task (err e) = err e
with_parent task (ok parent) = parent_check task parent

-- `Task.clean`. The loop has as much fuel as there are rows, and one more.
unfoldable pub clean : Task → Database → Result Error (Unit {0})
clean task db = then_check (with_parent task (parent_row task.parent_task db.tasks)) (
    then_check (walk (suc (length db.tasks)) db.tasks (task.id ∷ []) task.parent_task) (
      if is_foreign task.project task.assignee db.memberships
      then err (Error.validation Reason.assignee_not_member)
      else ok tt))

-- What `full_clean` asks of the columns themselves: of those that the types leave open, the title may
-- not be empty or longer than 255 characters.
abbrev pub has_valid_title : Task → Bool
has_valid_title task = not (is_blank task.title) && not (ltb 255 (length task.title))

-- `self.full_clean()`
abbrev pub full_clean : Task → Database → Result Error (Unit {0})
full_clean task db =
    then_check (if has_valid_title task then ok tt else err (Error.validation Reason.invalid_title))
      (clean task db)

-- The rows of the many-to-many table for a task.
abbrev pub stored_assignees : Option Task → List ℕ
stored_assignees none = []
stored_assignees (some task) = task.assignees

abbrev pub save_task : Task → Database → Database
save_task task db = record db { tasks = put (λ t. t.id) task db.tasks }

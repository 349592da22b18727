-- ===== src/Tasks/Tests.antt =====
-- A small hierarchy of tasks, on which the theorems are tried out.
use grad_sync.Prelude.{
  ℕ, ◌||◌, any, ◌==◌, ◌≢◌, suc, ◌≡◌, ◌≢◌, refl, sym, subst, inl, inr, true, none, some, List, [],
  ◌∷◌, text, length, find-put_cases,
}
use grad_sync.Accounts.{RequestedRole, User, GlobalRole, UserStatus}
use grad_sync.Projects.Model.{
  ResearchProject, ProjectStatus, GovernanceState, MembershipStatus, Role,
}
use grad_sync.Tasks.{
  TaskStatus, Priority, Task, Error, Database, find_task, walk, clean, parent_check,
}
use grad_sync.Tasks.Hierarchy.{Rooted, AreRooted, walk_ends}
use grad_sync.Tasks.Services.{
  is_same, NewTask, create_task, TaskUpdate, update_task, require_writable, resolve_assignees,
}
use grad_sync.Tasks.Services.Promises.{
  with_status, create_task-AreRooted, update_task-AreRooted, update_task-assignee,
}
use grad_sync.Transactions.{ok, err, statements}

abbrev worker : User
worker = record {
  id = 2;
  is_authenticated = true;
  status = UserStatus.active;
  global_role = GlobalRole.student;
  email_verified_at = some 10;
  active_role = RequestedRole.teacher;
}

abbrev thesis : ResearchProject
thesis = record {
  id = 5;
  advisor = 1;
  status = ProjectStatus.active;
  title = [];
  description = [];
  starts_on = none;
  ends_on = none;
  archived_at = none;
  governance_state = GovernanceState.normal;
  governance_hold_reason = none;
  governance_hold_started_at = none;
  governance_hold_resolved_at = none;
  governance_hold_resolved_by = none;
  governance_hold_resolution_reason = [];
  governance_version = 1;
}

abbrev chapter : Task
chapter = record {
  id = 7;
  project = 5;
  parent_task = none;
  title = text "chapter";
  description = [];
  assignee = some 2;
  assignees = 2 ∷ [];
  status = TaskStatus.in_progress;
  priority = Priority.normal;
  deadline_at = some 900;
  created_by = 1;
  completed_at = none;
}

abbrev section : Task
section = record chapter { id = 8; parent_task = some 7; deadline_at = some 800 }

abbrev board : Database
board = record {
  tasks = chapter ∷ [];
  memberships =
      record {
        id = 6;
        project = 5;
        user = 2;
        role = Role.student;
        status = MembershipStatus.active;
        removed_at = none;
        assigned_by = none;
        assignment_reason = [];
        role_changed_at = none;
        version = 1;
      }
      ∷ [];
  events = [];
  next_id = 8;
}

board-AreRooted : AreRooted board.tasks
unfolding AreRooted
board-AreRooted k t found = elim (find-put_cases (λ r. r.id) k chapter [] found) [
  | inl (e, same) ↦ subst (Rooted board.tasks) (sym e) (Rooted.root chapter refl refl)
  | inr (away, nowhere) ↦ absurd (nothing nowhere)
]
  where
    nothing : none ≡ some t → ⊥
    nothing e = cc

-- Two tasks that are the parents of each other.
abbrev loop : List Task
loop = record chapter { parent_task = some 8 } ∷ section ∷ []

walk_ends_example : walk (suc (length loop)) loop [] (some 7) ≢ err Error.endless
walk_ends_example = walk_ends loop [] (some 7)

abbrev new_section : NewTask
new_section = record {
  title = text "section";
  description = [];
  parent_task = some 7;
  assignee = none;
  assignee_ids = some (2 ∷ []);
  status = TaskStatus.not_started;
  priority = Priority.normal;
  deadline_at = some 800;
}

abbrev done : TaskUpdate
done = record {
  title = none;
  description = none;
  parent_task = none;
  assignee = none;
  assignee_ids = none;
  status = some TaskStatus.completed;
  priority = none;
  deadline_at = none;
}

create_task-AreRooted_example : AreRooted (create_task worker thesis new_section board).1.tasks
create_task-AreRooted_example =
    create_task-AreRooted worker thesis new_section board board-AreRooted

update_task-AreRooted_example : AreRooted (update_task 500 worker thesis chapter done board).1.tasks
update_task-AreRooted_example =
    update_task-AreRooted 500 worker thesis chapter done board board-AreRooted

done_board : Database
unfolding update_task statements
done_board = (update_task 500 worker thesis chapter done board).1

abbrev done_chapter : Task
done_chapter = record chapter { status = TaskStatus.completed; completed_at = some 500 }

done_run : update_task 500 worker thesis chapter done board ≡ (ok done_chapter, done_board)
unfolding done_board update_task statements require_writable resolve_assignees clean walk
    parent_check
done_run = refl

update_task-assignee_example :
    ((is_same 2 chapter.assignee || any (λ k. k == 2) chapter.assignees) ≡ true)
    × (find_task 7 done_board.tasks ≡ some (with_status 500 done.status chapter))
    × ((k : ℕ) → k ≢ 7 → find_task k done_board.tasks ≡ find_task k board.tasks)
update_task-assignee_example =
    update_task-assignee 500 worker thesis chapter done board done_board done_chapter done_run refl
      refl

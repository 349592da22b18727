-- ===== src/Tasks/Services/Promises.antt =====
-- What the operations on tasks promise.
use grad_sync.Prelude.{
  ℕ, ◌≡◌, ◌≢◌, refl, ap, sym, subst, ◌∙◌, Bool, true, false, not, ◌&&◌, ◌||◌, Option, none, some,
  List, any, ◌==◌, arith, find-put_self, find-put_ne, if◌then◌else◌,
}
use grad_sync.Accounts.{User}
use grad_sync.Projects.Model.{ResearchProject}
use grad_sync.Tasks.{Task, TaskStatus, Error, Database, find_task, then_check, stored_assignees}
use grad_sync.Tasks.Hierarchy.{AreRooted, clean-AreRooted}
use grad_sync.Tasks.Services.{
  NewTask, create_task, TaskUpdate, update_task, require_writable, is_advising, plans, given,
  completes, is_same, is_given, new_assignee,
}
use grad_sync.Transactions.{Result, ok, err, pure, check, ◌>>=◌, raise_if}
use grad_sync.Transactions.Runs.{
  check-keeps, bind-keeps, raise_if-keeps, modify-keeps, check_ok, raise_if_ok, modify_ok, bind_ok,
  returns, ok_eq,
}

-- What passes two tests passes the second.
then_ok : (a b : Result Error (Unit {0})) {v : Unit {0}} → then_check a b ≡ ok v → b ≡ ok tt
then_ok (err e) b h = cc
then_ok (ok u) b h = h

-- Creating a task keeps the hierarchy of tasks without cycles, whether it is accepted or not.
pub create_task-AreRooted :
    (user : User) (project : ResearchProject) (new : NewTask) (db : Database)
    → AreRooted db.tasks
    → AreRooted (create_task user project new db).1.tasks
unfolding create_task pure
create_task-AreRooted user project new db rooted = check-keeps Q db _ _ rooted λ u member.
    check-keeps Q db _ _ rooted λ v advising. raise_if-keeps Q db _ _ _ rooted λ writable.
      check-keeps Q db _ _ rooted λ assignees resolved. check-keeps Q db _ _ rooted λ key fresh.
        check-keeps Q db _ _ rooted λ w passes.
          modify-keeps Q db _ _
            (modify-keeps Q _ _ _ (clean-AreRooted _ db (then_ok _ _ passes) rooted))
  where
    Q : Database → Type 0
    Q d = AreRooted d.tasks

-- The guards write nothing.
require_writable_same :
    (user : User) (project : ResearchProject) (db : Database)
    → (require_writable user project db).1 ≡ db
unfolding require_writable check raise_if ◌>>=◌
require_writable_same user project db = ground arith

-- Changing a task, also through a stale object, keeps the hierarchy of tasks without cycles, whether
-- the change is accepted or not.
pub update_task-AreRooted :
    (now : ℕ) (user : User) (project : ResearchProject) (old : Task) (attrs : TaskUpdate)
    (db : Database)
    → AreRooted db.tasks
    → AreRooted (update_task now user project old attrs db).1.tasks
unfolding update_task require_writable pure
update_task-AreRooted now user project old attrs db rooted =
    bind-keeps Q db _ _ (require_writable_same user project db) rooted λ u.
      check-keeps Q db _ _ rooted λ advisor known. check-keeps Q db _ _ rooted λ stored read.
        raise_if-keeps Q db _ _ _ rooted λ allowed. raise_if-keeps Q db _ _ _ rooted λ planned.
          check-keeps Q db _ _ rooted λ assignees resolved. check-keeps Q db _ _ rooted λ w passes.
            modify-keeps Q db _ _
              (modify-keeps Q _ _ _ (clean-AreRooted _ db (then_ok _ _ passes) rooted))
  where
    Q : Database → Type 0
    Q d = AreRooted d.tasks

-- A change without planning fields.
unplanned_same :
    (now : ℕ) (old : Task) (attrs : TaskUpdate) (assignees stored : List ℕ)
    → plans attrs ≡ false
    → stored ≡ old.assignees
    → ◌≡◌ {A = Task}
        (record old {
          title = given attrs.title old.title;
          description = given attrs.description old.description;
          parent_task = given attrs.parent_task old.parent_task;
          assignee = new_assignee attrs assignees old.assignee;
          assignees = if is_given attrs.assignee_ids then assignees else stored;
          status = given attrs.status old.status;
          priority = given attrs.priority old.priority;
          deadline_at = given attrs.deadline_at old.deadline_at;
          completed_at = if completes attrs.status then some now else old.completed_at;
        })
        (record old {
          status = given attrs.status old.status;
          completed_at = if completes attrs.status then some now else old.completed_at;
        })
unplanned_same now old attrs assignees stored none_planned same =
    let title : given attrs.title old.title ≡ old.title = ground arith in
    let description : given attrs.description old.description ≡ old.description = ground arith in
    let parent : given attrs.parent_task old.parent_task ≡ old.parent_task = ground arith in
    let assignee : new_assignee attrs assignees old.assignee ≡ old.assignee = ground arith in
    let several : (if is_given attrs.assignee_ids then assignees else stored) ≡ old.assignees =
      ground arith in
    let priority : given attrs.priority old.priority ≡ old.priority = ground arith in
    let deadline : given attrs.deadline_at old.deadline_at ≡ old.deadline_at = ground arith in
    λ i. record old {
      title = title i;
      description = description i;
      parent_task = parent i;
      assignee = assignee i;
      assignees = several i;
      status = given attrs.status old.status;
      priority = priority i;
      deadline_at = deadline i;
      completed_at = if completes attrs.status then some now else old.completed_at;
    }

-- A task with another status, if one is asked for.
abbrev pub with_status : ℕ → Option TaskStatus → Task → Task
with_status now none old = old
with_status now (some TaskStatus.completed) old = record old {
  status = TaskStatus.completed;
  completed_at = some now;
}
with_status now (some s) old = record old { status = s }

with_status_lem :
    (now : ℕ) (s : Option TaskStatus) (old : Task)
    → ◌≡◌ {A = Task}
        (record old {
          status = given s old.status;
          completed_at = if completes s then some now else old.completed_at;
        })
        (with_status now s old)
with_status_lem now none old = refl
with_status_lem now (some TaskStatus.not_started) old = refl
with_status_lem now (some TaskStatus.in_progress) old = refl
with_status_lem now (some TaskStatus.blocked) old = refl
with_status_lem now (some TaskStatus.submitted) old = refl
with_status_lem now (some TaskStatus.completed) old = refl
with_status_lem now (some TaskStatus.cancelled) old = refl

-- What a user who is not an advisor of the project does to a task that was read as it is stored: a
-- change that is accepted is one by an assignee. The stored task is what it was, but for its status,
-- which is the one that was asked for, if any, and its time of completion, which is the time of the
-- change when it completes the task and stays otherwise. Every other task is what it was.
pub update_task-assignee :
    (now : ℕ) (user : User) (project : ResearchProject) (old : Task) (attrs : TaskUpdate)
    (db db' : Database) (task : Task)
    → update_task now user project old attrs db ≡ (ok task, db')
    → find_task old.id db.tasks ≡ some old
    → is_advising user project.id db ≡ false
    → ((is_same user.id old.assignee || any (λ k. k == user.id) old.assignees) ≡ true)
      × (find_task old.id db'.tasks ≡ some (with_status now attrs.status old))
      × ((k : ℕ) → k ≢ old.id → find_task k db'.tasks ≡ find_task k db.tasks)
unfolding update_task
update_task-assignee now user project old attrs db db' task h current outsider =
    bind_ok _ _ _ h λ u mid writable h1. check_ok _ _ _ h1 λ advisor known h2.
      check_ok _ _ _ h2 λ stored read h3. raise_if_ok _ _ _ _ h3 λ allowed h4.
        raise_if_ok _ _ _ _ h4 λ planned h5. check_ok _ _ _ h5 λ assignees resolved h6.
          check_ok _ _ _ h6 λ w passes h7. modify_ok _ _ _ h7 λ h8. modify_ok _ _ _ h8 λ h9.
            let same : mid ≡ db =
              sym (ap (λ (r : Result Error (Unit {0}) × Database). r.1) writable)
              ∙ require_writable_same user project db in
            let none_advising : advisor ≡ false =
              sym (ok_eq known) ∙ ap (is_advising user project.id) same ∙ outsider in
            let unplanned : plans attrs ≡ false = last_false _ _ none_advising planned in
            let rows : stored ≡ old.assignees =
              sym (ok_eq read)
              ∙ ap (λ (d : Database). stored_assignees (find_task old.id d.tasks)) same
              ∙ ap stored_assignees current in
            returns
              (λ (b : Task) (d : Database).
                ((is_same user.id old.assignee || any (λ k. k == user.id) old.assignees) ≡ true)
                × (find_task old.id d.tasks ≡ some (with_status now attrs.status old))
                × ((k : ℕ) → k ≢ old.id → find_task k d.tasks ≡ find_task k db.tasks))
              _ h9
              (
                assigned stored advisor rows none_advising allowed,
                find-put_self (λ t. t.id) _ mid.tasks
                    ∙ ap (λ x. some x)
                        (unplanned_same now old attrs assignees stored unplanned rows
                          ∙ with_status_lem now attrs.status old),
                λ k away.
                    find-put_ne (λ t. t.id) k _ mid.tasks away
                    ∙ ap (λ (d : Database). find_task k d.tasks) same,
              )
  where
    last_false : (a p : Bool) → a ≡ false → (not a && p) ≡ false → p ≡ false
    last_false a p x y = ground arith

    assigned :
        (stored : List ℕ) (advisor : Bool)
        → stored ≡ old.assignees
        → advisor ≡ false
        → not (advisor || is_same user.id old.assignee || any (λ k. k == user.id) stored) ≡ false
        → (is_same user.id old.assignee || any (λ k. k == user.id) old.assignees) ≡ true
    assigned stored advisor rows outside passes =
        subst (λ l. (is_same user.id old.assignee || any (λ k. k == user.id) l) ≡ true) rows
          (ground arith)

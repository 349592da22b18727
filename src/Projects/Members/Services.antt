-- ===== src/Projects/Members/Services.antt =====
-- backend/apps/projects/services.py (ProjectService) and archive_services.py.
use grad_sync.Prelude.{
  contains, ℕ, Bool, true, false, not, ◌&&◌, ◌||◌, Option, none, some, List, [], ◌∷◌, Text, any,
  select, find, ◌==◌, if◌then◌else◌,
}
use grad_sync.Accounts.{User, is_active, is_student_role, is_student_account}
use grad_sync.Projects.Model.{
  ResearchProject, ProjectStatus, GovernanceState, Role, MembershipStatus, ProjectMembership,
  is_live, is_primary, is_active_project,
}
use grad_sync.Projects.Access.{Capabilities, project_capabilities, first_where}
use grad_sync.Projects.Members.{
  Reason, Error, EventType, Subject, Database, Step, fresh_id, get_project, save_membership,
  new_membership, store_project, record_event, notify, is_row_of,
}
use grad_sync.Projects.Members.Collaborators.{is_eligible_teacher, is_live_row, row_for}
use grad_sync.Transactions.{
  Result, ok, err, pure, check, atomic, ◌>>=◌, ◌>>◌, raise_if, modify, or_raise,
}

abbrev pub require : User → ResearchProject → (Capabilities → Bool) → Step (Unit {0})
require actor project capability = check λ db.
    if capability (project_capabilities actor project db.memberships)
    then ok tt
    else err Error.permission_denied

-- `ensure_project_writable`
abbrev pub ensure_project_writable : ResearchProject → Step (Unit {0})
ensure_project_writable project =
    raise_if (not (is_active_project project.status)) Error.permission_denied

-- `can_create_projects`
abbrev pub can_create_projects : User → Bool
can_create_projects user = user.is_authenticated && is_eligible_teacher user

abbrev pub has_duplicates : List ℕ → Bool
has_duplicates [] = false
has_duplicates (k ∷ keys) = contains k keys || has_duplicates keys

abbrev pub is_active_student : User → Bool
is_active_student user =
    is_student_role user.global_role && is_active user.status && is_student_account user.active_role

-- `_eligible_project_students`
unfoldable pub eligible_project_students : List ℕ → Database → Result Error (List User)
eligible_project_students ids db =
    let students = select (λ u. contains u.id ids) db.users in
    if has_duplicates ids
    then err (Error.validation Reason.duplicate_students)
    else if any (λ i. not (any (λ u. u.id == i) students)) ids
    then err (Error.validation Reason.student_missing)
    else if any (λ u. not (is_active_student u)) students
    then err (Error.validation Reason.student_inactive)
    else ok students

-- The loop over the students.
unfoldable pub enrol : User → ℕ → List User → Step (Unit {0})
enrol actor project [] = pure tt
enrol actor project (u ∷ users) = do
  pk ← fresh_id
  save_membership (new_membership pk project u.id Role.student)
  record_event project actor (EventType.membership_added pk)
  enrol actor project users

pub record NewProject : Type 0 where
  pub title : Text
  pub description : Text
  pub starts_on : Option ℕ
  pub ends_on : Option ℕ
  pub student_ids : List ℕ

abbrev pub new_project : ℕ → User → NewProject → ResearchProject
new_project pk actor new = record {
  id = pk;
  title = new.title;
  description = new.description;
  advisor = actor.id;
  status = ProjectStatus.active;
  starts_on = new.starts_on;
  ends_on = new.ends_on;
  archived_at = none;
  governance_state = GovernanceState.normal;
  governance_hold_reason = none;
  governance_hold_started_at = none;
  governance_hold_resolved_at = none;
  governance_hold_resolved_by = none;
  governance_hold_resolution_reason = [];
  governance_version = 1;
}

unfoldable pub create_project : User → NewProject → Step ResearchProject
create_project actor new = atomic do
  raise_if (not (can_create_projects actor)) Error.permission_denied
  pk ← fresh_id
  modify (store_project (new_project pk actor new))
  owner ← fresh_id
  save_membership (new_membership owner pk actor.id Role.advisor)
  students ← check (eligible_project_students new.student_ids)
  enrol actor pk students
  record_event pk actor (EventType.project_created new.title)
  pure (new_project pk actor new)

-- The fields of the request, where none is one that is left out.
pub record ProjectChange : Type 0 where
  pub title : Option Text
  pub description : Option Text
  pub starts_on : Option (Option ℕ)
  pub ends_on : Option (Option ℕ)

abbrev pub or_kept {ℓ} : {A : Type ℓ} → Option A → A → A
or_kept none old = old
or_kept (some new) old = new

abbrev pub edited : ProjectChange → ResearchProject → ResearchProject
edited change p = record p {
  title = or_kept change.title p.title;
  description = or_kept change.description p.description;
  starts_on = or_kept change.starts_on p.starts_on;
  ends_on = or_kept change.ends_on p.ends_on;
}

-- Every column is written, from the object that the caller has read.
unfoldable pub update_project : User → ResearchProject → ProjectChange → Step ResearchProject
update_project actor project change = do
  require actor project (λ c. c.can_edit_project)
  modify (store_project (edited change project))
  record_event project.id actor (EventType.project_updated (edited change project).title)
  pure (edited change project)

abbrev pub with_status : ProjectStatus → Option ℕ → ResearchProject → ResearchProject
with_status status archived_at p = record p { status = status; archived_at = archived_at }

-- `project.save(update_fields=["status", "archived_at", "updated_at"])`
unfoldable pub save_status : ResearchProject → ProjectStatus → Option ℕ → Step (Unit {0})
save_status project status archived_at = do
  row ← check λ db. or_raise Error.no_rows (find (λ r. r.id) project.id db.projects)
  modify (store_project (with_status status archived_at row))

unfoldable pub archive_project : ℕ → User → ResearchProject → Step ResearchProject
archive_project now actor project = do
  require actor project (λ c. c.can_archive_project)
  save_status project ProjectStatus.archived (some now)
  record_event project.id actor (EventType.project_archived project.title)
  pure (with_status ProjectStatus.archived (some now) project)

unfoldable pub reopen_project : User → ResearchProject → Step ResearchProject
reopen_project actor project = do
  require actor project (λ c. c.can_reopen_project)
  save_status project ProjectStatus.active none
  record_event project.id actor (EventType.project_reopened project.title)
  pure (with_status ProjectStatus.active none project)

abbrev pub enlisted : Role → ProjectMembership → ProjectMembership
enlisted role m = record m { role = role; status = MembershipStatus.active; removed_at = none }

-- `add_student_member`, for the active student whose key it has.
unfoldable pub add_student_member : ℕ → User → ResearchProject → ℕ → Step ProjectMembership
add_student_member now actor project student_id = atomic do
  require actor project (λ c. c.can_manage_members)
  ensure_project_writable project
  student ← check λ db.
      or_raise (Error.validation Reason.student_missing) (find (λ r. r.id) student_id db.users)
  raise_if (not (is_active_student student)) (Error.validation Reason.student_inactive)
  existing ← check λ db. ok (first_where (is_row_of project.id student.id) db.memberships)
  raise_if (is_live_row existing) (Error.validation Reason.student_member)
  m ←
      row_for (enlisted Role.student) (λ pk. new_membership pk project.id student.id Role.student)
        existing
  record_event project.id actor (EventType.membership_added m.id)
  notify now m actor Subject.member_added
  pure m

-- What `update_or_create` gets: the row, when there is at most one.
abbrev pub only_row : List ProjectMembership → Result Error (Option ProjectMembership)
only_row [] = ok none
only_row (m ∷ []) = ok (some m)
only_row (m ∷ n ∷ rows) = err Error.multiple_objects

abbrev pub require_user : ℕ → Step (Unit {0})
require_user user =
    check λ db. if any (λ u. u.id == user) db.users then ok tt else err Error.integrity

unfoldable pub add_member : ℕ → User → ResearchProject → ℕ → Role → Step ProjectMembership
add_member now actor project user role = do
  require actor project (λ c. c.can_manage_members)
  ensure_project_writable project
  m ← atomic do
    existing ← check λ db. only_row (select (is_row_of project.id user) db.memberships)
    require_user user
    row_for (enlisted role) (λ pk. new_membership pk project.id user role) existing
  record_event project.id actor (EventType.membership_added m.id)
  notify now m actor Subject.member_added
  pure m

abbrev pub taken_out : ℕ → ProjectMembership → ProjectMembership
taken_out now m = record m { status = MembershipStatus.removed; removed_at = some now }

-- The rest of `remove_member`, for a membership that is active or is not.
abbrev pub take_out : ℕ → User → ProjectMembership → Bool → Step ProjectMembership
take_out now actor m false = pure m
take_out now actor m true = do
  row ← check λ db. or_raise Error.no_rows (find (λ r. r.id) m.id db.memberships)
  save_membership (taken_out now row)
  record_event m.project actor (EventType.membership_removed m.id)
  notify now m actor Subject.member_removed
  pure (taken_out now m)

unfoldable pub remove_member : ℕ → User → ProjectMembership → Step ProjectMembership
remove_member now actor m = do
  project ← get_project m.project
  require actor project (λ c. c.can_manage_members)
  ensure_project_writable project
  raise_if (is_primary m.role && m.user == actor.id) (Error.validation Reason.own_membership)
  take_out now actor m (is_live m.status)

-- ===== src/Projects/Members.antt =====
-- backend/apps/projects/{collaboration_services,services}.py: who is a member of a project, and who
-- owns it. Here stand the state and what the functions share.
pub mod Collaborators
pub mod Transfer
pub mod Services
pub mod Owners
pub mod Runs
pub mod CollaboratorOwners
pub mod ServiceOwners
pub mod MemberOwners
pub mod TransferOwners
pub mod TransferRuns
pub mod Calls
pub mod Handing
pub mod Losing
use grad_sync.Prelude.{
  ℕ, suc, Bool, true, false, not, ◌&&◌, ◌||◌, Option, none, some, List, [], ◌∷◌, ◌++◌, Text, any,
  find, put, ◌==◌, if◌then◌else◌,
}
use grad_sync.Accounts.{User}
use grad_sync.Projects.Model.{
  ResearchProject, GovernanceState, Role, MembershipStatus, ProjectMembership,
  ProjectOwnershipTransfer, is_live, is_primary,
}
use grad_sync.Transactions.{ok, err, Action, pure, check, ◌>>=◌, ◌>>◌, modify, or_raise}

-- The messages of `ValidationError`.
pub data Reason : Type 0 where
  ineligible_teacher on_hold unsupported_role reason_missing already_member : Reason
  stale_membership primary_by_transfer primary_not_removed stale_project same_advisor : Reason
  duplicate_students student_missing student_inactive student_member own_membership : Reason

pub data Error : Type 0 where
  permission_denied : Error
  validation : Reason → Error
  does_not_exist multiple_objects integrity no_rows : Error

-- The type of an audit event, with its target and the state that is stored with it.
pub data EventType : Type 0 where
  collaborator_assigned : ℕ → Role → MembershipStatus → EventType
  collaborator_role_changed : ℕ → Role → ℕ → EventType
  collaborator_removed : ℕ → MembershipStatus → ℕ → EventType
  ownership_transferred : ℕ → GovernanceState → EventType
  project_created project_updated project_archived project_reopened : Text → EventType
  membership_added membership_removed : ℕ → EventType

pub record AuditEvent : Type 0 where
  pub project : ℕ
  pub actor : ℕ
  pub event_type : EventType

pub data Subject : Type 0 where
  role_assigned role_changed role_removed now_primary member_added member_removed : Subject

pub record Notification : Type 0 where
  pub project : ℕ
  pub recipient : ℕ
  pub sender : ℕ
  pub target_id : ℕ
  pub subject : Subject
  pub eligible_at : ℕ

-- `next_id` is above every key in use.
pub record Database : Type 0 where
  pub users : List User
  pub projects : List ResearchProject
  pub memberships : List ProjectMembership
  pub transfers : List ProjectOwnershipTransfer
  pub events : List AuditEvent
  pub notifications : List Notification
  pub next_id : ℕ

abbrev pub Step : Type 0 → Type 0
Step A = Action Database Error A

unfoldable pub fresh_id : Step ℕ
fresh_id = do
  key ← check λ db. ok db.next_id
  modify λ db. record db { next_id = suc db.next_id }
  pure key

abbrev pub get_project : ℕ → Step ResearchProject
get_project pk = check λ db. or_raise Error.does_not_exist (find (λ r. r.id) pk db.projects)

abbrev pub get_membership : ℕ → Step ProjectMembership
get_membership pk = check λ db. or_raise Error.does_not_exist (find (λ r. r.id) pk db.memberships)

abbrev pub is_live_primary : ProjectMembership → Bool
is_live_primary m = is_live m.status && is_primary m.role

-- Another row that has the user's live membership, or is the live primary advisor: the constraints
-- `unique_active_project_membership` and `unique_active_primary_advisor`.
abbrev pub excludes : ProjectMembership → ProjectMembership → Bool
excludes m r =
    not (r.id == m.id)
    && r.project == m.project
    && ((is_live m.status && is_live r.status && r.user == m.user)
        || (is_live_primary m && is_live_primary r))

abbrev pub store_membership : ProjectMembership → Database → Database
store_membership m db = record db { memberships = put (λ r. r.id) m db.memberships }

-- `membership.save()`, under the two constraints.
unfoldable pub save_membership : ProjectMembership → Step (Unit {0})
save_membership m = do
  check λ db. if any (excludes m) db.memberships then err Error.integrity else ok tt
  modify (store_membership m)

-- What `ProjectMembership.objects.create` fills in.
abbrev pub new_membership : ℕ → ℕ → ℕ → Role → ProjectMembership
new_membership pk project user role = record {
  id = pk;
  project = project;
  user = user;
  role = role;
  status = MembershipStatus.active;
  removed_at = none;
  assigned_by = none;
  assignment_reason = [];
  role_changed_at = none;
  version = 1;
}

abbrev pub store_project : ResearchProject → Database → Database
store_project p db = record db { projects = put (λ r. r.id) p db.projects }

abbrev pub add_event : ℕ → User → EventType → Database → Database
add_event project actor event_type db = record db {
  events =
      db.events ++ record { project = project; actor = actor.id; event_type = event_type } ∷ [];
}

-- `record_event`
abbrev pub record_event : ℕ → User → EventType → Step (Unit {0})
record_event project actor event_type = modify (add_event project actor event_type)

abbrev pub add_notification : ℕ → ProjectMembership → User → Subject → Database → Database
add_notification now m actor subject db = record db {
  notifications =
      db.notifications
      ++ record {
        project = m.project;
        recipient = m.user;
        sender = actor.id;
        target_id = m.id;
        subject = subject;
        eligible_at = now;
      }
        ∷ [];
}

-- `_notify` and `_notify_membership_change`
abbrev pub notify : ℕ → ProjectMembership → User → Subject → Step (Unit {0})
notify now m actor subject = modify (add_notification now m actor subject)

abbrev pub is_row_of : ℕ → ℕ → ProjectMembership → Bool
is_row_of project user m = m.project == project && m.user == user

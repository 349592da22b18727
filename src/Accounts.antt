-- ===== src/Accounts.antt =====
-- Accounts as the other components see them: backend/apps/accounts/models.py (User), with what
-- the services read of the signed-in user.
use grad_sync.Prelude.{ℕ, Bool, true, false, ◌&&◌, Option, none, some}

pub data GlobalRole : Type 0 where
  advisor student admin : GlobalRole

pub data UserStatus : Type 0 where
  invited pending_email_verification pending_role_activation : UserStatus
  active suspended archived : UserStatus

pub data RequestedRole : Type 0 where
  student teacher administrator pending : RequestedRole

-- `is_authenticated` is false for the anonymous user.
pub record User : Type 0 where
  pub id : ℕ
  pub is_authenticated : Bool
  pub status : UserStatus
  pub global_role : GlobalRole
  pub email_verified_at : Option ℕ
  pub active_role : RequestedRole

abbrev pub is_teacher : RequestedRole → Bool
is_teacher RequestedRole.teacher = true
is_teacher _ = false

abbrev pub is_student_account : RequestedRole → Bool
is_student_account RequestedRole.student = true
is_student_account _ = false

-- `global_role == "advisor"`
abbrev pub is_advisor_role : GlobalRole → Bool
is_advisor_role GlobalRole.advisor = true
is_advisor_role _ = false

abbrev pub is_active : UserStatus → Bool
is_active UserStatus.active = true
is_active _ = false

abbrev pub is_student_role : GlobalRole → Bool
is_student_role GlobalRole.student = true
is_student_role _ = false

-- `global_role in {"advisor", "admin"}`
abbrev pub is_staff_role : GlobalRole → Bool
is_staff_role GlobalRole.advisor = true
is_staff_role GlobalRole.admin = true
is_staff_role _ = false

abbrev pub is_admin_role : GlobalRole → Bool
is_admin_role GlobalRole.admin = true
is_admin_role _ = false

abbrev pub is_given : Option ℕ → Bool
is_given none = false
is_given (some n) = true

abbrev pub is_administrator : User → Bool
is_administrator user = is_admin_role user.global_role

-- `is_active_account` of backend/apps/projects/access_services.py
abbrev pub is_active_account : User → Bool
is_active_account user =
    user.is_authenticated && is_active user.status && is_given user.email_verified_at

-- ===== src/Resources/Access.antt =====
-- Who may do what with resources: the module functions and the `require` methods of the services in
-- backend/apps/resources/services.py.
use grad_sync.Prelude.{ℕ, Bool, not, ◌&&◌, ◌||◌, ◌==◌}
use grad_sync.Accounts.{User, is_active, is_student_role, is_staff_role}
use grad_sync.Resources.State.{permission_denied}
use grad_sync.Resources.Effects.{Action, raise_if}

abbrev pub is_resource_manager : User → Bool
is_resource_manager user =
    user.is_authenticated && is_active user.status && is_staff_role user.global_role

abbrev pub is_active_student : User → Bool
is_active_student user =
    user.is_authenticated && is_active user.status && is_student_role user.global_role

abbrev pub require_manager : User → Action (Unit {0})
require_manager user = raise_if (not (is_resource_manager user)) permission_denied

abbrev pub require_student : User → Action (Unit {0})
require_student user = raise_if (not (is_active_student user)) permission_denied

abbrev pub require_active_user : User → Action (Unit {0})
require_active_user user =
    raise_if (not user.is_authenticated || not (is_active user.status)) permission_denied

-- `booking.requested_by_id == user.id or _is_resource_manager(user)`
abbrev pub may_change : User → ℕ → Bool
may_change user requester = requester == user.id || is_resource_manager user

-- ===== src/Projects/Access.antt =====
-- backend/apps/projects/access_services.py: what a user may do in a project.
pub mod Rules
use grad_sync.Prelude.{
  ◌≡◌, inl, inr, subst, some_eq, All, Bool-cases, ℕ, Bool, true, false, not, ◌&&◌, ◌||◌, Option,
  none, some, List, [], ◌∷◌, ◌==◌, if◌then◌else◌,
}
use grad_sync.Accounts.{User, is_active_account, is_administrator}
use grad_sync.Projects.Model.{
  ResearchProject, ProjectMembership, Role, GovernanceState, is_live, is_primary, is_co_advisor,
  is_student, is_reviewer, is_observer, is_active_project, is_held,
}

-- `filter(...).first()`
abbrev pub first_where {ℓ} : {A : Type ℓ} → (A → Bool) → List A → Option A
first_where p [] = none
first_where p (r ∷ rows) = if p r then some r else first_where p rows

module _ {ℓ κ} {A : Type ℓ} (P : A → Type κ) where
  -- What the first row that passes has.
  pub All-first :
      (p : A → Bool) (rows : List A) {r : A}
      → All P rows
      → first_where p rows ≡ some r
      → P r × (p r ≡ true)
  All-first p [] h e = cc
  All-first p (x ∷ rows) {r} h e = elim (Bool-cases (p x)) [
    | inl passes ↦
        let here : x ≡ r = some_eq (rw passes at e) in
        (subst P here h.0, subst (λ y. p y ≡ true) here passes)
    | inr fails ↦ All-first p rows h.1 (rw fails at e)
  ]

unfoldable pub active_membership :
    User → ResearchProject → List ProjectMembership → Option ProjectMembership
active_membership user project memberships =
    if is_active_account user
    then first_where (λ m. m.project == project.id && m.user == user.id && is_live m.status)
        memberships
    else none

unfoldable pub is_project_administrator : User → Bool
is_project_administrator user = is_active_account user && is_administrator user

pub data EffectiveRole : Type 0 where
  as_administrator no_role : EffectiveRole
  as_member : Role → EffectiveRole

pub record Capabilities : Type 0 where
  pub role : EffectiveRole
  pub can_view_project : Bool
  pub can_supervise_governance : Bool
  pub can_resolve_governance_hold : Bool
  pub can_manage_project : Bool
  pub can_edit_project : Bool
  pub can_archive_project : Bool
  pub can_reopen_project : Bool
  pub can_delete_project : Bool
  pub can_manage_members : Bool
  pub can_manage_collaborators : Bool
  pub can_transfer_ownership : Bool
  pub can_assign_reviews : Bool
  pub can_review_assigned_targets : Bool
  pub can_create_tasks : Bool
  pub can_update_tasks : Bool
  pub can_mutate_project_work : Bool
  pub can_view_execution_summary : Bool
  pub can_manage_milestones : Bool
  pub can_manage_deliverables : Bool
  pub can_submit_assigned_deliverables : Bool
  pub can_recommend_deliverables : Bool
  pub can_decide_deliverables : Bool
  pub can_manage_report_templates : Bool
  pub can_view_report_analytics : Bool
  pub can_publish_decisions : Bool
  pub can_raise_risks : Bool
  pub can_triage_risks : Bool
  pub can_manage_project_notification_policy : Bool
  pub can_view_execution_operations : Bool
  pub can_participate_in_execution : Bool
  pub is_read_only : Bool

abbrev pub has_role : (Role → Bool) → Option Role → Bool
has_role p none = false
has_role p (some role) = p role

abbrev pub effective_role : Bool → Option Role → EffectiveRole
effective_role true role = EffectiveRole.as_administrator
effective_role false none = EffectiveRole.no_role
effective_role false (some role) = EffectiveRole.as_member role

-- The body of `project_capabilities`, from its local variables on.
unfoldable pub capabilities : Option Role → Bool → Bool → Bool → Capabilities
capabilities role administrator held active =
    let membership = has_role (λ r. true) role in
    let primary = has_role is_primary role in
    let co_advisor = has_role is_co_advisor role in
    let reviewer = has_role is_reviewer role in
    let student = has_role is_student role in
    let manager = primary || co_advisor in
    let can_view = membership || administrator in
    let can_write_execution = manager && active && not held in
    let can_participate = (membership && active && not held) || administrator in
    record {
      role = effective_role administrator role;
      can_view_project = can_view;
      can_supervise_governance = administrator;
      can_resolve_governance_hold = administrator && held;
      can_manage_project = manager && not held;
      can_edit_project = manager && active && not held;
      can_archive_project = primary && active && not held;
      can_reopen_project = primary && not active && not held;
      can_delete_project = primary && not held;
      can_manage_members = (manager || administrator) && active && not held;
      can_manage_collaborators = (primary || administrator) && active && not held;
      can_transfer_ownership = (primary || administrator) && not held;
      can_assign_reviews = (manager || administrator) && active && not held;
      can_review_assigned_targets = primary || co_advisor || reviewer || administrator;
      can_create_tasks = manager && active && not held;
      can_update_tasks = (manager || student) && active && not held;
      can_mutate_project_work = manager && active && not held;
      can_view_execution_summary = can_view;
      can_manage_milestones = can_write_execution;
      can_manage_deliverables = can_write_execution;
      can_submit_assigned_deliverables = student && active && not held;
      can_recommend_deliverables = (primary || co_advisor || reviewer) && active && not held;
      can_decide_deliverables = manager && active && not held;
      can_manage_report_templates = primary && active && not held;
      can_view_report_analytics = can_view;
      can_publish_decisions = manager && active && not held;
      can_raise_risks = membership && not (has_role is_observer role) && active && not held;
      can_triage_risks = manager && active && not held;
      can_manage_project_notification_policy = primary && active && not held;
      can_view_execution_operations = administrator;
      can_participate_in_execution = can_participate && not administrator;
      is_read_only = can_view && not manager && not student;
    }

abbrev pub role_of : Option ProjectMembership → Option Role
role_of none = none
role_of (some m) = some m.role

-- The hold reason and the two texts derived from the hold are passed on as they are, and left out.
unfoldable pub project_capabilities : User → ResearchProject → List ProjectMembership → Capabilities
unfolding capabilities active_membership is_project_administrator
project_capabilities user project memberships =
    capabilities (role_of (active_membership user project memberships))
      (is_project_administrator user) (is_held project.governance_state)
      (is_active_project project.status)

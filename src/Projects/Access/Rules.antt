-- ===== src/Projects/Access/Rules.antt =====
-- What follows from the table of capabilities.
use grad_sync.Prelude.{◌≡◌, Bool, true, false, ◌||◌, Option, List, arith}
use grad_sync.Accounts.{User}
use grad_sync.Projects.Model.{ResearchProject, ProjectMembership, Role, is_held, is_active_project}
use grad_sync.Projects.Access.{
  Capabilities, capabilities, project_capabilities, role_of, active_membership,
  is_project_administrator,
}

-- The capabilities that change a project or what belongs to it; reviewing assigned targets, resolving
-- a hold and taking part in the execution are not among them.
abbrev pub may_write : Capabilities → Bool
may_write c =
    c.can_manage_project || c.can_edit_project || c.can_archive_project || c.can_reopen_project
    || c.can_delete_project || c.can_manage_members || c.can_manage_collaborators
    || c.can_transfer_ownership || c.can_assign_reviews || c.can_create_tasks || c.can_update_tasks
    || c.can_mutate_project_work || c.can_manage_milestones || c.can_manage_deliverables
    || c.can_submit_assigned_deliverables || c.can_recommend_deliverables
    || c.can_decide_deliverables || c.can_manage_report_templates || c.can_publish_decisions
    || c.can_raise_risks || c.can_triage_risks || c.can_manage_project_notification_policy

table_held :
    (role : Option Role) (admin active : Bool)
    → may_write (capabilities role admin true active) ≡ false
unfolding capabilities
table_held role admin active = ground arith

-- While a project is on governance hold, nobody has any of the capabilities in `may_write`: those that
-- change the project, its members, its tasks or its records. An administrator's to resolve the hold
-- and the reviewing of assigned targets are not among them.
pub project_capabilities-held :
    (user : User) (project : ResearchProject) (memberships : List ProjectMembership)
    → is_held project.governance_state ≡ true
    → may_write (project_capabilities user project memberships) ≡ false
unfolding project_capabilities
project_capabilities-held user project memberships held = rw held (
    table_held (role_of (active_membership user project memberships))
      (is_project_administrator user) (is_active_project project.status))

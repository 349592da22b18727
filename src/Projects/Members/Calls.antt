-- ===== src/Projects/Members/Calls.antt =====
-- Sequences of calls of the membership services, by any users, whether they succeed or raise.
use grad_sync.Prelude.{ℕ, ◌≡◌, Bool, true, false, not, Text, any, select, find, refl}
use grad_sync.Accounts.{User}
use grad_sync.Projects.Model.{ResearchProject, GovernanceHoldReason, Role, ProjectMembership}
use grad_sync.Projects.Members.{Database, is_live_primary, is_row_of}
use grad_sync.Projects.Members.Collaborators.{
  assign_collaborator, change_collaborator_role, remove_collaborator,
}
use grad_sync.Projects.Members.Transfer.{Handover, transfer_ownership, place_governance_hold}
use grad_sync.Projects.Members.Services.{
  NewProject, ProjectChange, create_project, update_project, archive_project, reopen_project,
  add_student_member, add_member, remove_member,
}
use grad_sync.Projects.Members.Owners.{IsOwned}
use grad_sync.Projects.Members.CollaboratorOwners.{
  assign_collaborator-IsOwned, change_collaborator_role-IsOwned, remove_collaborator-IsOwned,
}
use grad_sync.Projects.Members.ServiceOwners.{
  names_advisor_of, create_project-IsOwned, update_project-IsOwned, archive_project-IsOwned,
  reopen_project-IsOwned,
}
use grad_sync.Projects.Members.MemberOwners.{
  is_owner_row, add_student_member-IsOwned, add_member-IsOwned, remove_member-IsOwned,
}
use grad_sync.Projects.Members.TransferOwners.{
  transfer_ownership-IsOwned, place_governance_hold-IsOwned,
}

-- One call, with its arguments.
pub data Call : Type 0 where
  assigns : User → ℕ → User → Role → Text → Call
  changes_role : User → ℕ → Role → ℕ → Text → Call
  removes_collaborator : User → ℕ → ℕ → Text → Call
  transfers : User → ℕ → Handover → Call
  holds : ℕ → GovernanceHoldReason → Call
  creates : User → NewProject → Call
  updates : User → ResearchProject → ProjectChange → Call
  archives reopens : User → ResearchProject → Call
  adds_student : User → ResearchProject → ℕ → Call
  adds : User → ResearchProject → ℕ → Role → Call
  removes : User → ProjectMembership → Call

-- The database after a call at a time.
unfoldable pub after : ℕ → Call → Database → Database
after now (Call.assigns u p user role reason) db =
    (assign_collaborator now u p user role reason db).1
after now (Call.changes_role u pk role version reason) db =
    (change_collaborator_role now u pk role version reason db).1
after now (Call.removes_collaborator u pk version reason) db =
    (remove_collaborator now u pk version reason db).1
after now (Call.transfers u p h) db = (transfer_ownership now u p h db).1
after now (Call.holds p reason) db = (place_governance_hold now p reason db).1
after now (Call.creates u new) db = (create_project u new db).1
after now (Call.updates u p change) db = (update_project u p change db).1
after now (Call.archives u p) db = (archive_project now u p db).1
after now (Call.reopens u p) db = (reopen_project u p db).1
after now (Call.adds_student u p student) db = (add_student_member now u p student db).1
after now (Call.adds u p user role) db = (add_member now u p user role db).1
after now (Call.removes u m) db = (remove_member now u m db).1

-- The calls that may take a project's owner away are left out: an update from a project that was read
-- before its advisor changed, and the addition or removal of a live primary advisor by
-- `ProjectService`.
abbrev pub spares_owners : Call → Database → Bool
spares_owners (Call.updates u p change) db = names_advisor_of p (find (λ r. r.id) p.id db.projects)
spares_owners (Call.adds u p user role) db =
    not (any is_live_primary (select (is_row_of p.id user) db.memberships))
spares_owners (Call.removes u m) db = not (is_owner_row (find (λ r. r.id) m.id db.memberships))
spares_owners _ db = true

unnegated : (c : Bool) → not c ≡ true → c ≡ false
unnegated true h = cc
unnegated false h = refl

-- Where every project has the live membership of its primary advisor, who is the user that the project
-- names, and the keys of the memberships are different and below the next one, all of that is so
-- after any call that spares the owners, by anyone and whether it succeeds or raises. All calls spare
-- them but an update from a project read before its advisor changed, and `add_member` and
-- `remove_member` on a live primary advisor.
pub after-IsOwned :
    (now : ℕ) (call : Call) (db : Database)
    → spares_owners call db ≡ true
    → IsOwned db
    → IsOwned (after now call db)
unfolding after
after-IsOwned now (Call.assigns u p user role reason) db safe =
    assign_collaborator-IsOwned now u p user role reason db
after-IsOwned now (Call.changes_role u pk role version reason) db safe =
    change_collaborator_role-IsOwned now u pk role version reason db
after-IsOwned now (Call.removes_collaborator u pk version reason) db safe =
    remove_collaborator-IsOwned now u pk version reason db
after-IsOwned now (Call.transfers u p h) db safe = transfer_ownership-IsOwned now u p h db
after-IsOwned now (Call.holds p reason) db safe = place_governance_hold-IsOwned now p reason db
after-IsOwned now (Call.creates u new) db safe = create_project-IsOwned u new db
after-IsOwned now (Call.updates u p change) db safe = update_project-IsOwned u p change db safe
after-IsOwned now (Call.archives u p) db safe = archive_project-IsOwned now u p db
after-IsOwned now (Call.reopens u p) db safe = reopen_project-IsOwned u p db
after-IsOwned now (Call.adds_student u p student) db safe =
    add_student_member-IsOwned now u p student db
after-IsOwned now (Call.adds u p user role) db safe =
    add_member-IsOwned now u p user role db (unnegated _ safe)
after-IsOwned now (Call.removes u m) db safe = remove_member-IsOwned now u m db (unnegated _ safe)

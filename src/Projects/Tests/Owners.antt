-- ===== src/Projects/Tests/Owners.antt =====
-- The promises about the owner of a project, for a project with an advisor and a co-advisor.
use grad_sync.Prelude.{◌≡◌, refl, [], ◌∷◌, text, arith}
use grad_sync.Accounts.{User}
use grad_sync.Projects.Model.{ProjectMembership, Role, PreviousAdvisorResult}
use grad_sync.Projects.Access.{
  active_membership, is_project_administrator, capabilities, project_capabilities,
}
use grad_sync.Projects.Members.{Database, fresh_id, save_membership}
use grad_sync.Projects.Members.Transfer.{Handover, transfer_of, hand_over, transfer_ownership}
use grad_sync.Projects.Members.Services.{taken_out, remove_member}
use grad_sync.Projects.Members.Owners.{Owner, IsOwned}
use grad_sync.Projects.Members.Calls.{Call, after, after-IsOwned}
use grad_sync.Projects.Members.Handing.{
  IsHanded, IsRefused, transfer_ownership_ok, transfer_ownership-retry,
}
use grad_sync.Projects.Members.Losing.{remove_member-unowned}
use grad_sync.Transactions.{ok, statements}
use grad_sync.Projects.Tests.{lead, thesis, lead_membership}

abbrev mentor : User
mentor = record lead { id = 2 }

abbrev mentor_membership : ProjectMembership
mentor_membership = record lead_membership { id = 7; user = 2; role = Role.co_advisor }

abbrev team : Database
team = record {
  users = lead ∷ mentor ∷ [];
  projects = thesis ∷ [];
  memberships = lead_membership ∷ mentor_membership ∷ [];
  transfers = [];
  events = [];
  notifications = [];
  next_id = 10;
}

abbrev handover : Handover
handover = record {
  new_advisor = mentor;
  expected_version = 1;
  previous_advisor_result = PreviousAdvisorResult.observer;
  reason = [];
  idempotency_key = text "leave";
}

team-IsOwned : IsOwned team
team-IsOwned = (
  (refl, (refl, tt)),
  (omega arith, (omega arith, tt)),
  ((λ c. (lead_membership, refl, refl, refl, refl)), tt),
)

handed :
    transfer_ownership 3 lead 5 handover team
    ≡ (ok (transfer_of lead thesis handover 10), (transfer_ownership 3 lead 5 handover team).1)
unfolding transfer_ownership hand_over statements fresh_id save_membership project_capabilities
    capabilities active_membership is_project_administrator
handed = refl

after-IsOwned_example : IsOwned (after 3 (Call.transfers lead 5 handover) team)
after-IsOwned_example = after-IsOwned 3 (Call.transfers lead 5 handover) team refl team-IsOwned

transfer_ownership_ok_example :
    (thesis.governance_version ≡ handover.expected_version)
    × (mentor.id ≡ thesis.advisor → ⊥)
    × IsHanded 3 lead thesis handover team (transfer_ownership 3 lead 5 handover team).1
transfer_ownership_ok_example =
    transfer_ownership_ok 3 lead thesis handover team (transfer_ownership 3 lead 5 handover team).1
      (transfer_of lead thesis handover 10) team-IsOwned refl refl handed

transfer_ownership-retry_example :
    IsRefused 4 mentor 5 handover (transfer_ownership 3 lead 5 handover team).1
transfer_ownership-retry_example =
    transfer_ownership-retry 3 4 lead mentor thesis handover team
      (transfer_ownership 3 lead 5 handover team).1 (transfer_of lead thesis handover 10)
      team-IsOwned refl refl handed

remove_member-unowned_example :
    ((remove_member 3 mentor lead_membership team).0 ≡ ok (taken_out 3 lead_membership))
    × (Owner thesis (remove_member 3 mentor lead_membership team).1.memberships → ⊥)
unfolding project_capabilities capabilities active_membership is_project_administrator
remove_member-unowned_example =
    remove_member-unowned 3 mentor lead_membership thesis team refl refl
      ((λ a l. refl), ((λ a l. cc), tt)) refl (λ e. cc) refl

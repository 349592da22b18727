-- ===== src/Projects/Members/TransferRuns.antt =====
-- What a transfer of a project has done, and the demotion of its advisor.
use grad_sync.Prelude.{
  ℕ, ◌≡◌, ◌<◌, refl, sym, ap, ◌∙◌, subst, true, not, Option, none, some, map, All-map, All-weaken,
  find-map, map-HasKeys, ◌==◌, arith,
}
use grad_sync.Accounts.{User}
use grad_sync.Projects.Model.{
  ResearchProject, GovernanceState, ProjectMembership, PreviousAdvisorResult,
  ProjectOwnershipTransfer,
}
use grad_sync.Projects.Access.{first_where}
use grad_sync.Projects.Members.{
  EventType, Subject, Database, store_project, add_event, add_notification, is_row_of,
}
use grad_sync.Projects.Members.Collaborators.{row_for}
use grad_sync.Projects.Members.Transfer.{
  demoted, demote_all, promoted, new_primary, handed_over, Handover, transfer_of, store_transfer,
  hand_over,
}
use grad_sync.Projects.Members.Owners.{Owner, IsOwnedFor, IsOwned}
use grad_sync.Projects.Members.Runs.{drawn, fresh_id_ok}
use grad_sync.Transactions.{ok}
use grad_sync.Transactions.Runs.{check_ok, bind_ok, modify_ok, returns, ok_eq}

-- The state at the end, when the new owner's row `m` has been saved.
abbrev pub finished :
    ℕ → User → ResearchProject → Handover → ProjectMembership → Database → Database
finished now actor p h m mid = add_notification now m actor Subject.now_primary (
    add_event p.id actor (EventType.ownership_transferred mid.next_id GovernanceState.normal) (
      store_transfer (transfer_of actor p h mid.next_id)
        (drawn (store_project (handed_over now actor h.new_advisor h.reason p) mid))))

-- What a handing over has done: the first row of the new advisor, demotion, the row saved.
abbrev pub HandedOver : ℕ → User → ResearchProject → Handover → Database → Database → Type 0
HandedOver now actor p h db db' =
    (existing : Option ProjectMembership) × (m : ProjectMembership) × (mid : Database)
    × (first_where (is_row_of p.id h.new_advisor.id) db.memberships ≡ existing)
    × (row_for (promoted now actor) (new_primary now actor p.id h.new_advisor.id) existing
          (demote_all now p.id h.previous_advisor_result db)
        ≡ (ok m, mid))
    × (finished now actor p h m mid ≡ db')

pub hand_over_run :
    (now : ℕ) (actor : User) (p : ResearchProject) (h : Handover) (db db' : Database)
    (t : ProjectOwnershipTransfer)
    → hand_over now actor p h none db ≡ (ok t, db')
    → HandedOver now actor p h db db'
unfolding hand_over
hand_over_run now actor p h db db' t run = check_ok _ _ _ run λ existing first h1.
    modify_ok _ _ _ h1 λ h2. bind_ok _ _ _ h2 λ m mid saved h3. modify_ok _ _ _ h3 λ h4.
      fresh_id_ok _ _ h4 λ h5. modify_ok _ _ _ h5 λ h6. modify_ok _ _ _ h6 λ h7.
        modify_ok _ _ _ h7 λ h8. (
          existing,
          m,
          mid,
          ok_eq first,
          saved,
          returns (λ r d. finished now actor p h m mid ≡ d) _ h8 refl,
        )

pub demoted_id :
    (now project : ℕ) (result : PreviousAdvisorResult) (m : ProjectMembership)
    → (demoted now project result m).id ≡ m.id
demoted_id now project result m = ground arith

pub demoted_project :
    (now project : ℕ) (result : PreviousAdvisorResult) (m : ProjectMembership)
    → (demoted now project result m).project ≡ m.project
demoted_project now project result m = ground arith

demoted-other :
    (now project : ℕ) (result : PreviousAdvisorResult) (m : ProjectMembership)
    → not (m.project == project) ≡ true
    → demoted now project result m ≡ m
demoted-other now project result m other = ground arith

-- While the project has no owner, the others have theirs.
pub demote_all-IsOwned :
    (now project : ℕ) (result : PreviousAdvisorResult) (db : Database)
    → IsOwned db
    → IsOwnedFor (λ k. not (k == project)) (demote_all now project result db)
demote_all-IsOwned now project result db (keyed, used, owned) =
    let g = demoted now project result in
    (
      map-HasKeys (λ r. r.id) g db.memberships (demoted_id now project result) keyed,
      All-map (λ r. r.id < db.next_id) (λ r. r.id < db.next_id) g db.memberships
          (λ r old. subst (λ k. k < db.next_id) (sym (demoted_id now project result r)) old) used,
      All-weaken (λ q. true ≡ true → Owner q db.memberships)
          (λ q. not (q.id == project) ≡ true → Owner q (map g db.memberships)) db.projects
          (λ q own other.
            let (m, found, at, user, live) = own refl in
            let same : g m ≡ m =
              demoted-other now project result m (ap (λ k. not (k == project)) at ∙ other) in
            (
              m,
              find-map (λ r. r.id) g m.id db.memberships (demoted_id now project result) found
                  ∙ ap (λ r. some r) same,
              at,
              user,
              live,
            ))
          owned,
    )

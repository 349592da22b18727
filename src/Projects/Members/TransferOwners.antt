-- ===== src/Projects/Members/TransferOwners.antt =====
-- What a transfer of a project leaves: its new owner, and no other live primary advisor.
use grad_sync.Prelude.{
  ℕ, ◌≡◌, ◌≢◌, ◌<◌, refl, sym, ap, ◌∙◌, subst, inl, inr, Bool, true, false, not, Option, none, some,
  some_eq, All-find, find, find-put_self, find-map, put, ◌==◌, ==_iff, and_both, arith,
}
use grad_sync.Accounts.{User}
use grad_sync.Projects.Model.{
  ResearchProject, ProjectMembership, ProjectOwnershipTransfer, GovernanceHoldReason, is_held,
}
use grad_sync.Projects.Access.{first_where}
use grad_sync.Projects.Members.{Database, is_live_primary, store_project, is_row_of}
use grad_sync.Projects.Members.Collaborators.{row_for}
use grad_sync.Projects.Members.Transfer.{
  demoted, demote_all, promoted, new_primary, handed_over, Handover, hand_over, transfer_ownership,
  held, hold_once, place_governance_hold,
}
use grad_sync.Projects.Members.Owners.{
  unused, IsOwnedFor, IsOwned, store_project-IsOwned, some-IsOwned, found-Owner,
}
use grad_sync.Projects.Access.{All-first}
use grad_sync.Projects.Members.Runs.{Saved, row_for_run, row_for-IsOwned, drawn-IsOwned}
use grad_sync.Transactions.{ok}
use grad_sync.Transactions.Runs.{
  check_ok, raise_if_ok, modify_ok, returns, atomic_ok, or_raise_ok, atomic-keeps,
}
use grad_sync.Projects.Members.TransferRuns.{
  HandedOver, hand_over_run, demoted_id, demoted_project, demote_all-IsOwned,
}

-- The row of a handing over: whose it was or which key it takes, where it is saved, and what it is.
module _ (now : ℕ) (actor : User) (p : ResearchProject) (h : Handover) (db mid : Database) where
  row_of_advisor :
      (x : ProjectMembership)
      → IsOwned db
      → first_where (is_row_of p.id h.new_advisor.id) db.memberships ≡ some x
      → (find (λ r. r.id) x.id db.memberships ≡ some x)
        × (x.project ≡ p.id)
        × (x.user ≡ h.new_advisor.id)
  row_of_advisor x owned first =
      let (found, passes) =
        All-first (λ r. find (λ y. y.id) r.id db.memberships ≡ some r)
          (is_row_of p.id h.new_advisor.id) db.memberships owned.0 first in
      let (project, user) = and_both (x.project == p.id) (x.user == h.new_advisor.id) passes in
      (found, (==_iff x.project p.id).0 project, (==_iff x.user h.new_advisor.id).0 user)

  pub new_owner :
      (existing : Option ProjectMembership) (m : ProjectMembership)
      → IsOwned db
      → first_where (is_row_of p.id h.new_advisor.id) db.memberships ≡ existing
      → Saved
          (promoted now actor)
          (new_primary now actor p.id h.new_advisor.id)
          existing
          (demote_all now p.id h.previous_advisor_result db)
          m
          mid
      → (mid.memberships
          ≡ put (λ r. r.id) m (demote_all now p.id h.previous_advisor_result db).memberships)
        × (mid.projects ≡ db.projects)
        × (m.project ≡ p.id)
        × (m.user ≡ h.new_advisor.id)
        × (is_live_primary m ≡ true)
  new_owner existing m owned first (inl (x, there, is, stored)) =
      let (found, project, user) = row_of_advisor x owned (first ∙ there) in
      (
        ap (λ d. d.memberships) (sym stored),
        ap (λ d. d.projects) (sym stored),
        ap (λ r. r.project) is ∙ project,
        ap (λ r. r.user) is ∙ user,
        ap is_live_primary is,
      )
  new_owner existing m owned first (inr (gone, is, stored)) = (
    ap (λ d. d.memberships) (sym stored),
    ap (λ d. d.projects) (sym stored),
    ap (λ r. r.project) is,
    ap (λ r. r.user) is,
    ap is_live_primary is,
  )

  -- A row of anyone else has another key.
  pub other_key :
      (existing : Option ProjectMembership) (m r : ProjectMembership)
      → IsOwned db
      → first_where (is_row_of p.id h.new_advisor.id) db.memberships ≡ existing
      → Saved
          (promoted now actor)
          (new_primary now actor p.id h.new_advisor.id)
          existing
          (demote_all now p.id h.previous_advisor_result db)
          m
          mid
      → find (λ y. y.id) r.id db.memberships ≡ some r
      → is_row_of p.id h.new_advisor.id r ≡ false
      → r.id ≢ m.id
  other_key existing m r owned first (inl (x, there, is, stored)) at other same =
      let (found, project, user) = row_of_advisor x owned (first ∙ there) in
      let one : r ≡ x =
        some_eq (
          sym at
          ∙ ap (λ k. find (λ y. y.id) k db.memberships) (same ∙ ap (λ y. y.id) is)
          ∙ found) in
      let at_project : r.project ≡ p.id = ap (λ y. y.project) one ∙ project in
      let of_user : r.user ≡ h.new_advisor.id = ap (λ y. y.user) one ∙ user in ground arith
  other_key existing m r owned first (inr (gone, is, stored)) at other same =
      unused db r owned.1
        (subst (λ k. find (λ y. y.id) k db.memberships ≡ some r) (same ∙ ap (λ y. y.id) is) at)

  new_owner-IsOwned :
      (existing : Option ProjectMembership) (m : ProjectMembership)
      → IsOwned db
      → first_where (is_row_of p.id h.new_advisor.id) db.memberships ≡ existing
      → row_for
          (promoted now actor)
          (new_primary now actor p.id h.new_advisor.id)
          existing
          (demote_all now p.id h.previous_advisor_result db)
        ≡ (ok m, mid)
      → IsOwnedFor (λ k. not (k == p.id)) mid
  new_owner-IsOwned existing m owned first saved =
      let g = demoted now p.id h.previous_advisor_result in
      row_for-IsOwned _ _ _ existing (demote_all now p.id h.previous_advisor_result db) mid m
        (λ x. refl) (λ k. refl)
        (λ x there.
          let (found, project, user) = row_of_advisor x owned (first ∙ there) in
          (
            All-find (λ r. r.id < db.next_id) (λ r. r.id) x.id db.memberships owned.1 found,
            λ y at in_class live.
                let same : g x ≡ y = some_eq (
                  sym (
                    find-map (λ r. r.id) g x.id db.memberships
                      (demoted_id now p.id h.previous_advisor_result) found)
                  ∙ at) in
                let at_project : y.project ≡ p.id =
                  ap (λ r. r.project) (sym same)
                  ∙ demoted_project now p.id h.previous_advisor_result x
                  ∙ project in
                ground arith,
          ))
        saved (demote_all-IsOwned now p.id h.previous_advisor_result db owned)

finished-IsOwned :
    (now : ℕ) (actor : User) (p : ResearchProject) (h : Handover) (db db' : Database)
    → IsOwned db
    → HandedOver now actor p h db db'
    → IsOwned db'
finished-IsOwned now actor p h db db' owned (existing, m, mid, first, saved, end) =
    let run = row_for_run _ _ existing _ mid m saved in
    let (rows, projects, project, user, live) =
      new_owner now actor p h db mid existing m owned first run in
    subst IsOwned end (
      drawn-IsOwned _ (store_project (handed_over now actor h.new_advisor h.reason p) mid) (
        store_project-IsOwned (handed_over now actor h.new_advisor h.reason p) mid
          (new_owner-IsOwned now actor p h db mid existing m owned first saved)
          (
            m,
            subst (λ l. find (λ r. r.id) m.id l ≡ some m) (sym rows)
                (find-put_self (λ r. r.id) m
                  (demote_all now p.id h.previous_advisor_result db).memberships),
            project,
            user,
            live,
          )))

pub transfer_ownership-IsOwned :
    (now : ℕ) (actor : User) (project : ℕ) (h : Handover) (db : Database)
    → IsOwned db
    → IsOwned (transfer_ownership now actor project h db).1
unfolding transfer_ownership hand_over
transfer_ownership-IsOwned now actor project h db owned =
    atomic-keeps IsOwned _ db owned λ b db' run. check_ok _ _ _ (atomic_ok _ run) λ p found h1.
      check_ok _ _ _ h1 λ v allowed h2. raise_if_ok _ _ _ _ h2 λ current h3.
        raise_if_ok _ _ _ _ h3 λ reasoned h4. raise_if_ok _ _ _ _ h4 λ eligible h5.
          raise_if_ok _ _ _ _ h5
            λ different h6. check_ok _ _ _ h6 λ existing keyed h7. go p existing b db' h7
  where
    go :
        (p : ResearchProject) (existing : Option ProjectOwnershipTransfer)
        (b : ProjectOwnershipTransfer) (db' : Database)
        → hand_over now actor p h existing db ≡ (ok b, db')
        → IsOwned db'
    go p (some t) b db' run = returns (λ r d. IsOwned d) _ run owned
    go p none b db' run =
        finished-IsOwned now actor p h db db' owned (hand_over_run now actor p h db db' b run)

pub place_governance_hold-IsOwned :
    (now project : ℕ) (reason : GovernanceHoldReason) (db : Database)
    → IsOwned db
    → IsOwned (place_governance_hold now project reason db).1
unfolding place_governance_hold
place_governance_hold-IsOwned now project reason db owned =
    atomic-keeps IsOwned _ db owned λ b db' run.
      check_ok _ _ _ (atomic_ok _ run)
        λ p found h1. go p (or_raise_ok _ _ found) (is_held p.governance_state) b db' h1
  where
    go :
        (p : ResearchProject)
        → find (λ r. r.id) project db.projects ≡ some p
        → (on_hold : Bool) (b : ResearchProject) (db' : Database)
        → hold_once now reason p on_hold db ≡ (ok b, db')
        → IsOwned db'
    go p found true b db' run = returns (λ r d. IsOwned d) _ run owned
    go p found false b db' run = modify_ok _ _ _ run λ run'.
        returns (λ r d. IsOwned d) _ run'
          (store_project-IsOwned (held now reason p) db (some-IsOwned _ db owned)
            (found-Owner project p db owned found))

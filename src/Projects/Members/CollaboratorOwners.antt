-- ===== src/Projects/Members/CollaboratorOwners.antt =====
-- The calls about collaborators leave every project its owner.
use grad_sync.Prelude.{
  ℕ, ◌≡◌, ◌<◌, refl, ap, ◌∙◌, subst, Bool, false, ◌&&◌, Option, some, Text, All-find, find, arith,
}
use grad_sync.Accounts.{User}
use grad_sync.Projects.Model.{Role, ProjectMembership, is_live, is_primary}
use grad_sync.Projects.Access.{first_where}
use grad_sync.Projects.Members.{Database, is_live_primary, is_row_of}
use grad_sync.Projects.Members.Collaborators.{
  is_live_row, with_role, taken_off, assign_collaborator, change_collaborator_role,
  remove_collaborator, require_collaborator_management,
}
use grad_sync.Projects.Members.Owners.{IsOwnedFor, IsOwned, everyone}
use grad_sync.Projects.Access.{All-first}
use grad_sync.Projects.Members.Runs.{
  guards_ok, both_ok, save_ok, IsFree, stored-IsFree, resave-IsOwned, row_for-IsOwned,
}
use grad_sync.Transactions.Runs.{
  check_ok, bind_ok, raise_if_ok, modify_ok, returns, atomic_ok, or_raise_ok, ok_eq, atomic-keeps,
}

-- The row of a user in a project that is found first.
pub first-IsFree :
    (class : ℕ → Bool) (project user : ℕ) (db : Database) (existing : Option ProjectMembership)
    → IsOwnedFor class db
    → first_where (is_row_of project user) db.memberships ≡ existing
    → is_live_row existing ≡ false
    → (x : ProjectMembership) → existing ≡ some x
    → IsFree class db x
first-IsFree class project user db existing (keyed, used, owned) first free x there =
    let at = first ∙ there in
    let dead : is_live x.status ≡ false = subst (λ o. is_live_row o ≡ false) there free in
    stored-IsFree class db x
      (All-first (λ r. r.id < db.next_id) (is_row_of project user) db.memberships used at).0
      (All-first (λ r. find (λ y. y.id) r.id db.memberships ≡ some r) (is_row_of project user)
        db.memberships keyed at).0
      (ap (λ b. b && is_primary x.role) dead)

-- A row that is found by its key.
pub found-IsFree :
    (pk : ℕ) (m : ProjectMembership) (db : Database)
    → IsOwned db
    → find (λ r. r.id) pk db.memberships ≡ some m
    → is_live_primary m ≡ false
    → IsFree everyone db m
found-IsFree pk m db (keyed, used, owned) found other =
    stored-IsFree everyone db m
      (All-find (λ r. r.id < db.next_id) (λ r. r.id) pk db.memberships used found)
      (All-find (λ r. find (λ y. y.id) r.id db.memberships ≡ some r) (λ r. r.id) pk db.memberships
        keyed found)
      other

pub assign_collaborator-IsOwned :
    (now : ℕ) (actor : User) (project : ℕ) (user : User) (role : Role) (reason : Text)
    (db : Database)
    → IsOwned db
    → IsOwned (assign_collaborator now actor project user role reason db).1
unfolding assign_collaborator require_collaborator_management
assign_collaborator-IsOwned now actor project user role reason db owned =
    atomic-keeps IsOwned _ db owned λ b db' h. check_ok _ _ _ (atomic_ok _ h) λ p found h1.
      guards_ok _ _ _ _ _ h1 λ v managed open_p h2. raise_if_ok _ _ _ _ h2 λ eligible h3.
        both_ok _ _ _ _ _ _ h3 λ supported reasoned h4. check_ok _ _ _ h4 λ existing first h5.
          raise_if_ok _ _ _ _ h5 λ free h6. bind_ok _ _ _ h6 λ m mid saved h7.
            modify_ok _ _ _ h7 λ h8. modify_ok _ _ _ h8 λ h9.
              returns (λ r d. IsOwned d) _ h9
                (row_for-IsOwned _ _ everyone existing db mid m (λ x. refl) (λ k. refl)
                  (first-IsFree everyone p.id user.id db existing owned (ok_eq first) free) saved
                  owned)

not_primary : (m : ProjectMembership) → is_primary m.role ≡ false → is_live_primary m ≡ false
not_primary m h = ground arith

pub change_collaborator_role-IsOwned :
    (now : ℕ) (actor : User) (membership : ℕ) (role : Role) (version : ℕ) (reason : Text)
    (db : Database)
    → IsOwned db
    → IsOwned (change_collaborator_role now actor membership role version reason db).1
unfolding change_collaborator_role require_collaborator_management
change_collaborator_role-IsOwned now actor membership role version reason db owned =
    atomic-keeps IsOwned _ db owned λ b db' h. check_ok _ _ _ (atomic_ok _ h) λ m found h1.
      check_ok _ _ _ h1 λ p known h2. check_ok _ _ _ h2 λ user there h3.
        guards_ok _ _ _ _ _ h3 λ v managed open_p h4. raise_if_ok _ _ _ _ h4 λ current h5.
          raise_if_ok _ _ _ _ h5 λ other h6. raise_if_ok _ _ _ _ h6 λ eligible h7.
            both_ok _ _ _ _ _ _ h7 λ supported reasoned h8. save_ok _ _ _ h8 λ h9.
              modify_ok _ _ _ h9 λ h10. modify_ok _ _ _ h10 λ h11.
                returns (λ r d. IsOwned d) _ h11
                  (resave-IsOwned everyone m (with_role now role reason m) db
                    (found-IsFree membership m db owned (or_raise_ok _ _ found)
                      (not_primary m other))
                    refl owned)

pub remove_collaborator-IsOwned :
    (now : ℕ) (actor : User) (membership version : ℕ) (reason : Text) (db : Database)
    → IsOwned db
    → IsOwned (remove_collaborator now actor membership version reason db).1
unfolding remove_collaborator require_collaborator_management
remove_collaborator-IsOwned now actor membership version reason db owned =
    atomic-keeps IsOwned _ db owned λ b db' h. check_ok _ _ _ (atomic_ok _ h) λ m found h1.
      check_ok _ _ _ h1 λ p known h2. guards_ok _ _ _ _ _ h2 λ v managed open_p h3.
        raise_if_ok _ _ _ _ h3 λ current h4. raise_if_ok _ _ _ _ h4 λ other h5.
          raise_if_ok _ _ _ _ h5 λ reasoned h6. save_ok _ _ _ h6 λ h7. modify_ok _ _ _ h7 λ h8.
            modify_ok _ _ _ h8 λ h9.
              returns (λ r d. IsOwned d) _ h9
                (resave-IsOwned everyone m (taken_off now reason m) db
                  (found-IsFree membership m db owned (or_raise_ok _ _ found) (not_primary m other))
                  refl owned)

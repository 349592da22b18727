-- ===== src/Projects/Members/MemberOwners.antt =====
-- The calls of ProjectService on members leave every project its owner, two of them under a condition.
use grad_sync.Prelude.{
  ℕ, ◌≡◌, ◌<◌, refl, ◌∙◌, subst, Bool, true, false, Option, none, some, some_eq, List, [], ◌∷◌, any,
  select, All, All-select, find, arith,
}
use grad_sync.Accounts.{User}
use grad_sync.Projects.Model.{ResearchProject, Role, ProjectMembership, is_live}
use grad_sync.Projects.Members.{Database, is_live_primary, save_membership, is_row_of}
use grad_sync.Projects.Members.Services.{
  add_student_member, only_row, add_member, taken_out, take_out, remove_member,
}
use grad_sync.Projects.Members.Owners.{IsOwned, everyone}
use grad_sync.Projects.Members.Runs.{IsFree, stored-IsFree, resave-IsOwned, row_for-IsOwned}
use grad_sync.Projects.Members.CollaboratorOwners.{first-IsFree, found-IsFree}
use grad_sync.Transactions.{ok, pure, modify}
use grad_sync.Transactions.Runs.{
  check_ok, bind_ok, raise_if_ok, modify_ok, returns, atomic_ok, or_raise_ok, ok_eq, atomic-keeps,
  check-keeps, raise_if-keeps, modify-keeps, then-keeps,
}

pub add_student_member-IsOwned :
    (now : ℕ) (actor : User) (project : ResearchProject) (student : ℕ) (db : Database)
    → IsOwned db
    → IsOwned (add_student_member now actor project student db).1
unfolding add_student_member
add_student_member-IsOwned now actor project student db owned =
    atomic-keeps IsOwned _ db owned λ b db' h. check_ok _ _ _ (atomic_ok _ h) λ v allowed h1.
      raise_if_ok _ _ _ _ h1 λ open_p h2. check_ok _ _ _ h2 λ s known h3.
        raise_if_ok _ _ _ _ h3 λ active h4. check_ok _ _ _ h4 λ existing first h5.
          raise_if_ok _ _ _ _ h5 λ free h6. bind_ok _ _ _ h6 λ m mid saved h7.
            modify_ok _ _ _ h7 λ h8. modify_ok _ _ _ h8 λ h9.
              returns (λ r d. IsOwned d) _ h9
                (row_for-IsOwned _ _ everyone existing db mid m (λ x. refl) (λ k. refl)
                  (first-IsFree everyone project.id s.id db existing owned (ok_eq first) free) saved
                  owned)

-- The only row of a user, when no live primary advisor is among the user's rows.
only-IsFree :
    (rows : List ProjectMembership) (db : Database) (existing : Option ProjectMembership)
    → All (λ r. r.id < db.next_id) rows
    → All (λ r. find (λ y. y.id) r.id db.memberships ≡ some r) rows
    → only_row rows ≡ ok existing
    → any is_live_primary rows ≡ false
    → (x : ProjectMembership) → existing ≡ some x
    → IsFree everyone db x
only-IsFree [] db existing used keyed only none_live x there = cc
only-IsFree (m ∷ []) db existing used keyed only none_live x there =
    let same : m ≡ x = some_eq (ok_eq only ∙ there) in
    subst (IsFree everyone db) same
      (stored-IsFree everyone db m used.0 keyed.0 (ground (arith, none_live)))
only-IsFree (m ∷ n ∷ rows) db existing used keyed only none_live x there = cc

pub add_member-IsOwned :
    (now : ℕ) (actor : User) (project : ResearchProject) (user : ℕ) (role : Role) (db : Database)
    → any is_live_primary (select (is_row_of project.id user) db.memberships) ≡ false
    → IsOwned db
    → IsOwned (add_member now actor project user role db).1
unfolding add_member pure
add_member-IsOwned now actor project user role db none_live owned =
    check-keeps IsOwned db _ _ owned λ v allowed. raise_if-keeps IsOwned db _ _ _ owned λ open_p.
      then-keeps IsOwned db _ _
        (atomic-keeps IsOwned _ db owned λ m db' h.
          check_ok _ _ _ (atomic_ok _ h) λ existing only h1. check_ok _ _ _ h1 λ u known h2.
            row_for-IsOwned _ _ everyone existing db db' m (λ x. refl) (λ k. refl)
              (only-IsFree (select (is_row_of project.id user) db.memberships) db existing
                (All-select _ _ _ _ (λ r k e. k) owned.1) (All-select _ _ _ _ (λ r k e. k) owned.0)
                only none_live)
              h2 owned)
        λ m mid kept. modify-keeps IsOwned mid _ _ (modify-keeps IsOwned _ _ _ kept)

abbrev pub is_owner_row : Option ProjectMembership → Bool
is_owner_row none = false
is_owner_row (some m) = is_live_primary m

take_out-IsOwned :
    (now : ℕ) (actor : User) (m : ProjectMembership) (live : Bool) (db : Database)
    → is_owner_row (find (λ r. r.id) m.id db.memberships) ≡ false
    → IsOwned db
    → IsOwned (take_out now actor m live db).1
unfolding pure save_membership modify
take_out-IsOwned now actor m false db other owned = owned
take_out-IsOwned now actor m true db other owned = check-keeps IsOwned db _ _ owned λ row found.
    then-keeps IsOwned db _ _
      (check-keeps IsOwned db _ _ owned λ v alone.
        resave-IsOwned everyone row (taken_out now row) db
          (found-IsFree m.id row db owned (or_raise_ok _ _ found)
            (subst (λ o. is_owner_row o ≡ false) (or_raise_ok _ _ found) other))
          refl owned)
      λ u mid kept. modify-keeps IsOwned mid _ _ (modify-keeps IsOwned _ _ _ kept)

pub remove_member-IsOwned :
    (now : ℕ) (actor : User) (m : ProjectMembership) (db : Database)
    → is_owner_row (find (λ r. r.id) m.id db.memberships) ≡ false
    → IsOwned db
    → IsOwned (remove_member now actor m db).1
unfolding remove_member
remove_member-IsOwned now actor m db other owned = check-keeps IsOwned db _ _ owned λ p known.
    check-keeps IsOwned db _ _ owned λ v allowed. raise_if-keeps IsOwned db _ _ _ owned λ open_p.
      raise_if-keeps IsOwned db _ _ _ owned
        λ own. take_out-IsOwned now actor m (is_live m.status) db other owned

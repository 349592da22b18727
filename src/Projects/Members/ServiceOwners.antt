-- ===== src/Projects/Members/ServiceOwners.antt =====
-- The calls of ProjectService on projects leave every project its owner, an update under a condition.
use grad_sync.Prelude.{
  ℕ, suc, ◌≡◌, refl, sym, ◌∙◌, Bool, true, false, Option, none, some, List, [], ◌∷◌, find, find_pk,
  find-put_self, ◌==◌, ==_iff,
}
use grad_sync.Accounts.{User}
use grad_sync.Projects.Model.{ResearchProject, ProjectStatus, Role}
use grad_sync.Projects.Members.{Database, store_membership, store_project, new_membership}
use grad_sync.Projects.Members.Services.{
  NewProject, new_project, ProjectChange, edited, with_status, enrol, create_project,
  update_project, save_status, archive_project, reopen_project,
}
use grad_sync.Projects.Members.Owners.{
  Owner, IsOwned, everyone, store_project-IsOwned, some-IsOwned, found-Owner,
}
use grad_sync.Projects.Members.Runs.{drawn, fresh_id_ok, save_ok, drawn-IsOwned, fresh-IsOwned}
use grad_sync.Transactions.{ok, pure, modify}
use grad_sync.Transactions.Runs.{
  check_ok, bind_ok, raise_if_ok, modify_ok, returns, atomic_ok, or_raise_ok, atomic-keeps,
  check-keeps, modify-keeps, then-keeps,
}

enrol-IsOwned :
    (actor : User) (project : ℕ) (users : List User) (db mid : Database) (v : Unit {0})
    → enrol actor project users db ≡ (ok v, mid)
    → IsOwned db
    → IsOwned mid
unfolding enrol
enrol-IsOwned actor project [] db mid v h owned = returns (λ r d. IsOwned d) _ h owned
enrol-IsOwned actor project (u ∷ users) db mid v h owned = fresh_id_ok _ _ h λ h1.
    save_ok _ _ _ h1 λ h2. modify_ok _ _ _ h2 λ h3.
      enrol-IsOwned actor project users _ mid v h3
        (fresh-IsOwned everyone (new_membership db.next_id project u.id Role.student) db refl owned)

-- A new project, with the membership of the one who creates it.
founded-IsOwned :
    (actor : User) (new : NewProject) (db : Database)
    → IsOwned db
    → IsOwned (
        store_membership
          (new_membership (suc db.next_id) db.next_id actor.id Role.advisor)
          (drawn (store_project (new_project db.next_id actor new) (drawn db))))
founded-IsOwned actor new db owned =
    let m = new_membership (suc db.next_id) db.next_id actor.id Role.advisor in
    let p = new_project db.next_id actor new in
    let mid = store_membership m (drawn (drawn db)) in
    store_project-IsOwned p mid
      (some-IsOwned _ mid
        (fresh-IsOwned everyone m (drawn db) refl (drawn-IsOwned everyone db owned)))
      (m, find-put_self (λ r. r.id) m db.memberships, refl, refl, refl)

pub create_project-IsOwned :
    (actor : User) (new : NewProject) (db : Database)
    → IsOwned db
    → IsOwned (create_project actor new db).1
unfolding create_project
create_project-IsOwned actor new db owned = atomic-keeps IsOwned _ db owned λ b db' h.
    raise_if_ok _ _ _ _ (atomic_ok _ h) λ allowed h1. fresh_id_ok _ _ h1 λ h2.
      modify_ok _ _ _ h2 λ h3. fresh_id_ok _ _ h3 λ h4. save_ok _ _ _ h4 λ h5.
        check_ok _ _ _ h5 λ students eligible h6. bind_ok _ _ _ h6 λ v mid enrolled h7.
          modify_ok _ _ _ h7 λ h8.
            returns (λ r d. IsOwned d) _ h8
              (enrol-IsOwned actor db.next_id students _ mid v enrolled
                (founded-IsOwned actor new db owned))

-- A project stored with the advisor that it has.
kept-IsOwned :
    (p new : ResearchProject) (db : Database)
    → Owner p db.memberships
    → new.id ≡ p.id
    → new.advisor ≡ p.advisor
    → IsOwned db
    → IsOwned (store_project new db)
kept-IsOwned p new db (m, found, project, user, live) same_id same_advisor owned =
    store_project-IsOwned new db (some-IsOwned _ db owned)
      (m, found, project ∙ sym same_id, user ∙ sym same_advisor, live)

-- The project that is saved names the advisor of the stored row.
abbrev pub names_advisor_of : ResearchProject → Option ResearchProject → Bool
names_advisor_of project none = false
names_advisor_of project (some row) = project.advisor == row.advisor

pub update_project-IsOwned :
    (actor : User) (project : ResearchProject) (change : ProjectChange) (db : Database)
    → names_advisor_of project (find (λ r. r.id) project.id db.projects) ≡ true
    → IsOwned db
    → IsOwned (update_project actor project change db).1
unfolding update_project pure
update_project-IsOwned actor project change db current owned =
    check-keeps IsOwned db _ _ owned λ v allowed.
      modify-keeps IsOwned db _ _
        (modify-keeps IsOwned _ _ _ (go (find (λ r. r.id) project.id db.projects) refl current))
  where
    go :
        (o : Option ResearchProject)
        → find (λ r. r.id) project.id db.projects ≡ o
        → names_advisor_of project o ≡ true
        → IsOwned (store_project (edited change project) db)
    go none at named = cc
    go (some row) at named =
        kept-IsOwned row (edited change project) db (found-Owner project.id row db owned at)
          (sym (find_pk (λ r. r.id) project.id db.projects at))
          ((==_iff project.advisor row.advisor).0 named) owned

save_status-IsOwned :
    (project : ResearchProject) (status : ProjectStatus) (at : Option ℕ) (db : Database)
    → IsOwned db
    → IsOwned (save_status project status at db).1
unfolding save_status modify
save_status-IsOwned project status at db owned = check-keeps IsOwned db _ _ owned λ row found.
    kept-IsOwned row (with_status status at row) db
      (found-Owner project.id row db owned (or_raise_ok _ _ found)) refl refl owned

pub archive_project-IsOwned :
    (now : ℕ) (actor : User) (project : ResearchProject) (db : Database)
    → IsOwned db
    → IsOwned (archive_project now actor project db).1
unfolding archive_project pure
archive_project-IsOwned now actor project db owned = check-keeps IsOwned db _ _ owned λ v allowed.
    then-keeps IsOwned db _ _
      (save_status-IsOwned project ProjectStatus.archived (some now) db owned)
      λ u mid kept. modify-keeps IsOwned mid _ _ kept

pub reopen_project-IsOwned :
    (actor : User) (project : ResearchProject) (db : Database)
    → IsOwned db
    → IsOwned (reopen_project actor project db).1
unfolding reopen_project pure
reopen_project-IsOwned actor project db owned = check-keeps IsOwned db _ _ owned λ v allowed.
    then-keeps IsOwned db _ _ (save_status-IsOwned project ProjectStatus.active none db owned)
      λ u mid kept. modify-keeps IsOwned mid _ _ kept

-- ===== src/Projects/Members/Losing.antt =====
-- How `remove_member` takes the primary advisor away.
use grad_sync.Prelude.{
  ℕ, ◌≡◌, ◌≢◌, refl, sym, ap, ◌∙◌, subst, Bool, true, false, not, ◌&&◌, Option, some, List, [], ◌∷◌,
  any, All, All-find, find, find-put_cases, ◌==◌, inl, inr, if◌then◌else◌, arith,
}
use grad_sync.Accounts.{User}
use grad_sync.Projects.Model.{
  ResearchProject, ProjectMembership, is_live, is_primary, is_held, is_active_project, Role,
}
use grad_sync.Projects.Access.{
  active_membership, is_project_administrator, role_of, capabilities, project_capabilities,
}
use grad_sync.Projects.Members.{
  Error, EventType, Subject, Database, Step, is_live_primary, excludes, store_membership, add_event,
  add_notification, save_membership,
}
use grad_sync.Projects.Members.Services.{taken_out, take_out, remove_member}
use grad_sync.Projects.Members.Owners.{Owner}
use grad_sync.Transactions.{ok, err, pure, ◌>>◌, modify}
use grad_sync.Transactions.Results.{
  check-finds, raise_if-passes, modify-runs, bind-runs, or_raise-finds,
}

managed_active :
    (role : Option Role) (admin on_hold active : Bool)
    → (capabilities role admin on_hold active).can_manage_members ≡ true
    → active ≡ true
unfolding capabilities
managed_active role admin on_hold active h = ground arith

manager-active :
    (actor : User) (p : ResearchProject) (rows : List ProjectMembership)
    → (project_capabilities actor p rows).can_manage_members ≡ true
    → is_active_project p.status ≡ true
unfolding project_capabilities
manager-active actor p rows h =
    managed_active (role_of (active_membership actor p rows)) (is_project_administrator actor)
      (is_held p.governance_state) (is_active_project p.status) h

-- A removed row takes no one's place.
taken_out-free :
    (now : ℕ) (m : ProjectMembership) (rows : List ProjectMembership)
    → any (excludes (taken_out now m)) rows ≡ false
taken_out-free now m [] = refl
taken_out-free now m (r ∷ rows) = ground (arith, taken_out-free now m rows)

save-runs :
    {B : Type 0} (m : ProjectMembership) (k : Step B) (db : Database)
    → any (excludes m) db.memberships ≡ false
    → (save_membership m >> k) db ≡ k (store_membership m db)
unfolding save_membership modify
save-runs m k db free =
    bind-runs db (save_membership m) (λ u. k)
      (check-finds db _ _ (ap (λ c. if c then err Error.integrity else ok tt) free))

-- The state after the removal.
abbrev pub without : ℕ → User → ProjectMembership → Database → Database
without now actor m db = add_notification now m actor Subject.member_removed (
    add_event m.project actor (EventType.membership_removed m.id)
      (store_membership (taken_out now m) db))

remove_member_run :
    (now : ℕ) (actor : User) (m : ProjectMembership) (p : ResearchProject) (db : Database)
    → find (λ r. r.id) m.id db.memberships ≡ some m
    → find (λ r. r.id) m.project db.projects ≡ some p
    → (project_capabilities actor p db.memberships).can_manage_members ≡ true
    → m.user ≢ actor.id
    → is_live m.status ≡ true
    → remove_member now actor m db ≡ (ok (taken_out now m), without now actor m db)
unfolding remove_member pure
remove_member_run now actor m p db found known allowed other live =
    check-finds db _ _ (or_raise-finds _ known)
    ∙ check-finds db _ _ (ap (λ c. if c then ok tt else err Error.permission_denied) allowed)
    ∙ raise_if-passes db _ _ _ (ap not (manager-active actor p db.memberships allowed))
    ∙ raise_if-passes db (is_primary m.role && m.user == actor.id) _ _ (ground arith)
    ∙ ap (λ b. take_out now actor m b db) live
    ∙ check-finds db _ _ (or_raise-finds _ found)
    ∙ save-runs (taken_out now m) _ db (taken_out-free now m db.memberships)
    ∙ modify-runs _ _ _
    ∙ modify-runs _ _ _

-- Anyone else who may manage the members of an active project, a co-advisor among them, can remove its
-- live primary advisor: the call succeeds, and the project is left without an owner. The hypotheses
-- are that the membership and the project are stored, and that the project has no other live primary
-- advisor.
pub remove_member-unowned :
    (now : ℕ) (actor : User) (m : ProjectMembership) (p : ResearchProject) (db : Database)
    → find (λ r. r.id) m.id db.memberships ≡ some m
    → find (λ r. r.id) m.project db.projects ≡ some p
    → All (λ r. r.project ≡ p.id → is_live_primary r ≡ true → r.id ≡ m.id) db.memberships
    → (project_capabilities actor p db.memberships).can_manage_members ≡ true
    → m.user ≢ actor.id
    → is_live_primary m ≡ true
    → ((remove_member now actor m db).0 ≡ ok (taken_out now m))
      × (Owner p (remove_member now actor m db).1.memberships → ⊥)
remove_member-unowned now actor m p db found known alone allowed other live =
    let run = remove_member_run now actor m p db found known allowed other (ground (arith, live)) in
    (
      ap (λ r. r.0) run,
      λ owner.
          let (o, at, project, user, is) = subst (λ r. Owner p r.1.memberships) run owner in
          elim (find-put_cases (λ r. r.id) o.id (taken_out now m) db.memberships at) [
            | inl (same, here) ↦
                let gone : is_live_primary (taken_out now m) ≡ true =
                  subst (λ r. is_live_primary r ≡ true) (sym here) is in
                ground (arith, gone)
            | inr (away, before) ↦ away (
                All-find (λ r. r.project ≡ p.id → is_live_primary r ≡ true → r.id ≡ m.id)
                  (λ r. r.id) o.id db.memberships alone before project is)
          ],
    )

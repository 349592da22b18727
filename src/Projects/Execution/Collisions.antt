-- ===== src/Projects/Execution/Collisions.antt =====
-- Where the orders of milestones collide.
use grad_sync.Prelude.{
  ℕ, suc, max, ◌<◌, ◌≡◌, refl, ap, ◌∙◌, inl, inr, true, not, ◌&&◌, Option, none, some, List, [],
  ◌∷◌, any, select, arith, ◌==◌, All, Bool-cases, some_eq,
}
use grad_sync.Accounts.{User}
use grad_sync.Projects.Model.{ResearchProject, ProjectMembership}
use grad_sync.Projects.Access.{project_capabilities}
use grad_sync.Projects.Execution.Model.{Milestone}
use grad_sync.Projects.Execution.{
  Error, Database, Environment, Step, fresh_id, active_members, is_writable, max_of, next_order,
}
use grad_sync.Projects.Execution.Milestones.{
  NewMilestone, create_milestone, save_milestone, takes_place, orders_of,
}
use grad_sync.Projects.Execution.Runs.{require_capability-passes}
use grad_sync.Transactions.{ok, err, pure, check, ◌>>=◌, modify}
use grad_sync.Transactions.Results.{
  check-finds, check-raises, bind-runs, bind-raises, atomic-raises,
}

max_zero :
    (k : ℕ) (o : Option ℕ) → elim o [ none ↦ some k | some n ↦ some (max k n) ] ≡ some 0 → k ≡ 0
max_zero k none h = some_eq h
max_zero k (some n) h = let e : max k n ≡ 0 = some_eq h in ground arith

-- A largest order of 0 is the order of a milestone of the project.
first_place :
    (project k : ℕ) (rows : List Milestone)
    → orders_of project rows ≡ some 0
    → All (λ m. m.id < k) rows
    → any (λ m. m.project == project && m.order == 0 && not (m.id == k)) rows ≡ true
unfolding max_of
first_place project k [] h below = cc
first_place project k (m ∷ rows) h below = elim (Bool-cases (m.project == project)) [
  | inl of_it ↦
      let zero_order : m.order ≡ 0 =
        max_zero m.order (max_of (λ x. x.order) (select (λ x. x.project == project) rows))
          (rw of_it at h) in
      ground arith
  | inr other ↦ rw other (first_place project k rows (rw other at h) below.1)
]

save_milestone-clash :
    (m : Milestone) (db : Database)
    → any (takes_place m) db.milestones ≡ true
    → save_milestone m db ≡ (err Error.integrity, db)
unfolding save_milestone
save_milestone-clash m db h = check-raises db _ _ (rw h refl)

fresh_id-runs :
    {B : Type 0} (db : Database) (k : ℕ → Step B)
    → (fresh_id >>= k) db ≡ k db.next_id (record db { next_id = suc db.next_id })
unfolding fresh_id check modify pure ◌>>=◌
fresh_id-runs db k = refl

-- A project whose milestones have the order 0 and no larger one gets no further milestone: a call that
-- its guards let through fails on the unique constraint, and changes nothing. So it is for the second
-- milestone of every project, as the first has the order 0.
pub create_milestone-second :
    (env : Environment) (actor : User) (project : ResearchProject) (new : NewMilestone)
    (owners : List ProjectMembership) (db : Database)
    → is_writable project ≡ true
    → (project_capabilities actor project db.memberships).can_manage_milestones ≡ true
    → active_members project.id new.owner_ids db ≡ ok owners
    → All (λ m. m.id < db.next_id) db.milestones
    → orders_of project.id db.milestones ≡ some 0
    → create_milestone env actor project new db ≡ (err Error.integrity, db)
unfolding create_milestone next_order
create_milestone-second env actor project new owners db w may members below orders =
    atomic-raises db _ (
      bind-runs db _ _ (require_capability-passes actor project _ db w may)
      ∙ check-finds db _ _ members
      ∙ check-finds db _ _ (ap (λ o. ok (next_order o)) orders)
      ∙ fresh_id-runs db _
      ∙ bind-raises _ _ _
          (save_milestone-clash _ _ (first_place project.id db.next_id db.milestones orders below)))

-- ===== src/Projects/Execution/Runs.antt =====
-- Runs of the steps that the functions of the execution share.
use grad_sync.Prelude.{
  ℕ, suc, ◌≡◌, refl, ap, sym, subst, ◌∙◌, Bool, true, false, not, some, any, find,
}
use grad_sync.Accounts.{User}
use grad_sync.Projects.Model.{ResearchProject}
use grad_sync.Projects.Access.{Capabilities, project_capabilities}
use grad_sync.Projects.Execution.Model.{Milestone, Deliverable}
use grad_sync.Projects.Execution.{
  Database, Environment, Step, fresh_id, store_milestone, store_deliverable, is_writable,
  require_capability,
}
use grad_sync.Projects.Execution.Reconcile.{derived_status, reconciled, reconcile_milestone}
use grad_sync.Projects.Execution.Milestones.{save_milestone, takes_place}
use grad_sync.Projects.Execution.Deliverables
use grad_sync.Projects.Execution.Deliverables.{save_deliverable}
use grad_sync.Transactions.{ok, pure, check, ◌>>=◌, ◌>>◌, modify}
use grad_sync.Transactions.Results.{raise_if-passes}
use grad_sync.Transactions.Runs.{
  err_if, ok_if, check_ok, bind_ok, raise_if_ok, modify_ok, modify_done, check_done, returns,
  atomic_ok, or_raise_ok,
}

-- What `reconcile_milestone` stores, for the row that it has found.
abbrev pub settle : Environment → Milestone → Database → Database
settle env m db =
    store_milestone (reconciled env.now (derived_status env.today m db.deliverables) m) db

pub reconcile_run :
    (env : Environment) (pk : ℕ) (db mid : Database) (a : Milestone)
    → reconcile_milestone env pk db ≡ (ok a, mid)
    → (m : Milestone) × (find (λ r. r.id) pk db.milestones ≡ some m)
      × (settle env m db ≡ mid)
      × (reconciled env.now (derived_status env.today m db.deliverables) m ≡ a)
unfolding reconcile_milestone
reconcile_run env pk db mid a h = check_ok _ _ _ (atomic_ok _ h) λ m found h1.
    check_ok _ _ _ h1 λ s is h2. modify_ok _ _ _ h2 λ h3.
      let status : derived_status env.today m db.deliverables ≡ s = cc in
      (
        m,
        or_raise_ok _ _ found,
        ap (λ t. store_milestone (reconciled env.now t m) db) status
            ∙ returns (λ b d. store_milestone (reconciled env.now s m) db ≡ d) _ h3 refl,
        ap (λ t. reconciled env.now t m) status
            ∙ returns (λ b d. reconciled env.now s m ≡ b) _ h3 refl,
      )

module _ {B P : Type 0} (db : Database) {db' : Database} {b : B} where
  pub fresh_id_ok :
      (k : ℕ → Step B)
      → (fresh_id >>= k) db ≡ (ok b, db')
      → (k db.next_id (record db { next_id = suc db.next_id }) ≡ (ok b, db') → P)
      → P
  unfolding fresh_id check modify pure ◌>>=◌
  fresh_id_ok k h rest = rest h

  pub reconcile_ok :
      (env : Environment) (pk : ℕ) (k : Milestone → Step B)
      → (reconcile_milestone env pk >>= k) db ≡ (ok b, db')
      → ((m a : Milestone)
          → find (λ r. r.id) pk db.milestones ≡ some m
          → k a (settle env m db) ≡ (ok b, db')
          → P)
      → P
  reconcile_ok env pk k h rest = bind_ok _ _ _ h λ a mid run more.
      let (m, found, stored, same) = reconcile_run env pk db mid a run in
      rest m a found (subst (λ d. k a d ≡ (ok b, db')) (sym stored) more)

  pub save_milestone_ok :
      (m : Milestone) (k : Step B)
      → (save_milestone m >> k) db ≡ (ok b, db')
      → (any (takes_place m) db.milestones ≡ false → k (store_milestone m db) ≡ (ok b, db') → P)
      → P
  unfolding save_milestone
  save_milestone_ok m k h rest = bind_ok _ _ _ h λ u mid run more. check_ok _ _ _ run λ v free run1.
      rest (err_if _ _ free).0 (subst (λ d. k d ≡ (ok b, db')) (sym (modify_done _ run1)) more)

  pub save_deliverable_ok :
      (d : Deliverable) (k : Step B)
      → (save_deliverable d >> k) db ≡ (ok b, db')
      → (any (Deliverables.takes_place d) db.deliverables ≡ false
          → k (store_deliverable d db) ≡ (ok b, db')
          → P)
      → P
  unfolding save_deliverable
  save_deliverable_ok d k h rest = bind_ok _ _ _ h λ u mid run more.
      check_ok _ _ _ run λ v free run1.
        rest (err_if _ _ free).0 (subst (λ d. k d ≡ (ok b, db')) (sym (modify_done _ run1)) more)

  pub require_capability_ok :
      (actor : User) (project : ResearchProject) (capability : Capabilities → Bool) (k : Step B)
      → (require_capability actor project capability >> k) db ≡ (ok b, db')
      → (is_writable project ≡ true
          → capability (project_capabilities actor project db.memberships) ≡ true
          → k db ≡ (ok b, db')
          → P)
      → P
  unfolding require_capability
  require_capability_ok actor project capability k h rest = bind_ok _ _ _ h λ u mid run more.
      raise_if_ok _ _ _ _ run λ writable run1.
        let (held, same) = check_done _ run1 in
        rest (unnegated (is_writable project) writable) (ok_if _ _ held).0
          (subst (λ d. k d ≡ (ok b, db')) (sym same) more)
    where
      unnegated : (c : Bool) → not c ≡ false → c ≡ true
      unnegated true e = refl
      unnegated false e = cc

pub require_capability-passes :
    (actor : User) (project : ResearchProject) (capability : Capabilities → Bool) (db : Database)
    → is_writable project ≡ true
    → capability (project_capabilities actor project db.memberships) ≡ true
    → require_capability actor project capability db ≡ (ok tt, db)
unfolding require_capability check
require_capability-passes actor project capability db w may =
    raise_if-passes db _ _ _ (ap not w) ∙ rw may refl

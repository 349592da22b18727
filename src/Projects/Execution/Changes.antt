-- ===== src/Projects/Execution/Changes.antt =====
-- The change of the plan that each function on milestones and deliverables makes.
use grad_sync.Prelude.{
  contains, ℕ, ap, ◌+◌, ◌≤◌, find, remove, count_where, arith, inl, inr, Bool-cases, ==_iff,
  if◌then◌else◌, suc, ◌≡◌, refl, sym, subst, Bool, ◌&&◌, Option, none, some, List, [], ◌∷◌, select,
  put, find_pk, ◌==◌, All, All-find, All-put, All-select, All-weaken, IsIn, IsIn-self,
}
use grad_sync.Accounts.{User}
use grad_sync.Projects.Model.{ResearchProject}
use grad_sync.Projects.Execution.Model.{Milestone}
use grad_sync.Projects.Execution.{Database, Environment, Step, store_milestone}
use grad_sync.Projects.Execution.Reconcile.{reconcile_milestone}
use grad_sync.Projects.Execution.Milestones.{
  NewMilestone, create_milestone, MilestoneChange, changed_milestone, replace_owners,
  update_milestone, shift_orders, place_all, reorder_milestones, archive_milestone,
}
use grad_sync.Projects.Execution.Runs.{
  reconcile_run, fresh_id_ok, reconcile_ok, save_milestone_ok, require_capability_ok,
}
use grad_sync.Projects.Execution.Plan.{plan_of, Change, Comes, Act, KeepsKeys, relabelled}
use grad_sync.Transactions.{ok, atomic}
use grad_sync.Transactions.Runs.{
  check_ok, bind_ok, raise_if_ok, modify_ok, modify_done, returns, atomic_ok, or_raise_ok,
  atomic-keeps,
}

-- An error leaves the plan as it was.
pub atomic-Change :
    {A : Type 0} (env : Environment) (act : Act) (debt : Bool) (m : Step A) (db : Database)
    → ((a : A) (db' : Database)
        → atomic m db ≡ (ok a, db')
        → Change env act debt (plan_of db) (plan_of db'))
    → Change env act debt (plan_of db) (plan_of (atomic m db).1)
atomic-Change env act debt m db changes =
    atomic-keeps (λ d. Change env act debt (plan_of db) (plan_of d)) m db
      (Change.unchanged refl refl) changes

pub create_milestone-Change :
    (env : Environment) (debt : Bool) (actor : User) (project : ResearchProject)
    (new : NewMilestone) (db : Database)
    → Change env
        (Act.adds db.next_id)
        debt
        (plan_of db)
        (plan_of (create_milestone env actor project new db).1)
unfolding create_milestone
create_milestone-Change env debt actor project new db =
    atomic-Change env (Act.adds db.next_id) debt _ db λ m db' h.
      require_capability_ok _ _ _ _ _ (atomic_ok _ h) λ w c h1. check_ok _ _ _ h1 λ owners known h2.
        check_ok _ _ _ h2 λ order next h3. fresh_id_ok _ _ h3 λ h4.
          save_milestone_ok _ _ _ h4 λ free h5. modify_ok _ _ _ h5 λ h6. modify_ok _ _ _ h6 λ h7.
            returns (λ b d. Change env (Act.adds db.next_id) debt (plan_of db) (plan_of d)) _ h7
              (Change.added _ refl refl refl refl refl refl)

pub found_itself {ℓ} :
    {A : Type ℓ} (key : A → ℕ) (d : A) (pk : ℕ) (rows : List A)
    → find key pk rows ≡ some d
    → find key (key d) rows ≡ some d
found_itself key d pk rows h = subst (λ k. find key k rows ≡ some d) (sym (find_pk key pk rows h)) h

replace_owners_ok :
    (actor : User) (m : Milestone) (ids : Option (List ℕ)) (db mid : Database) (u : Unit {0})
    → replace_owners actor m ids db ≡ (ok u, mid)
    → plan_of mid ≡ plan_of db
unfolding replace_owners
replace_owners_ok actor m none db mid u h = returns (λ b d. plan_of d ≡ plan_of db) _ h refl
replace_owners_ok actor m (some ids) db mid u h =
    check_ok _ _ _ h λ owners known h1. subst (λ d. plan_of d ≡ plan_of db) (modify_done _ h1) refl

pub update_milestone-Change :
    (env : Environment) (debt : Bool) (actor : User) (pk version : ℕ) (change : MilestoneChange)
    (db : Database)
    → Change env
        (Act.edits pk)
        debt
        (plan_of db)
        (plan_of (update_milestone env actor pk version change db).1)
unfolding update_milestone
update_milestone-Change env debt actor pk version change db =
    atomic-Change env (Act.edits pk) debt _ db λ r db' h.
      check_ok _ _ _ (atomic_ok _ h) λ old found h1. check_ok _ _ _ h1 λ project of h2.
        require_capability_ok _ _ _ _ _ h2 λ w c h3. raise_if_ok _ _ _ _ h3 λ same h4.
          raise_if_ok _ _ _ _ h4 λ live h5. bind_ok _ _ _ h5 λ u mid replaced h6.
            save_milestone_ok _ _ _ h6 λ free h7. reconcile_ok _ _ _ _ h7 λ m a at h8.
              modify_ok _ _ _ h8 λ h9.
                subst (λ p. Change env (Act.edits pk) debt p (plan_of db'))
                  (replace_owners_ok actor old change.owner_ids db mid u replaced)
                  (returns (λ b d. Change env (Act.edits pk) debt (plan_of mid) (plan_of d)) _ h9
                    (Change.edited old (changed_milestone change old) m
                      (ap Act.edits
                        (sym (find_pk (λ r. r.id) pk db.milestones (or_raise_ok _ _ found))))
                      (subst (λ p. find (λ r. r.id) old.id p.milestones ≡ some old)
                        (sym (replace_owners_ok actor old change.owner_ids db mid u replaced))
                        (found_itself (λ r. r.id) old pk db.milestones (or_raise_ok _ _ found)))
                      refl at
                      (sym (
                        find_pk (λ r. r.id) old.id
                          (put (λ r. r.id) (changed_milestone change old) mid.milestones) at))
                      refl refl))

pub archive_milestone-Change :
    (env : Environment) (debt : Bool) (actor : User) (pk version : ℕ) (db : Database)
    → Change env
        (Act.closes pk)
        debt
        (plan_of db)
        (plan_of (archive_milestone env actor pk version db).1)
unfolding archive_milestone
archive_milestone-Change env debt actor pk version db =
    atomic-Change env (Act.closes pk) debt _ db λ r db' h.
      check_ok _ _ _ (atomic_ok _ h) λ m found h1. check_ok _ _ _ h1 λ project of h2.
        require_capability_ok _ _ _ _ _ h2 λ w c h3. raise_if_ok _ _ _ _ h3 λ same h4.
          save_milestone_ok _ _ _ h4 λ free h5. modify_ok _ _ _ h5 λ h6. modify_ok _ _ _ h6 λ h7.
            returns (λ b d. Change env (Act.closes pk) debt (plan_of db) (plan_of d)) _ h7
              (Change.closed m
                (ap Act.closes (sym (find_pk (λ r. r.id) pk db.milestones (or_raise_ok _ _ found))))
                (found_itself (λ r. r.id) m pk db.milestones (or_raise_ok _ _ found)) refl refl)

pub reconcile_milestone-Change :
    (env : Environment) (debt : Bool) (pk : ℕ) (db : Database)
    → Change env (Act.derives pk) debt (plan_of db) (plan_of (reconcile_milestone env pk db).1)
unfolding reconcile_milestone
reconcile_milestone-Change env debt pk db = atomic-Change env (Act.derives pk) debt _ db λ r db' h.
    let (m, found, stored, same) = reconcile_run env pk db db' r h in
    subst (λ d. Change env (Act.derives pk) debt (plan_of db) (plan_of d)) stored
      (Change.derived pk m refl found refl refl)

-- The rows so far come from a table.
abbrev Placed : List Milestone → Database → Database → Type 0
Placed rows db db' =
    All (Comes rows) db'.milestones
    × (db'.deliverables ≡ db.deliverables)
    × KeepsKeys rows db'.milestones

count_remove :
    (j k : ℕ) (rows : List Milestone)
    → count_where (λ m. m.id == k) (remove (λ m. m.id) j rows)
      ≡ (if j == k then 0 else count_where (λ m. m.id == k) rows)
count_remove j k [] = ground arith
count_remove j k (m ∷ rows) = ground (arith, count_remove j k rows)

count_in :
    (m : Milestone) (rows : List Milestone) → IsIn m rows → 1 ≤ count_where (λ x. x.id == m.id) rows
count_in m [] h = absurd h
count_in m (x ∷ rows) (inl same) = rw (← same) (ground arith)
count_in m (x ∷ rows) (inr h) = ground (arith, count_in m rows h)

kept_key :
    (j k before now : ℕ)
    → (j ≡ k → 1 ≤ before)
    → (rest : ℕ) → rest ≡ (if j == k then 0 else now)
    → (now ≤ before) × (1 ≤ before → 1 ≤ now)
    → ((if j == k then 1 else 0) + rest ≤ before)
      × (1 ≤ before → 1 ≤ (if j == k then 1 else 0) + rest)
kept_key j k before now here rest gone (le, some_left) = elim (Bool-cases (j == k)) [
  | inl same ↦ let b = here ((==_iff j k).0 same) in (ground arith, λ h. ground arith)
  | inr other ↦ (ground arith, λ h. let n = some_left h in ground arith)
]

-- A row of the table that is saved with another order and version.
put-Placed :
    (table : List Milestone) (m : Milestone) (order version : ℕ) (start db : Database)
    → IsIn m table
    → Placed table start db
    → Placed table start (store_milestone (relabelled order version m) db)
put-Placed table m order version start db i (comes, ds, keys) = (
  All-put (Comes table) (λ r. r.id) (relabelled order version m) db.milestones (m, i, refl) comes,
  ds,
  λ k.
      kept_key m.id k (count_where (λ x. x.id == k) table)
        (count_where (λ x. x.id == k) db.milestones)
        (λ same. subst (λ j. 1 ≤ count_where (λ x. x.id == j) table) same (count_in m table i)) _
        (count_remove m.id k db.milestones) (keys k),
)

shift_orders_ok :
    (table : List Milestone) (offset : ℕ) (rows : List Milestone) (start db mid : Database)
    (u : Unit {0})
    → All (λ m. IsIn m table) rows
    → Placed table start db
    → shift_orders offset rows db ≡ (ok u, mid)
    → Placed table start mid
unfolding shift_orders
shift_orders_ok table offset [] start db mid u all placed h =
    returns (λ b d. Placed table start d) _ h placed
shift_orders_ok table offset (m ∷ rows) start db mid u all placed h =
    save_milestone_ok _ _ _ h λ free h1.
      shift_orders_ok table offset rows start _ mid u all.1
        (put-Placed table m (m.order + offset) m.version start db all.0 placed) h1

place_all_ok :
    (table rows : List Milestone) (order : ℕ) (pks : List ℕ) (start db mid : Database)
    (out : List Milestone)
    → All (λ m. IsIn m table) rows
    → Placed table start db
    → place_all rows order pks db ≡ (ok out, mid)
    → Placed table start mid
unfolding place_all
place_all_ok table rows order [] start db mid out all placed h =
    returns (λ b d. Placed table start d) _ h placed
place_all_ok table rows order (pk ∷ pks) start db mid out all placed h =
    check_ok _ _ _ h λ row found h1. save_milestone_ok _ _ _ h1 λ free h2.
      bind_ok _ _ _ h2 λ rest last run h3.
        returns (λ b d. Placed table start d) _ h3
          (place_all_ok table rows (suc order) pks start _ last rest all
            (put-Placed table row order (suc row.version) start db
              (All-find (λ m. IsIn m table) (λ r. r.id) pk rows all (or_raise_ok _ _ found)) placed)
            run)

pub reorder_milestones-Change :
    (env : Environment) (debt : Bool) (actor : User) (project : ResearchProject) (ids : List ℕ)
    (db : Database)
    → Change env Act.reorders debt
        (plan_of db)
        (plan_of (reorder_milestones actor project ids db).1)
unfolding reorder_milestones
reorder_milestones-Change env debt actor project ids db =
    atomic-Change env Act.reorders debt _ db λ out db' h.
      require_capability_ok _ _ _ _ _ (atomic_ok _ h) λ w c h1. check_ok _ _ _ h1 λ rows read h2.
        raise_if_ok _ _ _ _ h2 λ known h3. bind_ok _ _ _ h3 λ u mid shifted h4.
          let chosen : select (λ m. m.project == project.id && contains m.id ids) db.milestones
              ≡ rows =
            cc in
          let all : All (λ m. IsIn m db.milestones) rows =
            subst (All (λ m. IsIn m db.milestones)) chosen (
              All-select (λ m. IsIn m db.milestones) (λ m. IsIn m db.milestones) _ db.milestones
                (λ m i e. i) (IsIn-self db.milestones)) in
          let self : All (Comes db.milestones) db.milestones =
            All-weaken (λ m. IsIn m db.milestones) (Comes db.milestones) db.milestones
              (λ m i. (m, i, refl)) (IsIn-self db.milestones) in
          let (ms, ds, keys) =
            place_all_ok db.milestones rows 0 ids db mid db' out all
              (shift_orders_ok db.milestones _ rows db db mid u all
                (self, refl, λ k. (omega arith, λ h. h)) shifted)
              h4 in
          Change.reordered refl keys ms ds

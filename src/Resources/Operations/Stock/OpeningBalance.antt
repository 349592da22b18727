-- ===== src/Resources/Operations/Stock/OpeningBalance.antt =====
-- The opening row of `create_resource` and the sum of the ledger.
use grad_sync.Prelude.{
  ℕ, suc, ◌≤◌, ◌<◌, ◌≡◌, ◌≢◌, refl, ap, sym, ◌∙◌, inl, inr, true, false, ◌&&◌, List, [], ◌∷◌, arith,
  All, remove, ltb, ◌==◌, ==_ne, if◌then◌else◌, find-put_cases, Bool-cases,
}
use grad_sync.Prelude.Int.{pos, ◌+ℤ◌, int_laws}
use grad_sync.Accounts.{User}
use grad_sync.Resources.Model.{ResourceItem, ConsumableStockTransaction, is_consumable}
use grad_sync.Resources.State.{Database, Environment}
use grad_sync.Resources.Effects.Runs.{atomic_err}
use grad_sync.Resources.Booking.Outcomes.{atomic-keeps}
use grad_sync.Resources.Inventory.Creation.{NewResource, opening_row, create_resource}
use grad_sync.Resources.Operations.Stock.Ledger.{ledger_sum, IsBalanced, HasFreshKeys, remove_fresh}
use grad_sync.Resources.Operations.Stock.Opening.{
  opens, opened_stock, opened_next, CreationRun, create_resource_run,
}

-- No row of the ledger is of a resource that is to come.
abbrev pub HasNoFutureRows : Database → Type 0
HasNoFutureRows db = All (λ t. t.resource_item < db.next_id) db.stock

no_rows :
    (k n : ℕ) (rows : List ConsumableStockTransaction)
    → All (λ t. t.resource_item < n) rows
    → n ≤ k
    → ledger_sum k rows ≡ pos 0
unfolding ledger_sum
no_rows k n [] all le = refl
no_rows k n (t ∷ ts) all le = ground (arith, no_rows k n ts)

opened_sum :
    (user : User) (item : ResourceItem) (key : ℕ) (rows : List ConsumableStockTransaction) (k : ℕ)
    → All (λ t. t.id < key) rows
    → ledger_sum k (opened_stock user item key rows) ≡ (
        if opens item && item.id == k
        then ledger_sum k rows +ℤ pos item.stock_on_hand
        else ledger_sum k rows)
unfolding ledger_sum
opened_sum user item key rows k fresh = elim (Bool-cases (opens item)) [
  | inl c ↦ rw (c, remove_fresh key rows fresh)
  | inr c ↦ rw c
]

widen :
    (f : ConsumableStockTransaction → ℕ) (n m : ℕ) (rows : List ConsumableStockTransaction)
    → All (λ t. f t < n) rows
    → n ≤ m
    → All (λ t. f t < m) rows
widen f n m [] all le = tt
widen f n m (t ∷ ts) all le = ground (arith, widen f n m ts)

without :
    (f : ConsumableStockTransaction → ℕ) (k m n : ℕ) (rows : List ConsumableStockTransaction)
    → All (λ t. f t < n) rows
    → n ≤ m
    → All (λ t. f t < m) (remove (λ t. t.id) k rows)
without f k m n [] all le = tt
without f k m n (t ∷ ts) all le = ground (arith, without f k m n ts)

-- Of the new resource, the opening row is the whole ledger.
own_sum :
    (user : User) (item : ResourceItem) (db : Database)
    → HasFreshKeys db
    → HasNoFutureRows db
    → db.next_id ≤ item.id
    → is_consumable item.kind ≡ true
    → ledger_sum item.id (opened_stock user item (suc item.id) db.stock) ≡ pos item.stock_on_hand
own_sum user item db fresh future le consumable =
    let sum =
      opened_sum user item (suc item.id) db.stock item.id
        (widen (λ t. t.id) db.next_id (suc item.id) db.stock fresh (omega (arith, le))) in
    let nothing = no_rows item.id db.next_id db.stock future le in
    let self : (item.id == item.id) ≡ true = ground arith in
    elim (Bool-cases (ltb 0 item.stock_on_hand)) [
      | inl some_stock ↦
          sum ∙ (rw (consumable, some_stock, self, nothing) (grind (arith, int_laws)))
      | inr no_stock ↦ sum ∙ (rw (consumable, no_stock, nothing) (ap pos (ground arith)))
    ]

other_sum :
    (user : User) (item : ResourceItem) (db : Database) (k : ℕ)
    → HasFreshKeys db
    → db.next_id ≤ item.id
    → k ≢ item.id
    → ledger_sum k (opened_stock user item (suc item.id) db.stock) ≡ ledger_sum k db.stock
other_sum user item db k fresh le away =
    let sum =
      opened_sum user item (suc item.id) db.stock k
        (widen (λ t. t.id) db.next_id (suc item.id) db.stock fresh (omega (arith, le))) in
    let other : (item.id == k) ≡ false = ==_ne item.id k (λ e. away (sym e)) in
    elim (Bool-cases (opens item)) [
      | inl c ↦ sum ∙ (rw (c, other) refl)
      | inr c ↦ sum ∙ (rw c refl)
    ]

creation-IsBalanced :
    (user : User) (db db' : Database) (item : ResourceItem)
    → CreationRun user db db' item
    → HasFreshKeys db
    → HasNoFutureRows db
    → IsBalanced db
    → IsBalanced db'
unfolding IsBalanced
creation-IsBalanced user db db' item run fresh future balanced k stored found consumable =
    elim (find-put_cases (λ r. r.id) k item db.items (rw run.items at found)) [
      | inl (e, same) ↦
          let kind : is_consumable item.kind ≡ true = rw same consumable in
          ap (ledger_sum k) run.stock
          ∙ ap (λ n. ledger_sum n (opened_stock user item (suc item.id) db.stock)) e
          ∙ own_sum user item db fresh future run.key kind
          ∙ ap (λ (r : ResourceItem). pos r.stock_on_hand) same
      | inr (away, before) ↦
          ap (ledger_sum k) run.stock
          ∙ other_sum user item db k fresh run.key away
          ∙ balanced k stored before consumable
    ]

-- A bound on a number of every row, when the opening row meets it too.
opened_bound :
    (f : ConsumableStockTransaction → ℕ) (user : User) (item : ResourceItem)
    (rows : List ConsumableStockTransaction) (n : ℕ)
    → All (λ t. f t < n) rows
    → n ≤ item.id
    → f (opening_row user item (suc item.id)) ≤ suc item.id
    → All (λ t. f t < opened_next item (suc item.id)) (opened_stock user item (suc item.id) rows)
opened_bound f user item rows n all le first = elim (Bool-cases (opens item)) [
  | inl c ↦ rw c (
    omega (arith, first),
    without f (suc item.id) (suc (suc item.id)) n rows all (omega (arith, le)),
  )
  | inr c ↦ rw c (widen f n (suc item.id) rows all (omega (arith, le)))
]

creation-AreBounded :
    (user : User) (db db' : Database) (item : ResourceItem)
    → CreationRun user db db' item
    → HasFreshKeys db
    → HasNoFutureRows db
    → HasFreshKeys db' × HasNoFutureRows db'
creation-AreBounded user db db' item run fresh future = (
  rw (run.stock, run.next)
      (opened_bound (λ t. t.id) user item db.stock db.next_id fresh run.key (omega arith)),
  rw (run.stock, run.next)
      (opened_bound (λ t. t.resource_item) user item db.stock db.next_id future run.key
        (omega arith)),
)

-- Creating a resource, whether it succeeds or raises, keeps the sum of the ledger of every consumable
-- equal to its stock on hand, the keys of the ledger below the next one, and every row of the ledger
-- to a resource whose key is below the next one, when all three hold before.
pub create_resource-IsBalanced :
    (env : Environment) (user : User) (new : NewResource) (db : Database)
    → HasFreshKeys db
    → HasNoFutureRows db
    → IsBalanced db
    → let db' = (create_resource env user new db).1 in
      IsBalanced db' × HasFreshKeys db' × HasNoFutureRows db'
unfolding create_resource
create_resource-IsBalanced env user new db fresh future balanced =
    atomic-keeps (λ d. IsBalanced d × HasFreshKeys d × HasNoFutureRows d) db
      (create_resource env user new db) (λ e db'. atomic_err _)
      (λ item db' h.
        let run = create_resource_run env user new db db' item h in
        let (keys, resources) = creation-AreBounded user db db' item run fresh future in
        (creation-IsBalanced user db db' item run fresh future balanced, keys, resources))
      (balanced, fresh, future)

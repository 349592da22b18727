-- ===== src/Resources/Operations/Stock/Ledger.antt =====
-- The stock ledger: its rows add up to the stock on hand.
use grad_sync.Prelude.{
  some_eq, ℕ, ◌+◌, ◌<◌, ◌≡◌, ◌≢◌, refl, inl, inr, true, false, Option, some, List, [], ◌∷◌, ◌++◌,
  Text, arith, ◌∙◌, sym, subst, map, find-put_self, All, find, remove, ltb, leb, ◌==◌,
  if◌then◌else◌, ◌&&◌, find-remove_ne, Bool-cases, ==_iff, find_pk,
}
use grad_sync.Prelude.Int.{ℤ, pos, ◌+ℤ◌, abs}
use grad_sync.Accounts.{User}
use grad_sync.Resources.Model.{ResourceItem, StockKind, ConsumableStockTransaction, is_consumable}
use grad_sync.Resources.State.{ok, Database}
use grad_sync.Resources.Effects.Runs.{atomic_err}
use grad_sync.Resources.Booking.Outcomes.{atomic-keeps}
use grad_sync.Resources.Inventory.{notification_recipients}
use grad_sync.Resources.Operations.Stock.{
  is_receipt, is_issue, is_negative, is_positive, record_stock_transaction,
}
use grad_sync.Resources.Operations.Stock.Runs.{StockRun, record_stock_transaction_run, alert_row}

-- The sum of the deltas of a resource.
unfoldable pub ledger_sum : ℕ → List ConsumableStockTransaction → ℤ
ledger_sum k [] = pos 0
ledger_sum k (t ∷ ts) =
    let rest = ledger_sum k ts in if t.resource_item == k then rest +ℤ t.quantity_delta else rest

-- Every key of the ledger has been given out.
abbrev pub HasFreshKeys : Database → Type 0
HasFreshKeys db = All (λ t. t.id < db.next_id) db.stock

-- For every consumable, the ledger adds up to the stock on hand.
unfoldable pub IsBalanced : Database → Type 0
IsBalanced db =
    (k : ℕ) (item : ResourceItem)
    → find (λ r. r.id) k db.items ≡ some item
    → is_consumable item.kind ≡ true
    → ledger_sum k db.stock ≡ pos item.stock_on_hand

pub remove_fresh :
    (k : ℕ) (rows : List ConsumableStockTransaction)
    → All (λ t. t.id < k) rows
    → remove (λ r. r.id) k rows ≡ rows
remove_fresh k [] h = refl
remove_fresh k (t ∷ ts) h = ground (arith, remove_fresh k ts)

module _ (user : User) (pk : ℕ) (kind : StockKind) (delta : ℤ) (project : Option ℕ)
    (db db' : Database) (row : ConsumableStockTransaction)
    (run : StockRun user pk kind delta project db db' row) (fresh : HasFreshKeys db) where
  new_sum :
      (k : ℕ)
      → ledger_sum k db'.stock
        ≡ (if run.old.id == k then ledger_sum k db.stock +ℤ delta else ledger_sum k db.stock)
  unfolding ledger_sum
  new_sum k = rw (
    run.stock,
    remove_fresh row.id db.stock (rw run.row_key fresh),
    run.row_resource,
    run.row_delta,
  )

  new_item : ResourceItem
  new_item = record (run.old) { stock_on_hand = row.balance_after; version = run.old.version + 1 }

  stock-IsBalanced : IsBalanced db → IsBalanced db'
  unfolding IsBalanced new_item
  stock-IsBalanced balanced k item found consumable = elim (Bool-cases (run.old.id == k)) [
    | inl same ↦
        let stored : some new_item ≡ some item = rw (run.items, same) at found in
        let here : find (λ r. r.id) k db.items ≡ some run.old =
          subst (λ j. find (λ r. r.id) j db.items ≡ some run.old)
            (sym (find_pk (λ r. r.id) pk db.items run.found) ∙ (==_iff run.old.id k).0 same)
            run.found in
        let before : ledger_sum k db.stock ≡ pos run.old.stock_on_hand =
          balanced k run.old here run.consumable in
        rw (new_sum k, same, before, run.balance, ← some_eq stored)
    | inr other ↦
        let stored : find (λ r. r.id) k db.items ≡ some item =
          rw (run.items, other, find-remove_ne (λ r. r.id) k run.old.id db.items (ground arith)) at
            found in
        rw (new_sum k, other, balanced k item stored consumable)
  ]

  -- The keys stay fresh.
  stock-HasFreshKeys : HasFreshKeys db'
  stock-HasFreshKeys =
      rw run.stock (omega (arith, run.keys, run.row_key), kept row.id db.stock fresh)
    where
      kept :
          (k : ℕ) (rows : List ConsumableStockTransaction)
          → All (λ t. t.id < db.next_id) rows
          → All (λ t. t.id < db'.next_id) (remove (λ r. r.id) k rows)
      kept k [] h = tt
      kept k (t ∷ ts) h = ground (arith, kept k ts, run.keys)

-- Recording a transaction keeps, for every consumable, the sum of its ledger equal to the stock on
-- hand, and the keys of the ledger below the next one, when they were so before.
pub record_stock_transaction-IsBalanced :
    (user : User) (pk : ℕ) (kind : StockKind) (delta : ℤ) (project : Option ℕ)
    (unit_cost : Option ℤ) (note : Text) (db : Database)
    → IsBalanced db
    → HasFreshKeys db
    → let db' = (record_stock_transaction user pk kind delta project unit_cost note db).1 in
      IsBalanced db' × HasFreshKeys db'
unfolding record_stock_transaction
record_stock_transaction-IsBalanced user pk kind delta project unit_cost note db balanced fresh =
    atomic-keeps (λ d. IsBalanced d × HasFreshKeys d) db
      (record_stock_transaction user pk kind delta project unit_cost note db)
      (λ x db'. atomic_err _)
      (λ row db' r.
        let run =
          record_stock_transaction_run user pk kind delta project unit_cost note db db' row r in
        (
          stock-IsBalanced user pk kind delta project db db' row run fresh balanced,
          stock-HasFreshKeys user pk kind delta project db db' row run fresh,
        ))
      (balanced, fresh)

-- A transaction that is recorded moves the stock on hand by a delta that is not zero, positive for a
-- receipt and negative for an issue, to a balance that is not below zero, which the new row states;
-- the version of the resource goes up by one. Recipients are alerted exactly when the stock was above
-- the reorder level and no longer is.
pub record_stock_transaction_ok :
    (user : User) (pk : ℕ) (kind : StockKind) (delta : ℤ) (project : Option ℕ)
    (unit_cost : Option ℤ) (note : Text) (db db' : Database) (row : ConsumableStockTransaction)
    → record_stock_transaction user pk kind delta project unit_cost note db ≡ (ok row, db')
    → (old item : ResourceItem) × (find (λ r. r.id) pk db.items ≡ some old)
      × (find (λ r. r.id) pk db'.items ≡ some item)
      × (pos old.stock_on_hand +ℤ delta ≡ pos item.stock_on_hand)
      × (row.balance_after ≡ item.stock_on_hand)
      × (item.version ≡ old.version + 1)
      × (abs delta ≢ 0)
      × (is_receipt kind ≡ true → is_negative delta ≡ false)
      × (is_issue kind ≡ true → is_positive delta ≡ false)
      × (db'.notifications
          ≡ db.notifications
            ++ (if ltb item.reorder_level old.stock_on_hand
                  && leb item.stock_on_hand item.reorder_level
                then map (alert_row user item) (notification_recipients item db)
                else []))
record_stock_transaction_ok user pk kind delta project unit_cost note db db' row h =
    let run = record_stock_transaction_run user pk kind delta project unit_cost note db db' row h in
    let item : ResourceItem = record (run.old) {
      stock_on_hand = row.balance_after;
      version = run.old.version + 1;
    } in
    let stored : find (λ r. r.id) run.old.id db'.items ≡ some item =
      rw run.items (find-put_self (λ r. r.id) item db.items) in
    (
      run.old,
      item,
      run.found,
      subst (λ j. find (λ r. r.id) j db'.items ≡ some item)
          (find_pk (λ r. r.id) pk db.items run.found) stored,
      run.balance,
      refl,
      refl,
      run.moves,
      run.receipt_sign,
      run.issue_sign,
      run.notifications,
    )

-- ===== src/Resources/Operations/Stock/Runs.antt =====
-- What `record_stock_transaction` has done when it returns.
use grad_sync.Prelude.{
  ℕ, suc, ◌+◌, ◌≡◌, ◌≢◌, refl, ap, ◌∙◌, map, Bool, true, false, Option, some, List, ◌++◌, [], ◌∷◌,
  Text, arith, find, put, ltb, leb, if◌then◌else◌, ◌&&◌,
}
use grad_sync.Prelude.Int.{ℤ, pos, pos_part, ◌+ℤ◌, abs}
use grad_sync.Accounts.{User}
use grad_sync.Resources.Model.{ResourceItem, StockKind, ConsumableStockTransaction, is_consumable}
use grad_sync.Resources.State.{ok, err, EventTarget, Subject, Notification, Database}
use grad_sync.Resources.Effects.{
  Action, pure, check, ◌>>=◌, ◌>>◌, modify, add_notifications, notify_all,
}
use grad_sync.Resources.Effects.Runs.{
  check_ok, raise_if_ok, modify_ok, fresh_id_ok, returns, atomic_ok,
}
use grad_sync.Resources.Access.{is_resource_manager}
use grad_sync.Resources.Booking.Endings.{or_missing_ok}
use grad_sync.Resources.Inventory.{notification_recipients}
use grad_sync.Resources.Operations.Stock.{
  is_foreign, is_receipt, is_issue, is_negative, is_positive, low_stock_alert,
  record_stock_transaction,
}

abbrev pub alert_row : User → ResourceItem → ℕ → Notification
alert_row user item recipient = record {
  recipient = recipient;
  sender = some user.id;
  target = EventTarget.resource_target item.id;
  subject = Subject.low_stock item.name item.stock_on_hand item.stock_unit;
}

-- The notifications of the alert: to each recipient, when the stock crosses the level.
abbrev pub alert_rows : User → ℕ → ResourceItem → Database → List Notification
alert_rows user prior item db =
    if ltb item.reorder_level prior && leb item.stock_on_hand item.reorder_level
    then map (alert_row user item) (notification_recipients item db)
    else []

abbrev pub notified : List Notification → Database → Database
notified ns db = record db { notifications = db.notifications ++ ns }

append_assoc :
    (xs : List Notification) (y : Notification) (ys : List Notification)
    → (xs ++ y ∷ []) ++ ys ≡ xs ++ y ∷ ys
append_assoc [] y ys = refl
append_assoc (x ∷ xs) y ys = ap (λ l. x ∷ l) (append_assoc xs y ys)

append_nil : (xs : List Notification) → xs ++ [] ≡ xs
append_nil [] = refl
append_nil (x ∷ xs) = ap (λ l. x ∷ l) (append_nil xs)

pub add_notifications_lem :
    (user : User) (item : ResourceItem) (rs : List ℕ) (db : Database)
    → add_notifications rs
        (some user.id)
        (EventTarget.resource_target item.id)
        (Subject.low_stock item.name item.stock_on_hand item.stock_unit)
        db
      ≡ notified (map (alert_row user item) rs) db
add_notifications_lem user item [] db = rw (append_nil db.notifications)
add_notifications_lem user item (r ∷ rs) db =
    add_notifications_lem user item rs (notified (alert_row user item r ∷ []) db)
    ∙ rw (append_assoc db.notifications (alert_row user item r) (map (alert_row user item) rs))

pub low_stock_alert_ok :
    {B P : Type 0} (user : User) (prior : ℕ) (item : ResourceItem) (k : Action B) (db : Database)
    {db' : Database} {b : B}
    → (low_stock_alert user prior item >> k) db ≡ (ok b, db')
    → (k (notified (alert_rows user prior item db) db) ≡ (ok b, db') → P)
    → P
unfolding low_stock_alert ◌>>=◌ check modify pure
low_stock_alert_ok {B} {P} user prior item k db {db'} {b} h rest =
    go (ltb item.reorder_level prior && leb item.stock_on_hand item.reorder_level) h rest
  where
    rs : List ℕ
    rs = notification_recipients item db

    go :
        (on : Bool)
        → (let (x, mid) =
              (if on
                  then notify_all rs
                      (some user.id)
                      (EventTarget.resource_target item.id)
                      (Subject.low_stock item.name item.stock_on_hand item.stock_unit)
                  else pure tt)
                db in
            elim x [ ok a ↦ k mid | err e ↦ (err e, mid) ])
          ≡ (ok b, db')
        → (k (notified (if on then map (alert_row user item) rs else []) db) ≡ (ok b, db') → P)
        → P
    go true e f = f (rw (← add_notifications_lem user item rs db) e)
    go false e f = f (rw (append_nil db.notifications) e)

-- The stock of the item, and its row of the ledger.
pub record StockRun (user : User) (pk : ℕ) (kind : StockKind) (delta : ℤ) (project : Option ℕ)
    (db db' : Database) (row : ConsumableStockTransaction) : Type 0 where
  pub old : ResourceItem
  pub manager : is_resource_manager user ≡ true
  pub member : is_foreign user project db ≡ false
  pub found : find (λ r. r.id) pk db.items ≡ some old
  pub consumable : is_consumable old.kind ≡ true
  pub moves : abs delta ≢ 0
  pub receipt_sign : is_receipt kind ≡ true → is_negative delta ≡ false
  pub issue_sign : is_issue kind ≡ true → is_positive delta ≡ false
  pub balance : pos old.stock_on_hand +ℤ delta ≡ pos row.balance_after
  pub row_resource : row.resource_item ≡ old.id
  pub row_delta : row.quantity_delta ≡ delta
  pub row_key : row.id ≡ db.next_id
  pub items :
      db'.items
      ≡ put
          (λ r. r.id)
          (record old { stock_on_hand = row.balance_after; version = old.version + 1 })
          db.items
  pub stock : db'.stock ≡ put (λ r. r.id) row db.stock
  pub keys : db'.next_id ≡ suc db.next_id
  pub notifications :
      db'.notifications
      ≡ db.notifications
        ++ alert_rows user old.stock_on_hand
            (record old { stock_on_hand = row.balance_after; version = old.version + 1 })
            db

not_negative : (z : ℤ) → is_negative z ≡ false → z ≡ pos (pos_part z)
not_negative z h = ground arith

pub record_stock_transaction_run :
    (user : User) (pk : ℕ) (kind : StockKind) (delta : ℤ) (project : Option ℕ)
    (unit_cost : Option ℤ) (note : Text) (db db' : Database) (row : ConsumableStockTransaction)
    → record_stock_transaction user pk kind delta project unit_cost note db ≡ (ok row, db')
    → StockRun user pk kind delta project db db' row
unfolding record_stock_transaction notification_recipients
record_stock_transaction_run user pk kind delta project unit_cost note db db' row h =
    raise_if_ok _ _ _ _ (atomic_ok _ _ h) λ manager h1. check_ok _ _ _ h1 λ u member h2.
      check_ok _ _ _ h2 λ old found h3. raise_if_ok _ _ _ _ h3 λ consumable h4.
        raise_if_ok _ _ _ _ h4 λ moves h5. raise_if_ok _ _ _ _ h5 λ receipt_sign h6.
          raise_if_ok _ _ _ _ h6 λ issue_sign h7. raise_if_ok _ _ _ _ h7 λ enough h8.
            modify_ok _ _ _ h8 λ h9. fresh_id_ok _ _ h9 λ h10. modify_ok _ _ _ h10 λ h11.
              modify_ok _ _ _ h11 λ h12. low_stock_alert_ok _ _ _ _ _ h12 λ h13.
                returns (λ b' db''. StockRun user pk kind delta project db db'' b') _ h13
                  (record {
                    old = old;
                    manager = ground arith;
                    member = ground arith;
                    found = or_missing_ok _ found;
                    consumable = ground arith;
                    moves = ground arith;
                    receipt_sign = ground arith;
                    issue_sign = ground arith;
                    balance = not_negative _ enough;
                    row_resource = refl;
                    row_delta = refl;
                    row_key = refl;
                    items = refl;
                    stock = refl;
                    keys = refl;
                    notifications = refl;
                  })

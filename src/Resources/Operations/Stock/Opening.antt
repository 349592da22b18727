-- ===== src/Resources/Operations/Stock/Opening.antt =====
-- The opening row that `create_resource` writes to the stock ledger.
use grad_sync.Prelude.{
  ℕ, suc, ◌≤◌, ◌≡◌, refl, ap, sym, subst, ◌∙◌, inl, inr, Bool, true, false, ◌&&◌, some, List, put,
  map, ltb, leb, if◌then◌else◌, Bool-cases,
}
use grad_sync.Accounts.{User}
use grad_sync.Resources.Model.{ResourceItem, ConsumableStockTransaction, is_consumable}
use grad_sync.Resources.Inventory.{notification_recipients}
use grad_sync.Resources.Operations.Stock.Runs.{add_notifications_lem, alert_row, notified}
use grad_sync.Resources.State.{EventTarget, Subject, Result, ok, err, Database, Environment}
use grad_sync.Resources.Effects.{notify_all, Action, pure, check, ◌>>=◌, ◌>>◌, modify, fresh_id}
use grad_sync.Resources.Effects.Runs.{
  check_ok, raise_if_ok, modify_ok, fresh_id_ok, bind_ok, returns, atomic_ok,
}
use grad_sync.Resources.Operations.{store_item}
use grad_sync.Resources.Inventory.Creation.{
  NewResource, add_stock, opening_row, opening_balance, opening_alert, create_resource,
}
use grad_sync.Resources.Inventory.Saved.{
  OnlyTypes, get_or_create_type_ok, full_clean_ok, save_item_ok,
}

-- The opening row, when the resource is a consumable with stock.
abbrev pub opens : ResourceItem → Bool
opens item = is_consumable item.kind && ltb 0 item.stock_on_hand

abbrev pub opened : User → ResourceItem → Database → Database
opened user item db =
    if opens item
    then add_stock (opening_row user item db.next_id) (record db { next_id = suc db.next_id })
    else db

opening_balance_ok :
    {B P : Type 0} (user : User) (item : ResourceItem) (k : Action B) (db : Database)
    {db' : Database} {b : B}
    → (opening_balance user item >> k) db ≡ (ok b, db')
    → (k (opened user item db) ≡ (ok b, db') → P)
    → P
unfolding opening_balance ◌>>=◌ fresh_id modify pure
opening_balance_ok {B} {P} user item k db {db'} {b} h rest = go (opens item) h rest
  where
    go :
        (on : Bool)
        → (let (x, mid) =
              (if on
                  then fresh_id >>= (λ pk. modify (add_stock (opening_row user item pk)))
                  else pure tt)
                db in
            elim x as (λ y. Result B × Database) [ ok a ↦ k mid | err e ↦ (err e, mid) ])
          ≡ (ok b, db')
        → (k (
                if on
                then add_stock
                    (opening_row user item db.next_id)
                    (record db { next_id = suc db.next_id })
                else db)
              ≡ (ok b, db')
            → P)
        → P
    go true e f = f e
    go false e f = f e

-- The alert writes to no table of these.
alert_same :
    (user : User) (item : ResourceItem) (db mid : Database) (u : Unit {0})
    → opening_alert user item db ≡ (ok u, mid)
    → (mid.items ≡ db.items) × (mid.stock ≡ db.stock) × (mid.next_id ≡ db.next_id)
unfolding opening_alert check ◌>>=◌ modify pure
alert_same user item db mid u h =
    go (is_consumable item.kind && leb item.stock_on_hand item.reorder_level) h
  where
    rs : List ℕ
    rs = notification_recipients item db

    same_tables :
        (d : Database)
        → d ≡ mid
        → (d.items ≡ db.items) × (d.stock ≡ db.stock) × (d.next_id ≡ db.next_id)
        → (mid.items ≡ db.items) × (mid.stock ≡ db.stock) × (mid.next_id ≡ db.next_id)
    same_tables d e t =
        subst (λ d. (d.items ≡ db.items) × (d.stock ≡ db.stock) × (d.next_id ≡ db.next_id)) e t

    go :
        (on : Bool)
        → (if on
              then notify_all rs
                  (some user.id)
                  (EventTarget.resource_target item.id)
                  (Subject.low_stock item.name item.stock_on_hand item.stock_unit)
              else pure tt)
            db
          ≡ (ok u, mid)
        → (mid.items ≡ db.items) × (mid.stock ≡ db.stock) × (mid.next_id ≡ db.next_id)
    go true e =
        same_tables (notified (map (alert_row user item) rs) db)
          (sym (add_notifications_lem user item rs db)
            ∙ ap (λ (r : Result (Unit {0}) × Database). r.1) e)
          (refl, refl, refl)
    go false e =
        same_tables db (ap (λ (r : Result (Unit {0}) × Database). r.1) e) (refl, refl, refl)

-- The ledger and the next key after the opening row.
abbrev pub opened_stock :
    User → ResourceItem → ℕ → List ConsumableStockTransaction → List ConsumableStockTransaction
opened_stock user item key rows =
    if opens item then put (λ r. r.id) (opening_row user item key) rows else rows

abbrev pub opened_next : ResourceItem → ℕ → ℕ
opened_next item key = if opens item then suc key else key

opened_tables :
    (user : User) (item : ResourceItem) (db : Database)
    → let d = opened user item db in
      (d.items ≡ db.items)
      × (d.stock ≡ opened_stock user item db.next_id db.stock)
      × (d.next_id ≡ opened_next item db.next_id)
opened_tables user item db = elim (Bool-cases (opens item)) [
  | inl c ↦ (rw c, rw c, rw c)
  | inr c ↦ (rw c, rw c, rw c)
]

pub record CreationRun (user : User) (db db' : Database) (item : ResourceItem) : Type 0 where
  pub key : db.next_id ≤ item.id
  pub items : db'.items ≡ put (λ r. r.id) item db.items
  pub stock : db'.stock ≡ opened_stock user item (suc item.id) db.stock
  pub next : db'.next_id ≡ opened_next item (suc item.id)

creation_tables :
    (user : User) (item : ResourceItem) (db mid mid2 mid3 : Database) (v : Unit {0})
    → opening_alert user item (opened user item mid2) ≡ (ok v, mid3)
    → OnlyTypes db mid
    → item.id ≡ mid.next_id
    → mid2 ≡ store_item item (record mid { next_id = suc mid.next_id })
    → CreationRun user db mid3 item
creation_tables user item db mid mid2 mid3 v alerting same key saved =
    let (items, stock, keys) = alert_same user item (opened user item mid2) mid3 v alerting in
    let (items2, stock2, keys2) = opened_tables user item mid2 in
    record {
      key = rw key same.keys;
      items =
          items
          ∙ items2
          ∙ ap (λ (d : Database). d.items) saved
          ∙ ap (put (λ r. r.id) item) same.items;
      stock =
          stock
          ∙ stock2
          ∙ ap (λ (d : Database). opened_stock user item d.next_id d.stock) saved
          ∙ ap (opened_stock user item (suc mid.next_id)) same.stock
          ∙ ap (λ (n : ℕ). opened_stock user item (suc n) db.stock) (sym key);
      next =
          keys
          ∙ keys2
          ∙ ap (λ (d : Database). opened_next item d.next_id) saved
          ∙ ap (λ (n : ℕ). opened_next item (suc n)) (sym key);
    }

pub create_resource_run :
    (env : Environment) (user : User) (new : NewResource) (db db' : Database) (item : ResourceItem)
    → create_resource env user new db ≡ (ok item, db')
    → CreationRun user db db' item
unfolding create_resource
create_resource_run env user new db db' item h = raise_if_ok _ _ _ _ (atomic_ok _ _ h) λ manager h1.
    raise_if_ok _ _ _ _ h1 λ named h2. raise_if_ok _ _ _ _ h2 λ counted h3.
      bind_ok _ _ _ h3 λ t mid typing h4. check_ok _ _ _ h4 λ status stated h5.
        fresh_id_ok _ _ h5 λ h6. save_item_ok _ _ _ h6 λ positive h7.
          bind_ok _ _ _ h7 λ u mid2 cleaning h8. opening_balance_ok _ _ _ _ h8 λ h9.
            bind_ok _ _ _ h9 λ v mid3 alerting h10. modify_ok _ _ _ h10 λ h11.
              returns (λ b d. CreationRun user db d b) _ h11
                (let tables =
                    creation_tables _ _ db mid mid2 mid3 v alerting
                      (get_or_create_type_ok _ _ _ _ typing) refl
                      (full_clean_ok _ _ _ _ _ cleaning).0 in
                  record {
                    key = tables.key;
                    items = tables.items;
                    stock = tables.stock;
                    next = tables.next;
                  })

-- ===== src/Resources/Inventory/Updates.antt =====
-- `ResourceInventoryService.update_resource`: what it has done when it returns, and the capacity.
use grad_sync.Prelude.{
  ℕ, ◌+◌, ◌≤◌, ◌≡◌, refl, sym, ap, subst, ◌∙◌, inl, inr, Bool, true, false, ◌&&◌, Option, none,
  some, List, arith, find, put, find_pk, find-put_self, find-put_cases, if◌then◌else◌,
}
use grad_sync.Accounts.{User}
use grad_sync.Resources.Model.{ResourceItem, Kind, SchemaField}
use grad_sync.Resources.State.{ok, err, Error, Database, Environment}
use grad_sync.Resources.Effects.Runs.{
  check_ok, raise_if_ok, modify_ok, bind_ok, returns, atomic_ok, atomic_err,
}
use grad_sync.Resources.Access.{is_resource_manager}
use grad_sync.Resources.Capacity.{usage}
use grad_sync.Resources.Booking.Endings.{or_missing_ok}
use grad_sync.Resources.Booking.Safety.{IsWithinCapacity}
use grad_sync.Resources.Booking.Outcomes.{atomic-keeps}
use grad_sync.Resources.Inventory.{is_clean}
use grad_sync.Resources.Inventory.SafeMinimum.{safe_minimum_quantity}
use grad_sync.Resources.Inventory.SafeMinimum.Peak.{
  AreOrdered, AreSingle, holders-le-safe_minimum, usage-eq-holders,
}
use grad_sync.Resources.Inventory.Items.{
  ResourceUpdate, given, is_outdated, changes_kind, has_history, check_quantity, update_resource,
}
use grad_sync.Resources.Inventory.Saved.{OnlyTypes, new_type_ok, full_clean_ok, save_item_ok}

pub record UpdateRun (env : Environment) (user : User) (pk : ℕ) (attrs : ResourceUpdate)
    (db db' : Database) (item : ResourceItem) : Type 0 where
  pub old : ResourceItem
  pub manager : is_resource_manager user ≡ true
  pub found : find (λ r. r.id) pk db.items ≡ some old
  pub current : is_outdated attrs.version old.version ≡ false
  pub quantity : check_quantity attrs.total_quantity old.id db ≡ ok tt
  pub history : (changes_kind attrs.kind old.kind && has_history old.id db) ≡ false
  pub key : item.id ≡ old.id
  pub version : item.version ≡ old.version + 1
  pub total : item.total_quantity ≡ given attrs.total_quantity old.total_quantity
  pub kind : item.kind ≡ given attrs.kind old.kind
  pub stock_kept : item.stock_on_hand ≡ old.stock_on_hand
  pub fields : List SchemaField
  pub clean : is_clean fields item ≡ true
  pub items : db'.items ≡ put (λ r. r.id) item db.items
  pub bookings : db'.bookings ≡ db.bookings
  pub maintenance : db'.maintenance ≡ db.maintenance
  pub stock : db'.stock ≡ db.stock

history_same : (k : ℕ) (db mid : Database) → OnlyTypes db mid → has_history k mid ≡ has_history k db
history_same k db mid same = rw (same.bookings, same.uses, same.maintenance, same.stock)

quantity_same :
    (q : Option ℕ) (k : ℕ) (db mid : Database)
    → OnlyTypes db mid
    → check_quantity q k mid ≡ check_quantity q k db
unfolding check_quantity
quantity_same none k db mid same = refl
quantity_same (some q) k db mid same = rw same.bookings

if_ok : (c : Bool) (e : Error) → (if c then err e else ok tt) ≡ ok tt → c ≡ false
if_ok true e h = cc
if_ok false e h = refl

pub update_resource_run :
    (env : Environment) (user : User) (pk : ℕ) (attrs : ResourceUpdate) (db db' : Database)
    (item : ResourceItem)
    → update_resource env user pk attrs db ≡ (ok item, db')
    → UpdateRun env user pk attrs db db' item
unfolding update_resource
update_resource_run env user pk attrs db db' item h =
    raise_if_ok _ _ _ _ (atomic_ok _ _ h) λ manager h1. check_ok _ _ _ h1 λ old found h2.
      raise_if_ok _ _ _ _ h2 λ current h3. raise_if_ok _ _ _ _ h3 λ named h4.
        raise_if_ok _ _ _ _ h4 λ typed h5. bind_ok _ _ _ h5 λ t mid typing h6.
          check_ok _ _ _ h6 λ u quantity h7. check_ok _ _ _ h7 λ status given_ok h8.
            check_ok _ _ _ h8 λ v history h9. bind_ok _ _ _ h9 λ w mid2 cleaning h10.
              save_item_ok _ _ _ h10 λ positive h11. modify_ok _ _ _ h11 λ h12.
                let same = new_type_ok _ _ _ _ _ typing in
                let (unchanged, (fields, schema, clean)) = full_clean_ok _ _ _ _ _ cleaning in
                returns (λ b' db''. UpdateRun env user pk attrs db db'' b') _ h12
                  (record {
                    old = old;
                    manager = ground arith;
                    found = or_missing_ok _ found;
                    current = current;
                    quantity =
                        sym (quantity_same attrs.total_quantity old.id db mid same) ∙ quantity;
                    history =
                        ap (λ b. changes_kind attrs.kind old.kind && b)
                          (sym (history_same old.id db mid same))
                        ∙ if_ok _ _ history;
                    key = refl;
                    version = refl;
                    total = refl;
                    kind = refl;
                    stock_kept = refl;
                    fields = fields;
                    clean = clean;
                    items =
                        ap (put (λ r. r.id) _)
                          (ap (λ (d : Database). d.items) unchanged ∙ same.items);
                    bookings = ap (λ (d : Database). d.bookings) unchanged ∙ same.bookings;
                    maintenance = ap (λ (d : Database). d.maintenance) unchanged ∙ same.maintenance;
                    stock = ap (λ (d : Database). d.stock) unchanged ∙ same.stock;
                  })

-- The tests on the new quantity leave room for the bookings of one unit each.
new_total_fits :
    (q : Option ℕ) (old t : ℕ) (k : ℕ) (db : Database)
    → check_quantity q k db ≡ ok tt
    → AreOrdered db.bookings
    → AreSingle k db.bookings
    → usage k t db.bookings ≤ old
    → usage k t db.bookings ≤ given q old
unfolding check_quantity
new_total_fits none old t k db h ordered single within = within
new_total_fits (some q) old t k db h ordered single within =
    rw (usage-eq-holders k t db.bookings single)
      (omega (arith, passed, (holders-le-safe_minimum k t db.bookings ordered).1))
  where
    passed : safe_minimum_quantity k db.bookings ≤ q
    passed = ground arith

-- Where every booking ends after it starts, and the committed bookings of the resource are for one
-- unit each, no change of a resource, also of its total quantity, over-commits it at any instant.
pub update_resource-IsWithinCapacity :
    (env : Environment) (user : User) (pk : ℕ) (attrs : ResourceUpdate) (db : Database)
    → AreOrdered db.bookings
    → AreSingle pk db.bookings
    → IsWithinCapacity db
    → IsWithinCapacity (update_resource env user pk attrs db).1
unfolding update_resource
update_resource-IsWithinCapacity env user pk attrs db ordered single within =
    atomic-keeps IsWithinCapacity db (update_resource env user pk attrs db) (λ x db'. atomic_err _)
      (λ item db' r. kept item db' (update_resource_run env user pk attrs db db' item r)) within
  where
    kept :
        (item : ResourceItem) (db' : Database)
        → UpdateRun env user pk attrs db db' item
        → IsWithinCapacity db'
    kept item db' run k row t found =
        let pk_old = find_pk (λ r. r.id) pk db.items run.found in
        let fits : usage k t db.bookings ≤ row.total_quantity =
          elim (find-put_cases (λ r. r.id) k item db.items (rw run.items at found)) [
            | inr (away, before) ↦ within k row t before
            | inl (e, same) ↦
                let at_pk : k ≡ pk = e ∙ run.key ∙ pk_old in
                let old_fits = within pk run.old t run.found in
                let quantity : check_quantity attrs.total_quantity pk db ≡ ok tt =
                  ap (λ n. check_quantity attrs.total_quantity n db) (sym pk_old) ∙ run.quantity in
                let new_fits =
                  new_total_fits attrs.total_quantity run.old.total_quantity t pk db quantity
                    ordered single old_fits in
                rw (at_pk, ← same, run.total) new_fits
          ] in
        rw run.bookings fits

clean_total :
    (fields : List SchemaField) (item : ResourceItem)
    → is_clean fields item ≡ true
    → 1 ≤ item.total_quantity
unfolding is_clean
clean_total fields item h = ground arith

-- A change that is accepted was made by a manager against the current version, which it raises by
-- one. It keeps the stock on hand, and the kind if the resource has any history; the row is stored,
-- with at least one unit.
pub update_resource_ok :
    (env : Environment) (user : User) (pk : ℕ) (attrs : ResourceUpdate) (db db' : Database)
    (item : ResourceItem)
    → update_resource env user pk attrs db ≡ (ok item, db')
    → (old : ResourceItem) × (find (λ r. r.id) pk db.items ≡ some old)
      × (find (λ r. r.id) pk db'.items ≡ some item)
      × (is_resource_manager user ≡ true)
      × (attrs.version ≡ some old.version)
      × (item.version ≡ old.version + 1)
      × (has_history pk db ≡ true → item.kind ≡ old.kind)
      × (item.stock_on_hand ≡ old.stock_on_hand)
      × (1 ≤ item.total_quantity)
update_resource_ok env user pk attrs db db' item h =
    let run = update_resource_run env user pk attrs db db' item h in
    let pk_old = find_pk (λ r. r.id) pk db.items run.found in
    let stored : find (λ r. r.id) item.id db'.items ≡ some item =
      rw run.items (find-put_self (λ r. r.id) item db.items) in
    (
      run.old,
      run.found,
      subst (λ j. find (λ r. r.id) j db'.items ≡ some item) (run.key ∙ pk_old) stored,
      run.manager,
      current_version attrs.version run.old.version run.current,
      run.version,
      (λ past.
          run.kind
          ∙ kept_kind attrs.kind run.old.kind (has_history run.old.id db) run.history
              (ap (λ n. has_history n db) pk_old ∙ past)),
      run.stock_kept,
      clean_total run.fields item run.clean,
    )
  where
    current_version : (v : Option ℕ) (n : ℕ) → is_outdated v n ≡ false → v ≡ some n
    current_version none n h = cc
    current_version (some v) n h = ground arith

    kept_kind :
        (k : Option Kind) (old : Kind) (past : Bool)
        → (changes_kind k old && past) ≡ false
        → past ≡ true
        → given k old ≡ old
    kept_kind none old past h p = refl
    kept_kind (some Kind.equipment) Kind.equipment past h p = refl
    kept_kind (some Kind.consumable) Kind.consumable past h p = refl
    kept_kind (some Kind.equipment) Kind.consumable past h p = cc
    kept_kind (some Kind.consumable) Kind.equipment past h p = cc

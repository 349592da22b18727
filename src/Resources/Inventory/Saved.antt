-- ===== src/Resources/Inventory/Saved.antt =====
-- What the smaller steps of the inventory operations have done when they return.
use grad_sync.Prelude.{
  ℕ, ◌≤◌, ◌≡◌, refl, Bool, true, false, Option, none, some, List, Text, strip, arith,
}
use grad_sync.Resources.Model.{SchemaField, ResourceType, ResourceItem}
use grad_sync.Resources.Operations.{store_item}
use grad_sync.Resources.State.{Error, ok, Database, Environment}
use grad_sync.Resources.Effects.{Action, ◌>>=◌, ◌>>◌, raise_if, modify}
use grad_sync.Resources.Effects.Runs.{check_ok, modify_ok, fresh_id_ok, returns}
use grad_sync.Resources.Inventory.{
  full_clean, get_or_create_type, add_type, type_or_new, save_item, is_clean, type_schema,
}
use grad_sync.Resources.Inventory.Items.{new_type}

-- At most a resource type has been added.
pub record OnlyTypes (db mid : Database) : Type 0 where
  pub items : mid.items ≡ db.items
  pub bookings : mid.bookings ≡ db.bookings
  pub uses : mid.uses ≡ db.uses
  pub maintenance : mid.maintenance ≡ db.maintenance
  pub stock : mid.stock ≡ db.stock
  pub keys : db.next_id ≤ mid.next_id

pub same_database : (db : Database) → OnlyTypes db db
same_database db = record {
  items = refl;
  bookings = refl;
  uses = refl;
  maintenance = refl;
  stock = refl;
  keys = omega arith;
}

add_type_ok :
    (name : Text) (db mid : Database) (t : ℕ) → add_type name db ≡ (ok t, mid) → OnlyTypes db mid
unfolding add_type
add_type_ok name db mid t h = fresh_id_ok _ _ h λ h1. modify_ok _ _ _ h1 λ h2.
    returns (λ t' d. OnlyTypes db d) _ h2
      (record {
        items = refl;
        bookings = refl;
        uses = refl;
        maintenance = refl;
        stock = refl;
        keys = omega arith;
      })

type_or_new_ok :
    (name : Text) (o : Option ResourceType) (db mid : Database) (t : ℕ)
    → type_or_new name o db ≡ (ok t, mid)
    → OnlyTypes db mid
type_or_new_ok name (some r) db mid t h = returns (λ t' d. OnlyTypes db d) _ h (same_database db)
type_or_new_ok name none db mid t h = add_type_ok name db mid t h

pub get_or_create_type_ok :
    (name : Text) (db mid : Database) (t : ℕ)
    → get_or_create_type name db ≡ (ok t, mid)
    → OnlyTypes db mid
unfolding get_or_create_type
get_or_create_type_ok name db mid t h =
    check_ok _ _ _ h λ existing found h1. type_or_new_ok name existing db mid t h1

pub new_type_ok :
    (name : Option Text) (old : ℕ) (db mid : Database) (t : ℕ)
    → new_type name old db ≡ (ok t, mid)
    → OnlyTypes db mid
unfolding new_type
new_type_ok none old db mid t h = returns (λ t' d. OnlyTypes db d) _ h (same_database db)
new_type_ok (some name) old db mid t h = get_or_create_type_ok (strip name) db mid t h

raise_if_done :
    (c : Bool) (e : Error) (db mid : Database) (u : Unit {0})
    → raise_if c e db ≡ (ok u, mid)
    → (mid ≡ db) × (c ≡ false)
unfolding raise_if
raise_if_done true e db mid u h = cc
raise_if_done false e db mid u h = (ground arith, refl)

-- A row that passes is clean by the schema of its type, and nothing is written.
pub full_clean_ok :
    (env : Environment) (item : ResourceItem) (db mid : Database) (u : Unit {0})
    → full_clean env item db ≡ (ok u, mid)
    → (mid ≡ db)
      × ((schema : List SchemaField) × (type_schema item.resource_type db ≡ ok schema)
          × (is_clean schema item ≡ true))
unfolding full_clean
full_clean_ok env item db mid u h = check_ok _ _ _ h λ schema found h1.
    let (same, passed) = raise_if_done _ _ _ _ _ h1 in (same, (schema, found, ground arith))

pub save_item_ok :
    {B P : Type 0} (item : ResourceItem) (k : Action B) (db : Database) {db' : Database} {b : B}
    → (save_item item >> k) db ≡ (ok b, db')
    → (1 ≤ item.total_quantity → k (store_item item db) ≡ (ok b, db') → P)
    → P
unfolding save_item ◌>>=◌ raise_if modify
save_item_ok item k db h rest = rest (ground arith) (ground arith)

-- ===== src/Resources/Inventory.antt =====
-- `class ResourceInventoryService` of backend/apps/resources/services.py, and what it uses of
-- backend/apps/resources/models.py: the smaller functions. `Creation` and `Items` have the
-- operations on resources, `Uses` those on use submissions.
pub mod SafeMinimum
pub mod Creation
pub mod Items
pub mod Uses
pub mod Saved
pub mod Updates
pub mod Deletion
use grad_sync.Prelude.{
  ℕ, Bool, true, false, not, ◌&&◌, ◌||◌, Option, none, some, List, [], ◌∷◌, ◌++◌, Text, strip,
  is_blank, text_eq, any, select, find, put, ltb, if◌then◌else◌,
}
use grad_sync.Resources.Model.{
  SchemaField, ResourceType, ConfirmationPolicy, ResourceItem, ItemStatus, is_consumable,
}
use grad_sync.Resources.State.{Error, Reason, Result, ok, err, Database, Environment}
use grad_sync.Resources.Effects.{
  Action, pure, check, or_missing, ◌>>=◌, ◌>>◌, raise_if, modify, fresh_id,
}

-- A status as the API spells it; `other` is any further text.
pub data ContractStatus : Type 0 where
  active unavailable retired other : ContractStatus

unfoldable pub resource_status_to_contract : ItemStatus → ContractStatus
resource_status_to_contract ItemStatus.available = ContractStatus.active
resource_status_to_contract ItemStatus.unavailable = ContractStatus.unavailable
resource_status_to_contract ItemStatus.retired = ContractStatus.retired

unfoldable pub resource_status_from_contract : ContractStatus → Result ItemStatus
resource_status_from_contract ContractStatus.active = ok ItemStatus.available
resource_status_from_contract ContractStatus.unavailable = ok ItemStatus.unavailable
resource_status_from_contract ContractStatus.retired = ok ItemStatus.retired
resource_status_from_contract ContractStatus.other =
    err (Error.validation Reason.unsupported_status)

-- `_resource_notification_recipients`
unfoldable pub notification_recipients : ResourceItem → Database → List ℕ
notification_recipients item db = elim item.manager [ some m ↦ m ∷ [] | none ↦ db.active_admins ]

abbrev pub has_key : Text → List SchemaField → Bool
has_key key = any (λ f. text_eq f.key key)

-- `schema_by_key.values()`: blank keys are dropped, and of two fields with one key the last stays.
unfoldable pub schema_by_key : List SchemaField → List SchemaField
schema_by_key [] = []
schema_by_key (f ∷ fs) =
    let rest = schema_by_key fs in if is_blank f.key || has_key f.key fs then rest else f ∷ rest

abbrev pub has_text : Text → List Text → Bool
has_text t = any (text_eq t)

abbrev pub is_truthy : Option ℕ → Bool
is_truthy none = false
is_truthy (some n) = ltb 0 n

-- The tests of `ResourceItem.clean` that do not go to the database.
unfoldable pub is_clean : List SchemaField → ResourceItem → Bool
unfolding schema_by_key
is_clean schema item =
    let fields = schema_by_key schema in
    ltb 0 item.total_quantity
    && not (any (λ f. f.required && not (has_text f.key item.field_values)) fields)
    && not (any (λ key. not (has_key key fields)) item.field_values)
    && not (is_consumable item.kind && is_blank (strip item.stock_unit))
    && not (is_consumable item.kind && is_truthy item.calibration_interval_days)

abbrev pub type_schema : ℕ → Database → Result (List SchemaField)
type_schema pk db = elim (find (λ r. r.id) pk db.types) [
  | none ↦ err Error.does_not_exist
  | some t ↦ ok t.field_schema
]

-- `resource.full_clean()`
unfoldable pub full_clean : Environment → ResourceItem → Action (Unit {0})
full_clean env item = do
  schema ← check (type_schema item.resource_type)
  raise_if (not (env.clean_fields item && is_clean schema item))
      (Error.validation Reason.clean_failed)

-- `ResourceType.objects.get(name=name)`, where none is an answer.
abbrev pub types_named : Text → Database → Result (Option ResourceType)
types_named name db = elim (select (λ t. text_eq t.name name) db.types) [
  | [] ↦ ok none
  | t ∷ ts ↦ elim ts [ [] ↦ ok (some t) | u ∷ us ↦ err Error.multiple_objects ]
]

-- A new type of the name, with no fields.
unfoldable pub add_type : Text → Action ℕ
add_type name = do
  pk ← fresh_id
  let row : ResourceType = record {
    id = pk;
    name = name;
    field_schema = [];
    confirmation_policy = ConfirmationPolicy.immediate;
  }
  modify λ db. record db { types = put (λ r. r.id) row db.types }
  pure pk

abbrev pub type_or_new : Text → Option ResourceType → Action ℕ
type_or_new name (some t) = pure t.id
type_or_new name none = add_type name

-- `ResourceType.objects.get_or_create(name=name, defaults={"field_schema": []})`
unfoldable pub get_or_create_type : Text → Action ℕ
get_or_create_type name = check (types_named name) >>= type_or_new name

-- `resource.save()`, under the check constraint of the table.
unfoldable pub save_item : ResourceItem → Action (Unit {0})
save_item item =
    raise_if (not (ltb 0 item.total_quantity)) Error.integrity
    >> modify (λ db. record db { items = put (λ r. r.id) item db.items })

-- `ResourceItem.objects.select_for_update().get(pk=pk)`
abbrev pub get_item : ℕ → Action ResourceItem
get_item pk = check λ db. or_missing (find (λ r. r.id) pk db.items)

-- ===== src/Resources/Inventory/Creation.antt =====
-- `ResourceInventoryService.create_resource`.
use grad_sync.Prelude.{
  ℕ, ◌&&◌, ◌||◌, Option, none, some, [], Text, text, strip, is_blank, put, ltb, leb, if◌then◌else◌,
}
use grad_sync.Prelude.Int.{ℤ, pos}
use grad_sync.Accounts.{User}
use grad_sync.Resources.Model.{
  ConfirmationPolicy, ResourceItem, Kind, StockKind, ConsumableStockTransaction, is_consumable,
}
use grad_sync.Resources.State.{
  Error, Reason, ok, EventType, EventTarget, Subject, Database, Environment,
}
use grad_sync.Resources.Effects.{
  Action, pure, check, atomic, ◌>>=◌, ◌>>◌, raise_if, modify, fresh_id, record_event, notify_all,
}
use grad_sync.Resources.Access.{require_manager}
use grad_sync.Resources.Inventory.{
  ContractStatus, resource_status_from_contract, notification_recipients, full_clean,
  get_or_create_type, save_item,
}

-- The keyword arguments of `create_resource`, with their defaults filled in.
pub record NewResource : Type 0 where
  pub name : Text
  pub resource_type : Text
  pub total_quantity : ℕ
  pub location : Text
  pub description : Text
  pub use_instructions : Text
  pub status : ContractStatus
  pub confirmation_policy_override : Option ConfirmationPolicy
  pub kind : Kind
  pub stock_on_hand : ℕ
  pub reorder_level : ℕ
  pub stock_unit : Text
  pub unit_cost : ℤ
  pub calibration_interval_days : Option ℕ
  pub next_calibration_at : Option ℕ

abbrev pub add_stock : ConsumableStockTransaction → Database → Database
add_stock row db = record db { stock = put (λ r. r.id) row db.stock }

-- The first row of the stock ledger.
abbrev pub opening_row : User → ResourceItem → ℕ → ConsumableStockTransaction
opening_row user item pk = record {
  id = pk;
  resource_item = item.id;
  project = none;
  kind = StockKind.adjustment;
  quantity_delta = pos item.stock_on_hand;
  balance_after = item.stock_on_hand;
  unit_cost = item.unit_cost;
  note = text "Opening balance";
  recorded_by = user.id;
}

unfoldable pub opening_balance : User → ResourceItem → Action (Unit {0})
opening_balance user item =
    if is_consumable item.kind && ltb 0 item.stock_on_hand
    then fresh_id >>= (λ pk. modify (add_stock (opening_row user item pk)))
    else pure tt

-- The alert for a consumable that starts at or below its reorder level.
unfoldable pub opening_alert : User → ResourceItem → Action (Unit {0})
opening_alert user item = do
  recipients ← check λ db. ok (notification_recipients item db)
  if is_consumable item.kind && leb item.stock_on_hand item.reorder_level
      then notify_all recipients (some user.id) (EventTarget.resource_target item.id)
          (Subject.low_stock item.name item.stock_on_hand item.stock_unit)
      else pure tt

unfoldable pub create_resource : Environment → User → NewResource → Action ResourceItem
create_resource env user new = atomic do
  require_manager user
  raise_if (is_blank (strip new.name) || is_blank (strip new.resource_type))
      (Error.validation Reason.name_and_type_required)
  raise_if (ltb new.total_quantity 1) (Error.validation Reason.quantity_at_least_1)
  resource_type ← get_or_create_type (strip new.resource_type)
  status ← check λ _. resource_status_from_contract new.status
  pk ← fresh_id
  let item : ResourceItem = record {
    id = pk;
    resource_type = resource_type;
    kind = new.kind;
    name = strip new.name;
    description = strip new.description;
    location = strip new.location;
    total_quantity = new.total_quantity;
    field_values = [];
    confirmation_policy_override = new.confirmation_policy_override;
    manager = some user.id;
    use_instructions = strip new.use_instructions;
    stock_on_hand = new.stock_on_hand;
    reorder_level = new.reorder_level;
    stock_unit = strip new.stock_unit;
    unit_cost = new.unit_cost;
    calibration_interval_days = new.calibration_interval_days;
    next_calibration_at = new.next_calibration_at;
    status = status;
    version = 1;
  }
  save_item item
  full_clean env item
  opening_balance user item
  opening_alert user item
  record_event none (some user.id) EventType.resource_created (EventTarget.resource_target pk)
  pure item

-- ===== src/Resources/Operations/Stock.antt =====
-- `ResourceOperationsService.record_stock_transaction`.
pub mod Runs
pub mod Ledger
pub mod Opening
pub mod OpeningBalance
use grad_sync.Prelude.{
  ℕ, ◌+◌, Bool, true, false, not, ◌&&◌, ◌||◌, Option, none, some, List, [], Text, strip, any, find,
  ltb, leb, ◌==◌, if◌then◌else◌,
}
use grad_sync.Prelude.Int.{ℤ, pos, pos_part, neg_part, ◌+ℤ◌, abs}
use grad_sync.Accounts.{User, is_admin_role}
use grad_sync.Resources.Model.{ResourceItem, StockKind, ConsumableStockTransaction, is_consumable}
use grad_sync.Resources.State.{
  Conflict, Error, Reason, Result, ok, err, EventType, EventTarget, Subject, Database,
}
use grad_sync.Resources.Effects.{
  Action, pure, check, atomic, ◌>>=◌, ◌>>◌, raise_if, modify, fresh_id, record_event, notify_all,
}
use grad_sync.Resources.Access.{require_manager}
use grad_sync.Resources.Inventory.{get_item, notification_recipients}
use grad_sync.Resources.Inventory.Creation.{add_stock}
use grad_sync.Resources.Inventory.Items.{given}
use grad_sync.Resources.Operations.{store_item}

abbrev pub is_receipt : StockKind → Bool
is_receipt StockKind.receipt = true
is_receipt _ = false

abbrev pub is_issue : StockKind → Bool
is_issue StockKind.issue = true
is_issue _ = false

abbrev pub is_negative : ℤ → Bool
is_negative d = ltb (pos_part d) (neg_part d)

abbrev pub is_positive : ℤ → Bool
is_positive d = ltb (neg_part d) (pos_part d)

-- `project.memberships.filter(user=user, status="active").exists()`
abbrev pub is_member : ℕ → ℕ → Database → Bool
is_member project user db = any (λ m. m.0 == project && m.1 == user) db.memberships

-- The test on the project that the cost is assigned to.
unfoldable pub is_foreign : User → Option ℕ → Database → Bool
is_foreign user none db = false
is_foreign user (some project) db =
    not (is_admin_role user.global_role) && not (is_member project user.id db)

-- The alert for stock that falls to the reorder level or below it.
unfoldable pub low_stock_alert : User → ℕ → ResourceItem → Action (Unit {0})
low_stock_alert user prior item = do
  recipients ← check λ db. ok (notification_recipients item db)
  if ltb item.reorder_level prior && leb item.stock_on_hand item.reorder_level
      then notify_all recipients (some user.id) (EventTarget.resource_target item.id)
          (Subject.low_stock item.name item.stock_on_hand item.stock_unit)
      else pure tt

unfoldable pub record_stock_transaction :
    User → ℕ → StockKind → ℤ → Option ℕ → Option ℤ → Text → Action ConsumableStockTransaction
record_stock_transaction user pk kind delta project unit_cost note = atomic do
  require_manager user
  check λ db. if is_foreign user project db then err Error.permission_denied else ok tt
  old ← get_item pk
  raise_if (not (is_consumable old.kind)) (Error.validation Reason.consumables_only)
  raise_if (abs delta == 0) (Error.validation Reason.zero_quantity)
  raise_if (is_receipt kind && is_negative delta) (Error.validation Reason.receipt_must_increase)
  raise_if (is_issue kind && is_positive delta) (Error.validation Reason.issue_must_decrease)
  let balance : ℤ = pos old.stock_on_hand +ℤ delta
  raise_if (is_negative balance)
      (Error.conflict (Conflict.insufficient_consumable_stock old.stock_on_hand (abs delta)))
  let item : ResourceItem = record old {
    stock_on_hand = pos_part balance;
    version = old.version + 1;
  }
  modify (store_item item)
  key ← fresh_id
  let row : ConsumableStockTransaction = record {
    id = key;
    resource_item = item.id;
    project = project;
    kind = kind;
    quantity_delta = delta;
    balance_after = pos_part balance;
    unit_cost = given unit_cost item.unit_cost;
    note = strip note;
    recorded_by = user.id;
  }
  modify (add_stock row)
  record_event project (some user.id) (EventType.stock_recorded delta (pos_part balance))
      (EventTarget.stock_target key)
  low_stock_alert user old.stock_on_hand item
  pure row

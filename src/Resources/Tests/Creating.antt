-- ===== src/Resources/Tests/Creating.antt =====
-- A consumable that is created with stock.
use grad_sync.Prelude.{[], none, text, arith}
use grad_sync.Prelude.Int.{pos}
use grad_sync.Resources.Model.{Kind}
use grad_sync.Resources.Inventory.{ContractStatus}
use grad_sync.Resources.Inventory.Creation.{NewResource, create_resource}
use grad_sync.Resources.Operations.Stock.Ledger.{IsBalanced, HasFreshKeys}
use grad_sync.Resources.Operations.Stock.OpeningBalance.{
  HasNoFutureRows, create_resource-IsBalanced,
}
use grad_sync.Resources.Tests.{manager, clock, lab}
use grad_sync.Resources.Tests.Operating.{lab-IsBalanced}

abbrev tips : NewResource
tips = record {
  name = text "tips";
  resource_type = text "plastics";
  total_quantity = 1;
  location = [];
  description = [];
  use_instructions = [];
  status = ContractStatus.active;
  confirmation_policy_override = none;
  kind = Kind.consumable;
  stock_on_hand = 40;
  reorder_level = 10;
  stock_unit = text "box";
  unit_cost = pos 0;
  calibration_interval_days = none;
  next_calibration_at = none;
}

create_resource-IsBalanced_example :
    let db' = (create_resource (clock 500) manager tips lab).1 in
    IsBalanced db' × HasFreshKeys db' × HasNoFutureRows db'
create_resource-IsBalanced_example =
    create_resource-IsBalanced (clock 500) manager tips lab (omega arith, tt) (omega arith, tt)
      lab-IsBalanced

-- ===== src/Resources/Tests/Operating.antt =====
-- Maintenance and stock of the laboratory.
use grad_sync.Prelude.{
  [], any, ◌+◌, ◌≡◌, ◌≢◌, refl, true, false, none, some, ◌++◌, strip, text, arith, find, map, ltb,
  leb, ◌&&◌, if◌then◌else◌,
}
use grad_sync.Prelude.Int.{pos, negsuc, ◌+ℤ◌, abs}
use grad_sync.Resources.Model.{
  ResourceItem, StockKind, ConsumableStockTransaction, MaintenanceKind, MaintenanceStatus,
}
use grad_sync.Resources.State.{ok, Database}
use grad_sync.Resources.Effects.{statements}
use grad_sync.Resources.Inventory.{notification_recipients}
use grad_sync.Resources.Operations.Maintenance.{
  NewMaintenance, create_maintenance, transition_maintenance,
}
use grad_sync.Resources.Operations.Maintenance.Outages.{IsTakenDown, maintenance-IsTakenDown}
use grad_sync.Resources.Operations.Stock.{
  is_receipt, is_issue, is_negative, is_positive, is_foreign, low_stock_alert,
  record_stock_transaction,
}
use grad_sync.Resources.Operations.Stock.Runs.{alert_row}
use grad_sync.Resources.Operations.Stock.Ledger.{
  ledger_sum, IsBalanced, HasFreshKeys, record_stock_transaction-IsBalanced,
  record_stock_transaction_ok,
}
use grad_sync.Resources.Operations.{is_outage}
use grad_sync.Resources.Operations.Alerts.{
  outage_update, alert_resources, is_calibration_due, reconcile_resource_operation_alerts,
}
use grad_sync.Resources.Operations.Alerts.Safety.{reconcile_resource_operation_alerts_ok}
use grad_sync.Resources.Tests.{microscope, manager, clock, lab}

abbrev service : NewMaintenance
service = record {
  kind = MaintenanceKind.fault;
  title = text "lamp";
  scheduled_at = 900;
  due_at = none;
  details = [];
  provider = [];
  takes_offline = true;
  cost = pos 0;
}

lab-IsTakenDown : IsTakenDown lab
unfolding IsTakenDown
lab-IsTakenDown j m found running item at_item = ground arith

maintenance-IsTakenDown_example :
    IsTakenDown (create_maintenance (clock 500) manager 7 service lab).1
    × IsTakenDown
        (transition_maintenance (clock 500) manager 30 MaintenanceStatus.completed none lab).1
maintenance-IsTakenDown_example =
    maintenance-IsTakenDown (clock 500) manager 7 service 30 MaintenanceStatus.completed none lab
      lab-IsTakenDown

pub lab-IsBalanced : IsBalanced lab
unfolding IsBalanced ledger_sum ◌+ℤ◌
lab-IsBalanced k item found consumable = ground arith

record_stock_transaction-IsBalanced_example :
    let db' = (record_stock_transaction manager 8 StockKind.issue (negsuc 3) none none [] lab).1 in
    IsBalanced db' × HasFreshKeys db'
record_stock_transaction-IsBalanced_example =
    record_stock_transaction-IsBalanced manager 8 StockKind.issue (negsuc 3) none none [] lab
      lab-IsBalanced (omega arith, tt)

issued_lab : Database
unfolding statements record_stock_transaction
issued_lab = (record_stock_transaction manager 8 StockKind.issue (negsuc 3) none none [] lab).1

abbrev issue_row : ConsumableStockTransaction
issue_row = record {
  id = 50;
  resource_item = 8;
  project = none;
  kind = StockKind.issue;
  quantity_delta = negsuc 3;
  balance_after = 1;
  unit_cost = pos 100;
  note = [];
  recorded_by = 1;
}

issued :
    record_stock_transaction manager 8 StockKind.issue (negsuc 3) none none [] lab
    ≡ (ok issue_row, issued_lab)
unfolding issued_lab statements record_stock_transaction is_foreign low_stock_alert ◌+ℤ◌
    notification_recipients strip
issued = refl

record_stock_transaction_ok_example :
    (old item : ResourceItem) × (find (λ r. r.id) 8 lab.items ≡ some old)
    × (find (λ r. r.id) 8 issued_lab.items ≡ some item)
    × (pos old.stock_on_hand +ℤ negsuc 3 ≡ pos item.stock_on_hand)
    × (1 ≡ item.stock_on_hand)
    × (item.version ≡ old.version + 1)
    × (abs (negsuc 3) ≢ 0)
    × (is_receipt StockKind.issue ≡ true → is_negative (negsuc 3) ≡ false)
    × (is_issue StockKind.issue ≡ true → is_positive (negsuc 3) ≡ false)
    × (issued_lab.notifications
        ≡ lab.notifications
          ++ (if ltb item.reorder_level old.stock_on_hand
                && leb item.stock_on_hand item.reorder_level
              then map (alert_row manager item) (notification_recipients item lab)
              else []))
record_stock_transaction_ok_example =
    record_stock_transaction_ok manager 8 StockKind.issue (negsuc 3) none none [] lab issued_lab
      issue_row issued

reconciled_item :
    find (λ r. r.id) 7 (reconcile_resource_operation_alerts (clock 500) lab).1.items
    ≡ some microscope
unfolding reconcile_resource_operation_alerts outage_update alert_resources
reconciled_item = refl

reconcile_resource_operation_alerts_ok_example :
    (any (is_outage 500 7) (reconcile_resource_operation_alerts (clock 500) lab).1.maintenance
      ≡ false)
    × (is_calibration_due 20 none ≡ false)
reconcile_resource_operation_alerts_ok_example =
    reconcile_resource_operation_alerts_ok (clock 500) lab 7 microscope reconciled_item refl refl

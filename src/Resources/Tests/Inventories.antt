-- ===== src/Resources/Tests/Inventories.antt =====
-- The inventory of the laboratory.
use grad_sync.Prelude.{text, ◌+◌, ◌≤◌, ◌≡◌, refl, true, none, some, [], arith, find}
use grad_sync.Prelude.Int.{◌+ℤ◌}
use grad_sync.Resources.Model.{ResourceItem, Kind}
use grad_sync.Resources.State.{ok, Database}
use grad_sync.Resources.Effects.{statements}
use grad_sync.Resources.Booking.Safety.{IsWithinCapacity}
use grad_sync.Resources.Inventory.{full_clean, save_item, is_clean}
use grad_sync.Resources.Inventory.Items.{
  ResourceUpdate, update_resource, delete_resource, new_type, check_quantity, given_status,
  has_history,
}
use grad_sync.Resources.Inventory.SafeMinimum.{safe_minimum_quantity}
use grad_sync.Resources.Inventory.SafeMinimum.Peak.{holders-le-safe_minimum}
use grad_sync.Resources.Inventory.Updates.{update_resource-IsWithinCapacity, update_resource_ok}
use grad_sync.Resources.Inventory.Deletion.{
  IsReferential, delete_resource_lem, IsDeletion, delete_resource-IsReferential,
}
use grad_sync.Resources.Model.{ResourceUseSubmission, SubmissionType, UseStatus}
use grad_sync.Resources.Tests.{manager, clock, microscope, gloves, centrifuge, lab}
use grad_sync.Resources.Tests.Bookings.{lab-IsWithinCapacity}

-- One microscope is sold.
abbrev sale : ResourceUpdate
sale = record {
  version = some 4;
  name = none;
  resource_type = none;
  description = none;
  location = none;
  total_quantity = some 1;
  use_instructions = none;
  status = none;
  confirmation_policy_override = none;
  kind = none;
  reorder_level = none;
  unit_cost = none;
  calibration_interval_days = none;
  next_calibration_at = none;
  stock_unit = none;
}

update_resource-IsWithinCapacity_example :
    IsWithinCapacity (update_resource (clock 500) manager 7 sale lab).1
update_resource-IsWithinCapacity_example =
    update_resource-IsWithinCapacity (clock 500) manager 7 sale lab (ground arith) (ground arith)
      lab-IsWithinCapacity

sold_lab : Database
unfolding statements update_resource
sold_lab = (update_resource (clock 500) manager 7 sale lab).1

abbrev last_microscope : ResourceItem
last_microscope = record microscope { total_quantity = 1; version = 5 }

sold : update_resource (clock 500) manager 7 sale lab ≡ (ok last_microscope, sold_lab)
unfolding sold_lab statements update_resource new_type check_quantity given_status full_clean
    save_item is_clean safe_minimum_quantity ◌+ℤ◌
sold = refl

update_resource_ok_example :
    (old : ResourceItem) × (find (λ r. r.id) 7 lab.items ≡ some old)
    × (find (λ r. r.id) 7 sold_lab.items ≡ some last_microscope)
    × (true ≡ true)
    × (some 4 ≡ some old.version)
    × (5 ≡ old.version + 1)
    × (has_history 7 lab ≡ true → Kind.equipment ≡ old.kind)
    × (0 ≡ old.stock_on_hand)
    × (1 ≤ 1)
update_resource_ok_example =
    update_resource_ok (clock 500) manager 7 sale lab sold_lab last_microscope sold

delete_resource_lem_example : IsDeletion manager.id 8 lab (delete_resource manager 8 lab)
delete_resource_lem_example = delete_resource_lem manager 8 lab gloves refl refl

lab-IsReferential : IsReferential lab
unfolding IsReferential
lab-IsReferential = (
  ((microscope, refl), ((microscope, refl), ((centrifuge, refl), ((microscope, refl), tt)))),
  tt,
  ((centrifuge, refl), tt),
  ((gloves, refl), tt),
)

delete_resource-IsReferential_example : IsReferential (delete_resource manager 8 lab).1
delete_resource-IsReferential_example =
    delete_resource-IsReferential manager 8 lab lab-IsReferential

holders-le-safe_minimum_example :
    (1 ≤ safe_minimum_quantity 7 lab.bookings) × (1 ≤ safe_minimum_quantity 7 lab.bookings)
holders-le-safe_minimum_example = holders-le-safe_minimum 7 1_500 lab.bookings (ground arith)

abbrev request : ResourceUseSubmission
request = record {
  id = 45;
  resource_item = 7;
  student = 2;
  submission_type = SubmissionType.request;
  details = text "x";
  status = UseStatus.pending;
  reviewer = none;
  decision_note = [];
  decided_at = none;
}

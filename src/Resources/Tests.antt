-- ===== src/Resources/Tests.antt =====
-- A small laboratory, on which the theorems about resources are tried out.
mod Bookings
mod Inventories
mod Creating
mod Operating
use grad_sync.Prelude.{ℕ, Bool, true, false, Option, none, some, List, [], ◌∷◌, text}
use grad_sync.Prelude.Int.{pos}
use grad_sync.Accounts.{RequestedRole, User, GlobalRole, UserStatus}
use grad_sync.Resources.Model.{
  ResourceType, ResourceItem, Kind, ItemStatus, ConfirmationPolicy, Booking, BookingStatus, Origin,
  ResourceMaintenanceRecord, MaintenanceKind, MaintenanceStatus, ConsumableStockTransaction,
  StockKind,
}
use grad_sync.Resources.State.{Database, Environment}

abbrev pub manager : User
manager = record {
  id = 1;
  is_authenticated = true;
  status = UserStatus.active;
  global_role = GlobalRole.advisor;
  email_verified_at = some 10;
  active_role = RequestedRole.teacher;
}

abbrev pub pupil : User
pupil = record {
  id = 2;
  is_authenticated = true;
  status = UserStatus.active;
  global_role = GlobalRole.student;
  email_verified_at = some 10;
  active_role = RequestedRole.teacher;
}

abbrev pub clock : ℕ → Environment
clock now = record { now = now; today = 20; clean_fields = λ item. true; notifies = true }

abbrev pub lab_type : ResourceType
lab_type = record {
  id = 5;
  name = text "device";
  field_schema = [];
  confirmation_policy = ConfirmationPolicy.approval_required;
}

-- A row of the inventory; the rest of it is the same for all.
abbrev pub stocked : ℕ → Kind → ItemStatus → ℕ → ℕ → ResourceItem
stocked pk kind status total stock = record {
  id = pk;
  resource_type = 5;
  kind = kind;
  name = text "item";
  description = [];
  location = [];
  total_quantity = total;
  field_values = [];
  confirmation_policy_override = none;
  manager = some 1;
  use_instructions = [];
  stock_on_hand = stock;
  reorder_level = 2;
  stock_unit = text "box";
  unit_cost = pos 100;
  calibration_interval_days = none;
  next_calibration_at = none;
  status = status;
  version = 4;
}

-- Two microscopes, a consumable, and a centrifuge that is under repair.
abbrev pub microscope : ResourceItem
microscope = stocked 7 Kind.equipment ItemStatus.available 2 0

abbrev pub gloves : ResourceItem
gloves = stocked 8 Kind.consumable ItemStatus.available 1 5

abbrev pub centrifuge : ResourceItem
centrifuge = stocked 9 Kind.equipment ItemStatus.unavailable 1 0

abbrev pub booked : ℕ → ℕ → ℕ → ℕ → BookingStatus → Booking
booked pk k start finish status = record {
  id = pk;
  project = none;
  resource_item = k;
  requested_by = 2;
  starts_at = start;
  ends_at = finish;
  quantity = 1;
  origin = Origin.student_request;
  confirmation_policy = ConfirmationPolicy.approval_required;
  status = status;
  purpose = text "thesis";
  reviewer = none;
  decision_note = [];
  decided_at = none;
  version = 1;
  cancelled_at = none;
  completed_at = none;
}

abbrev pub confirmed_booking : Booking
confirmed_booking = booked 20 7 1_000 2_000 BookingStatus.confirmed

abbrev pub pending_booking : Booking
pending_booking = booked 21 7 3_000 4_000 BookingStatus.pending

abbrev pub stranded_booking : Booking
stranded_booking = booked 22 9 3_000 4_000 BookingStatus.pending

abbrev pub cancelled_booking : Booking
cancelled_booking = booked 23 7 1_000 2_000 BookingStatus.cancelled

abbrev pub repair : ResourceMaintenanceRecord
repair = record {
  id = 30;
  resource_item = 9;
  kind = MaintenanceKind.repair;
  status = MaintenanceStatus.in_progress;
  title = text "rotor";
  details = [];
  provider = [];
  scheduled_at = 100;
  due_at = none;
  completed_at = none;
  takes_offline = true;
  cost = pos 0;
  created_by = 1;
  completed_by = none;
}

abbrev pub delivery : ConsumableStockTransaction
delivery = record {
  id = 40;
  resource_item = 8;
  project = none;
  kind = StockKind.receipt;
  quantity_delta = pos 5;
  balance_after = 5;
  unit_cost = pos 100;
  note = [];
  recorded_by = 1;
}

abbrev pub lab : Database
lab = record {
  types = lab_type ∷ [];
  items = microscope ∷ gloves ∷ centrifuge ∷ [];
  uses = [];
  bookings = confirmed_booking ∷ pending_booking ∷ stranded_booking ∷ cancelled_booking ∷ [];
  maintenance = repair ∷ [];
  stock = delivery ∷ [];
  active_admins = 3 ∷ [];
  memberships = [];
  events = [];
  notifications = [];
  next_id = 50;
}

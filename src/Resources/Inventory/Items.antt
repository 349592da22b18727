-- ===== src/Resources/Inventory/Items.antt =====
-- `ResourceInventoryService.update_resource`, `retire_resource` and `delete_resource`.
use grad_sync.Prelude.{
  ℕ, ◌+◌, Bool, true, false, not, ◌&&◌, ◌||◌, Option, none, some, Text, strip, is_blank, any,
  count_where, remove, ltb, ◌==◌, if◌then◌else◌,
}
use grad_sync.Prelude.Int.{ℤ}
use grad_sync.Accounts.{User}
use grad_sync.Resources.Model.{ConfirmationPolicy, ResourceItem, ItemStatus, Kind}
use grad_sync.Resources.State.{
  Conflict, Error, Reason, Result, ok, err, EventType, EventTarget, Database, Environment,
}
use grad_sync.Resources.Effects.{
  Action, pure, check, atomic, ◌>>=◌, ◌>>◌, raise_if, modify, record_event,
}
use grad_sync.Resources.Access.{require_manager}
use grad_sync.Resources.Inventory.{
  ContractStatus, resource_status_from_contract, full_clean, get_or_create_type, save_item,
  get_item,
}
use grad_sync.Resources.Inventory.SafeMinimum.{safe_minimum_quantity}

-- The keyword arguments of `update_resource`. Where an argument that is missing and one that is `None`
-- are treated alike, both are `none`; where they differ, the outer `none` is the missing argument.
pub record ResourceUpdate : Type 0 where
  pub version : Option ℕ
  pub name : Option Text
  pub resource_type : Option Text
  pub description : Option Text
  pub location : Option Text
  pub total_quantity : Option ℕ
  pub use_instructions : Option Text
  pub status : Option ContractStatus
  pub confirmation_policy_override : Option (Option ConfirmationPolicy)
  pub kind : Option Kind
  pub reorder_level : Option ℕ
  pub unit_cost : Option ℤ
  pub calibration_interval_days : Option (Option ℕ)
  pub next_calibration_at : Option (Option ℕ)
  pub stock_unit : Option Text

-- `attrs[field] if it is given else the old value`
abbrev pub given {ℓ} : {A : Type ℓ} → Option A → A → A
given none old = old
given (some new) old = new

abbrev pub given_text : Option Text → Text → Text
given_text none old = old
given_text (some new) old = strip new

abbrev pub is_blank_given : Option Text → Bool
is_blank_given none = false
is_blank_given (some t) = is_blank (strip t)

-- `expected_version is None or expected_version != resource.version`
abbrev pub is_outdated : Option ℕ → ℕ → Bool
is_outdated none version = true
is_outdated (some expected) version = not (expected == version)

abbrev pub kind_eq : Kind → Kind → Bool
kind_eq Kind.equipment Kind.equipment = true
kind_eq Kind.consumable Kind.consumable = true
kind_eq _ _ = false

-- `requested_kind and requested_kind != resource.kind`
abbrev pub changes_kind : Option Kind → Kind → Bool
changes_kind none old = false
changes_kind (some new) old = not (kind_eq new old)

abbrev pub has_history : ℕ → Database → Bool
has_history k db =
    any (λ b. b.resource_item == k) db.bookings
    || any (λ u. u.resource_item == k) db.uses
    || any (λ m. m.resource_item == k) db.maintenance
    || any (λ t. t.resource_item == k) db.stock

unfoldable pub new_type : Option Text → ℕ → Action ℕ
new_type none old = pure old
new_type (some name) old = get_or_create_type (strip name)

-- The tests on `total_quantity`, with the sweep over the bookings of the resource.
unfoldable pub check_quantity : Option ℕ → ℕ → Database → Result (Unit {0})
check_quantity none k db = ok tt
check_quantity (some requested) k db =
    let safe_minimum = safe_minimum_quantity k db.bookings in
    if ltb requested 1
    then err (Error.validation Reason.quantity_at_least_1)
    else if ltb requested safe_minimum
    then err (Error.conflict (Conflict.quantity_commitment_conflict safe_minimum))
    else ok tt

unfoldable pub given_status : Option ContractStatus → ItemStatus → Result ItemStatus
given_status none old = ok old
given_status (some s) old = resource_status_from_contract s

-- `resource.manager or self.user`
abbrev pub or_user : Option ℕ → ℕ → Option ℕ
or_user none user = some user
or_user (some m) user = some m

unfoldable pub update_resource : Environment → User → ℕ → ResourceUpdate → Action ResourceItem
update_resource env user pk attrs = atomic do
  require_manager user
  old ← get_item pk
  raise_if (is_outdated attrs.version old.version)
      (Error.conflict (Conflict.stale_resource_version old.version))
  raise_if (is_blank_given attrs.name) (Error.validation Reason.name_required)
  raise_if (is_blank_given attrs.resource_type) (Error.validation Reason.type_required)
  resource_type ← new_type attrs.resource_type old.resource_type
  check (check_quantity attrs.total_quantity old.id)
  status ← check λ _. given_status attrs.status old.status
  check λ db.
      if changes_kind attrs.kind old.kind && has_history old.id db
      then err (Error.conflict Conflict.resource_kind_has_history)
      else ok tt
  let item : ResourceItem = record old {
    resource_type = resource_type;
    kind = given attrs.kind old.kind;
    name = given_text attrs.name old.name;
    description = given_text attrs.description old.description;
    location = given_text attrs.location old.location;
    total_quantity = given attrs.total_quantity old.total_quantity;
    confirmation_policy_override =
        given attrs.confirmation_policy_override old.confirmation_policy_override;
    manager = or_user old.manager user.id;
    use_instructions = given_text attrs.use_instructions old.use_instructions;
    reorder_level = given attrs.reorder_level old.reorder_level;
    stock_unit = given_text attrs.stock_unit old.stock_unit;
    unit_cost = given attrs.unit_cost old.unit_cost;
    calibration_interval_days = given attrs.calibration_interval_days old.calibration_interval_days;
    next_calibration_at = given attrs.next_calibration_at old.next_calibration_at;
    status = status;
    version = old.version + 1;
  }
  full_clean env item
  save_item item
  record_event none (some user.id) EventType.resource_updated (EventTarget.resource_target item.id)
  pure item

unfoldable pub retire_resource : User → ℕ → Action ResourceItem
retire_resource user pk = atomic do
  require_manager user
  old ← get_item pk
  let item : ResourceItem = record old { status = ItemStatus.retired; version = old.version + 1 }
  save_item item
  record_event none (some user.id) EventType.resource_retired (EventTarget.resource_target item.id)
  pure item

-- `dependency_counts`, in the order of its keys.
pub record Dependencies : Type 0 where
  pub bookings : ℕ
  pub use_submissions : ℕ
  pub maintenance_records : ℕ
  pub stock_transactions : ℕ

abbrev pub dependencies : ℕ → Database → Dependencies
dependencies k db = record {
  bookings = count_where (λ b. b.resource_item == k) db.bookings;
  use_submissions = count_where (λ u. u.resource_item == k) db.uses;
  maintenance_records = count_where (λ m. m.resource_item == k) db.maintenance;
  stock_transactions = count_where (λ t. t.resource_item == k) db.stock;
}

-- `any(dependency_counts.values())`
abbrev pub has_dependencies : Dependencies → Bool
has_dependencies d =
    ltb 0 d.bookings
    || ltb 0 d.use_submissions
    || ltb 0 d.maintenance_records
    || ltb 0 d.stock_transactions

-- The event of a rejected deletion is written inside the transaction that the exception then ends.
unfoldable pub delete_resource : User → ℕ → Action (Unit {0})
delete_resource user pk = atomic do
  require_manager user
  item ← get_item pk
  counts ← check λ db. ok (dependencies item.id db)
  if has_dependencies counts
      then record_event none (some user.id) EventType.resource_delete_rejected
          (EventTarget.resource_target item.id)
      else pure tt
  raise_if (has_dependencies counts) (
      Error.conflict (
        Conflict.resource_has_history counts.bookings counts.use_submissions
          counts.maintenance_records counts.stock_transactions))
  record_event none (some user.id) EventType.resource_deleted (EventTarget.resource_target item.id)
  modify λ db. record db { items = remove (λ r. r.id) item.id db.items }
  pure tt

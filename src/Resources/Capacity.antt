-- ===== src/Resources/Capacity.antt =====
-- Which bookings hold a resource, and the admission test `BookingService._assert_capacity`.
pub mod Usage
pub mod Exact
use grad_sync.Prelude.{
  ℕ, ◌+◌, ◌-◌, Bool, true, false, not, ◌&&◌, ◌||◌, Option, none, some, List, ltb, leb, ◌==◌,
  if◌then◌else◌, find, any, sum_where,
}
use grad_sync.Resources.Model.{
  ResourceItem, Booking, ResourceMaintenanceRecord, MaintenanceKind, MaintenanceStatus, Datetime,
  is_available, is_consumable, is_committed,
}
use grad_sync.Resources.State.{
  Conflict, Error, Result, ok, err, Database, insufficient_capacity, consumable_not_bookable,
  resource_unusable, calibration_due, resource_maintenance_conflict,
}

abbrev pub is_open : MaintenanceStatus → Bool
is_open MaintenanceStatus.scheduled = true
is_open MaintenanceStatus.in_progress = true
is_open _ = false

-- The booking counts against resource `k` at instant `t`.
abbrev pub holds : ℕ → ℕ → Booking → Bool
holds k t b = b.resource_item == k && is_committed b.status && leb b.starts_at t && ltb t b.ends_at

-- How many units of resource `k` the bookings take at instant `t`.
abbrev pub usage : ℕ → ℕ → List Booking → ℕ
usage k t = sum_where (holds k t) (λ b. b.quantity)

abbrev pub is_excluded : Option ℕ → Booking → Bool
is_excluded none b = false
is_excluded (some pk) b = b.id == pk

-- The queryset `overlapping`.
abbrev pub overlaps : ℕ → ℕ → ℕ → Option ℕ → Booking → Bool
overlaps k s e exclude b =
    not (is_excluded exclude b)
    && (b.resource_item == k && is_committed b.status && ltb b.starts_at e && ltb s b.ends_at)

abbrev pub ends_after : Option ℕ → ℕ → Bool
ends_after none t = true
ends_after (some due_at) t = ltb t due_at

-- The queryset `maintenance_conflict`.
abbrev pub blocks : ℕ → ℕ → ℕ → ResourceMaintenanceRecord → Bool
blocks k s e m =
    m.resource_item == k
    && m.takes_offline
    && is_open m.status
    && ltb m.scheduled_at e
    && ends_after m.due_at s

abbrev pub is_due : Option ℕ → ℕ → Bool
is_due none date = false
is_due (some at) date = leb at date

-- The tests on the locked row, and on the rows that go with it.
capacity_check : ResourceItem → Datetime → Datetime → ℕ → Option ℕ → Database → Result (Unit {0})
capacity_check item starts_at ends_at quantity exclude db =
    let s = starts_at.instant in
    let e = ends_at.instant in
    let used = sum_where (overlaps item.id s e exclude) (λ b. b.quantity) db.bookings in
    let available = item.total_quantity - used in
    if is_consumable item.kind
    then err (Error.conflict consumable_not_bookable)
    else if not (is_available item.status)
    then err (Error.conflict resource_unusable)
    else if is_due item.next_calibration_at starts_at.date
    then err (Error.conflict calibration_due)
    else if any (blocks item.id s e) db.maintenance
    then err (Error.conflict resource_maintenance_conflict)
    else if ltb item.total_quantity quantity
    then err (Error.conflict (insufficient_capacity item.total_quantity quantity))
    else if ltb available quantity
    then err (Error.conflict (insufficient_capacity available quantity))
    else ok tt

unfoldable pub assert_capacity :
    ℕ → Datetime → Datetime → ℕ → Option ℕ → Database → Result (Unit {0})
unfolding capacity_check
assert_capacity k starts_at ends_at quantity exclude db = elim (find (λ r. r.id) k db.items) [
  | none ↦ err Error.does_not_exist
  | some item ↦ capacity_check item starts_at ends_at quantity exclude db
]

-- ===== src/Resources/Capacity/Exact.antt =====
-- When the admission test passes.
use grad_sync.Prelude.{
  ℕ, ◌+◌, ◌<◌, ◌≤◌, ◌≡◌, ◌≢◌, ◌↔◌, Bool, true, false, Option, none, some, List, [], ◌∷◌, inl, inr,
  arith, any, find, sum_where, sum_where_mono, All, ==_iff, ltb, ◌==◌, ◌⊎◌, refl, Bool-cases,
  some_eq, ap, sym,
}
use grad_sync.Resources.Model.{
  ResourceItem, Booking, ResourceMaintenanceRecord, Datetime, Kind, ItemStatus, BookingStatus,
  MaintenanceStatus, is_available, is_consumable, is_committed,
}
use grad_sync.Resources.State.{ok, Database}
use grad_sync.Resources.Capacity.{
  is_open, overlaps, is_excluded, blocks, ends_after, is_due, capacity_check, assert_capacity,
}

-- The outage is over by the start of the window.
abbrev pub EndsBy : Option ℕ → ℕ → Type 0
EndsBy none s = ⊥
EndsBy (some due) s = due ≤ s

-- The record is of another resource, or leaves it in service, or is closed, or lies outside the window.
abbrev pub LetsPass : ℕ → ℕ → ℕ → ResourceMaintenanceRecord → Type 0
LetsPass k s e m =
    m.resource_item ≡ k
    → m.takes_offline ≡ true
    → (m.status ≡ MaintenanceStatus.scheduled ⊎ m.status ≡ MaintenanceStatus.in_progress)
    → (e ≤ m.scheduled_at ⊎ EndsBy m.due_at s)

-- No calibration is due on the date.
abbrev pub IsCalibrated : Option ℕ → ℕ → Type 0
IsCalibrated none date = Unit
IsCalibrated (some at) date = date < at

-- The booking is a committed one of the resource, is not the one left out, and meets the window.
abbrev pub Overlaps : ℕ → ℕ → ℕ → Option ℕ → Booking → Type 0
Overlaps k s e exclude b =
    (exclude ≢ some b.id)
    × (b.resource_item ≡ k)
    × (b.status ≡ BookingStatus.confirmed ⊎ b.status ≡ BookingStatus.reserved)
    × (b.starts_at < e)
    × (s < b.ends_at)

-- What the test asks of the resource, its calibration, its outages and the other bookings, however the
-- bookings that overlap the window are told.
pub record Fits (item : ResourceItem) (starts_at ends_at : Datetime) (q : ℕ) (exclude : Option ℕ)
    (db : Database) : Type 0 where
  pub bookable : item.kind ≡ Kind.equipment
  pub usable : item.status ≡ ItemStatus.available
  pub calibrated : IsCalibrated item.next_calibration_at starts_at.date
  pub unblocked : All (LetsPass item.id starts_at.instant ends_at.instant) db.maintenance
  pub room :
      (meets : Booking → Bool)
      → ((b : Booking)
          → (meets b ≡ true) ↔ Overlaps item.id starts_at.instant ends_at.instant exclude b)
      → q + sum_where meets (λ b. b.quantity) db.bookings ≤ item.total_quantity

committed_told :
    (x : BookingStatus)
    → (is_committed x ≡ true) ↔ (x ≡ BookingStatus.confirmed ⊎ x ≡ BookingStatus.reserved)
committed_told BookingStatus.confirmed = (λ h. inl refl, λ h. refl)
committed_told BookingStatus.reserved = (λ h. inr refl, λ h. refl)
committed_told BookingStatus.pending = (λ h. absurd (ground arith), λ h. absurd (ground arith))
committed_told BookingStatus.rejected = (λ h. absurd (ground arith), λ h. absurd (ground arith))
committed_told BookingStatus.cancelled = (λ h. absurd (ground arith), λ h. absurd (ground arith))
committed_told BookingStatus.completed = (λ h. absurd (ground arith), λ h. absurd (ground arith))

excluded_told :
    (exclude : Option ℕ) (b : Booking) → (is_excluded exclude b ≡ false) ↔ (exclude ≢ some b.id)
excluded_told none b = (λ h e. absurd (ground arith), λ h. refl)
excluded_told (some k) b = (
  λ h e. let same = some_eq e in absurd (ground arith),
  λ h. elim (Bool-cases (b.id == k)) [
    | inl same ↦ absurd (h (ap some (sym ((==_iff b.id k).0 same))))
    | inr apart ↦ apart
  ],
)

overlaps_told :
    (k s e : ℕ) (exclude : Option ℕ) (b : Booking)
    → (overlaps k s e exclude b ≡ true) ↔ Overlaps k s e exclude b
overlaps_told k s e exclude b =
    let out = excluded_told exclude b in
    let at = committed_told b.status in
    (
      λ h. (out.0 (ground arith), ground arith, at.0 (ground arith), ground arith, ground arith),
      λ (apart, of, stands, before, after).
          let x = out.1 apart in let y = at.1 stands in ground arith,
    )

kind_told : (x : Kind) → (is_consumable x ≡ false) ↔ (x ≡ Kind.equipment)
kind_told Kind.equipment = (λ h. refl, λ h. refl)
kind_told Kind.consumable = (λ h. absurd (ground arith), λ h. absurd (ground arith))

status_told : (x : ItemStatus) → (is_available x ≡ true) ↔ (x ≡ ItemStatus.available)
status_told ItemStatus.available = (λ h. refl, λ h. refl)
status_told ItemStatus.unavailable = (λ h. absurd (ground arith), λ h. absurd (ground arith))
status_told ItemStatus.retired = (λ h. absurd (ground arith), λ h. absurd (ground arith))

calibration_told : (at : Option ℕ) (date : ℕ) → (is_due at date ≡ false) ↔ IsCalibrated at date
calibration_told none date = (λ h. tt, λ h. refl)
calibration_told (some at) date = (λ h. ground arith, λ h. ground arith)

open_told :
    (x : MaintenanceStatus)
    → (is_open x ≡ true) ↔ (x ≡ MaintenanceStatus.scheduled ⊎ x ≡ MaintenanceStatus.in_progress)
open_told MaintenanceStatus.scheduled = (λ h. inl refl, λ h. refl)
open_told MaintenanceStatus.in_progress = (λ h. inr refl, λ h. refl)
open_told MaintenanceStatus.completed = (λ h. absurd (ground arith), λ h. absurd (ground arith))
open_told MaintenanceStatus.cancelled = (λ h. absurd (ground arith), λ h. absurd (ground arith))

ends_told : (due : Option ℕ) (s : ℕ) → (ends_after due s ≡ false) ↔ EndsBy due s
ends_told none s = (λ h. absurd (ground arith), λ h. absurd h)
ends_told (some due) s = (λ h. ground arith, λ h. ground arith)

-- A test made of five is false, once the first three that hold leave one of the last two to fail.
outage_told :
    (k s e : ℕ) (m : ResourceMaintenanceRecord) → (blocks k s e m ≡ false) ↔ LetsPass k s e m
outage_told k s e m =
    let runs = open_told m.status in
    let ends = ends_told m.due_at s in
    (
      λ h of off stands.
          let x = runs.1 stands in
          elim (Bool-cases (ltb m.scheduled_at e)) [
            | inl early ↦ inr (ends.0 (ground arith))
            | inr late ↦ inl (ground arith)
          ],
      λ passes. elim (Bool-cases (blocks k s e m)) [
        | inr h ↦ h
        | inl h ↦ absurd (elim (passes (ground arith) (ground arith) (runs.0 (ground arith))) [
          | inl late ↦ ground arith
          | inr over ↦ let y = ends.1 over in ground arith
        ])
      ],
    )

none_blocks :
    (k s e : ℕ) (rows : List ResourceMaintenanceRecord)
    → (any (blocks k s e) rows ≡ false) ↔ All (LetsPass k s e) rows
none_blocks k s e [] = (λ h. tt, λ h. refl)
none_blocks k s e (m ∷ rows) =
    let first = outage_told k s e m in
    let rest = none_blocks k s e rows in
    (
      λ h. (first.0 (ground arith), rest.0 (ground arith)),
      λ (x, xs). let a = first.1 x in let b = rest.1 xs in rw (a, b) refl,
    )

sum_same :
    (p q : Booking → Bool) (rows : List Booking)
    → ((b : Booking) → p b ≡ true → q b ≡ true)
    → ((b : Booking) → q b ≡ true → p b ≡ true)
    → sum_where p (λ b. b.quantity) rows ≡ sum_where q (λ b. b.quantity) rows
sum_same p q rows there back =
    let x = sum_where_mono p q (λ b. b.quantity) there rows in
    let y = sum_where_mono q p (λ b. b.quantity) back rows in omega arith

-- What the conditions of the test say together.
capacity_told :
    (item : ResourceItem) (s e : Datetime) (q : ℕ) (exclude : Option ℕ) (db : Database)
    → 1 ≤ q
    → capacity_check item s e q exclude db ≡ ok tt
    → (is_consumable item.kind ≡ false)
      × (is_available item.status ≡ true)
      × (is_due item.next_calibration_at s.date ≡ false)
      × (any (blocks item.id s.instant e.instant) db.maintenance ≡ false)
      × (q + sum_where (overlaps item.id s.instant e.instant exclude) (λ b. b.quantity) db.bookings
          ≤ item.total_quantity)
unfolding capacity_check
capacity_told item s e q exclude db pos h =
    (ground arith, ground arith, ground arith, ground arith, ground arith)

capacity_check-Fits :
    (item : ResourceItem) (s e : Datetime) (q : ℕ) (exclude : Option ℕ) (db : Database)
    → 1 ≤ q
    → capacity_check item s e q exclude db ≡ ok tt
    → Fits item s e q exclude db
capacity_check-Fits item s e q exclude db pos h =
    let (a, b, c, d, room) = capacity_told item s e q exclude db pos h in
    record {
      bookable = (kind_told item.kind).0 a;
      usable = (status_told item.status).0 b;
      calibrated = (calibration_told item.next_calibration_at s.date).0 c;
      unblocked = (none_blocks item.id s.instant e.instant db.maintenance).0 d;
      room = λ meets told.
          rw
            (sum_same meets (overlaps item.id s.instant e.instant exclude) db.bookings
              (λ b h. (overlaps_told item.id s.instant e.instant exclude b).1 ((told b).0 h))
              (λ b h. (told b).1 ((overlaps_told item.id s.instant e.instant exclude b).0 h)))
            room;
    }

Fits-capacity_check :
    (item : ResourceItem) (s e : Datetime) (q : ℕ) (exclude : Option ℕ) (db : Database)
    → Fits item s e q exclude db
    → capacity_check item s e q exclude db ≡ ok tt
unfolding capacity_check
Fits-capacity_check item s e q exclude db fits =
    let a = (kind_told item.kind).1 fits.bookable in
    let b = (status_told item.status).1 fits.usable in
    let c = (calibration_told item.next_calibration_at s.date).1 fits.calibrated in
    let d = (none_blocks item.id s.instant e.instant db.maintenance).1 fits.unblocked in
    let room =
      fits.room (overlaps item.id s.instant e.instant exclude)
        (overlaps_told item.id s.instant e.instant exclude) in
    ground arith

-- For a quantity of at least one, the test passes exactly when the resource is available equipment, its
-- next calibration is after the date of the start, every scheduled or running outage of it ends by the
-- start or begins at the end or later, and the quantity fits beside that of the confirmed and reserved
-- bookings of it that meet the window, other than the booking left out.
pub assert_capacity_iff :
    (k : ℕ) (s e : Datetime) (q : ℕ) (exclude : Option ℕ) (db : Database) {item : ResourceItem}
    → 1 ≤ q
    → find (λ r. r.id) k db.items ≡ some item
    → (assert_capacity k s e q exclude db ≡ ok tt) ↔ Fits item s e q exclude db
unfolding assert_capacity
assert_capacity_iff k s e q exclude db {item} pos found = (
  λ h. capacity_check-Fits item s e q exclude db pos (rw (found, assert_capacity) at h),
  λ fits. rw (found, assert_capacity) (Fits-capacity_check item s e q exclude db fits),
)

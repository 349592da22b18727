-- ===== src/Resources/Booking/Safety.antt =====
-- No booking operation lets a resource be used beyond its quantity.
use grad_sync.Prelude.{
  ℕ, ◌+◌, ◌≤◌, ◌≡◌, refl, Bool, true, false, Option, none, some, Text, arith, find, remove,
  sum_where-remove-le,
}
use grad_sync.Accounts.{User}
use grad_sync.Resources.Model.{ResourceItem, Booking, Datetime, from_db, is_committed}
use grad_sync.Resources.State.{Database, Environment}
use grad_sync.Resources.Capacity.{holds, usage}
use grad_sync.Resources.Capacity.Usage.{WithinCapacity, assert_capacity_room, put-WithinCapacity}
use grad_sync.Resources.Booking.Requests.{or_quantity}
use grad_sync.Resources.Booking.Admission.{Saves, CreateRun, UpdateRun}
use grad_sync.Resources.Booking.Endings.{DecideRun}

-- At every instant, the committed bookings of each resource fit its quantity.
abbrev pub IsWithinCapacity : Database → Type 0
IsWithinCapacity db = WithinCapacity db.items db.bookings

Saves-IsWithinCapacity :
    (db db' : Database) (b : Booking)
    → Saves db db' b
    → IsWithinCapacity db
    → ((item : ResourceItem) (t : ℕ)
        → find (λ r. r.id) b.resource_item db.items ≡ some item
        → holds b.resource_item t b ≡ true
        → b.quantity + usage b.resource_item t (remove (λ b. b.id) b.id db.bookings)
          ≤ item.total_quantity)
    → IsWithinCapacity db'
Saves-IsWithinCapacity db db' b saved within fits =
    rw (saved.items, saved.bookings) (put-WithinCapacity db.items db.bookings b within fits)

pub create-IsWithinCapacity :
    (env : Environment) (user : User) (own_project : Option ℕ) (item : ResourceItem)
    (starts_at ends_at : Option Datetime) (quantity : ℕ) (purpose : Text) (project : Option ℕ)
    (db db' : Database) (b : Booking)
    → CreateRun env user own_project item starts_at ends_at quantity purpose project db db' b
    → IsWithinCapacity db
    → IsWithinCapacity db'
create-IsWithinCapacity env user own item s e quantity purpose project db db' b run within =
    Saves-IsWithinCapacity db db' b run.saves within λ row t found held.
      let room =
        assert_capacity_room item.id run.w.0 run.w.1 quantity none db run.positive run.admitted
          (rw run.resource at found) t (ground (arith, run.starts, run.ends))
          (ground (arith, run.starts, run.ends)) in
      omega (
        arith,
        run.units,
        rw (← run.resource) at room,
        sum_where-remove-le (λ b. b.id) (holds b.resource_item t) (λ b. b.quantity) b.id
            db.bookings,
      )

pub update-IsWithinCapacity :
    (env : Environment) (user : User) (booking : Booking) (starts_at ends_at : Option Datetime)
    (quantity : Option ℕ) (purpose : Option Text) (version : Option ℕ) (db db' : Database)
    (b : Booking)
    → UpdateRun env user booking starts_at ends_at quantity purpose version db db' b
    → IsWithinCapacity db
    → IsWithinCapacity db'
update-IsWithinCapacity env user booking s e quantity purpose version db db' b run within =
    Saves-IsWithinCapacity db db' b run.saves within (
      rw run.result λ row t found held.
        assert_capacity_room booking.resource_item run.w.0 run.w.1
          (or_quantity quantity booking.quantity) (some booking.id) db
          (rw run.result at run.saves.positive) (run.admitted (ground arith)) found t (ground arith)
          (ground arith))

-- A row that is not committed takes nothing.
pub ended-IsWithinCapacity :
    (db db' : Database) (b : Booking)
    → Saves db db' b
    → is_committed b.status ≡ false
    → IsWithinCapacity db
    → IsWithinCapacity db'
ended-IsWithinCapacity db db' b saved free within =
    Saves-IsWithinCapacity db db' b saved within λ item t found held. absurd (ground arith)

pub decide-IsWithinCapacity :
    (env : Environment) (user : User) (pk : ℕ) (approve : Bool) (note : Text) (db db' : Database)
    (b : Booking)
    → DecideRun env user pk approve note db db' b
    → IsWithinCapacity db
    → IsWithinCapacity db'
decide-IsWithinCapacity env user pk false note db db' b run within =
    ended-IsWithinCapacity db db' b run.saves (rw run.result) within
decide-IsWithinCapacity env user pk true note db db' b run within =
    Saves-IsWithinCapacity db db' b run.saves within (
      rw run.result λ row t found held. omega (
        arith,
        assert_capacity_room run.old.resource_item (from_db run.old.starts_at)
            (from_db run.old.ends_at) run.old.quantity none db (rw run.result at run.saves.positive)
            (run.admitted refl) found t (ground arith) (ground arith),
        sum_where-remove-le (λ b. b.id) (holds run.old.resource_item t) (λ b. b.quantity) run.old.id
            db.bookings,
      ))

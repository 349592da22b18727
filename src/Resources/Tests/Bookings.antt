-- ===== src/Resources/Tests/Bookings.antt =====
-- Bookings of the laboratory.
use grad_sync.Prelude.{
  ℕ, ◌≡◌, ◌↔◌, refl, true, Option, none, some, List, [], ◌∷◌, text, arith, find,
}
use grad_sync.Resources.Model.{Booking, BookingStatus, Datetime, from_db}
use grad_sync.Resources.State.{ok, Database}
use grad_sync.Resources.Effects.{statements}
use grad_sync.Resources.Capacity.{assert_capacity}
use grad_sync.Resources.Capacity.Exact.{Fits, assert_capacity_iff}
use grad_sync.Resources.Booking.{
  window, effective_confirmation_policy, save_booking, notify_booking_change, ensure_future_booking,
}
use grad_sync.Resources.Booking.Requests.{create_booking, update_booking}
use grad_sync.Resources.Booking.Safety.{IsWithinCapacity}
use grad_sync.Resources.Booking.Statuses.{IsKeyed}
use grad_sync.Resources.Booking.Traces.{Call, after_all, after_all-IsWithinCapacity}
use grad_sync.Resources.Booking.Histories.{◌⟶*◌, after_all_path}
use grad_sync.Resources.Tests.{booked, manager, pupil, clock, microscope, pending_booking, lab}

abbrev at : ℕ → Option Datetime
at t = some (from_db t)

-- A student asks for a microscope, the manager approves, and the time passes.
abbrev calls : List Call
calls =
    Call.create (clock 500) pupil none microscope (at 3_500) (at 4_500) 1 (text "thesis") none
    ∷ Call.settle (clock 600) manager 21 true []
    ∷ Call.cancel (clock 700) pupil 20
    ∷ Call.reconcile (clock 5_000)
    ∷ []

pub lab-IsWithinCapacity : IsWithinCapacity lab
lab-IsWithinCapacity k item t found = ground arith

after_all-IsWithinCapacity_example : IsWithinCapacity (after_all calls lab)
after_all-IsWithinCapacity_example = after_all-IsWithinCapacity calls lab lab-IsWithinCapacity

lab-IsKeyed : IsKeyed lab
lab-IsKeyed pk b found = ground arith

after_all_path_example :
    (new : Booking) × (find (λ r. r.id) 21 (after_all calls lab).bookings ≡ some new)
    × (BookingStatus.pending ⟶* new.status)
    × (new.resource_item ≡ 7)
    × (new.requested_by ≡ 2)
after_all_path_example =
    after_all_path calls lab lab-IsKeyed (tt, (tt, (tt, (tt, tt)))) 21 pending_booking refl

assert_capacity_iff_example :
    (assert_capacity 7 (from_db 1_500) (from_db 2_500) 1 none lab ≡ ok tt)
    ↔ Fits microscope (from_db 1_500) (from_db 2_500) 1 none lab
assert_capacity_iff_example =
    assert_capacity_iff 7 (from_db 1_500) (from_db 2_500) 1 none lab (omega arith) refl

abbrev created_booking : Booking
created_booking = booked 50 7 3_500 4_500 BookingStatus.pending

created_lab : Database
unfolding statements create_booking
created_lab =
    (create_booking (clock 500) pupil none microscope (at 3_500) (at 4_500) 1 (text "thesis") none
      lab).1

created :
    create_booking
      (clock 500)
      pupil
      none
      microscope
      (at 3_500)
      (at 4_500)
      1
      (text "thesis")
      none
      lab
    ≡ (ok created_booking, created_lab)
unfolding created_lab statements create_booking window assert_capacity effective_confirmation_policy
    save_booking notify_booking_change
created = refl

-- The object as it was before the cancellation.
abbrev stale_booking : Booking
stale_booking = booked 23 7 1_000 2_000 BookingStatus.confirmed

updated_lab : Database
unfolding statements update_booking
updated_lab = (update_booking (clock 500) pupil stale_booking none none none none (some 1) lab).1

abbrev revived_booking : Booking
revived_booking = record stale_booking { version = 2 }

updated :
    update_booking (clock 500) pupil stale_booking none none none none (some 1) lab
    ≡ (ok revived_booking, updated_lab)
unfolding updated_lab statements update_booking window assert_capacity save_booking
    notify_booking_change ensure_future_booking
updated = refl

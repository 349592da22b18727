-- ===== src/Resources/Booking/Steps.antt =====
-- Runs of the statements that the booking operations share.
use grad_sync.Prelude.{◌≤◌, ◌<◌, ◌≡◌, Bool, true, false, some, List, arith, put, if◌then◌else◌}
use grad_sync.Accounts.{User}
use grad_sync.Resources.Model.{Booking}
use grad_sync.Resources.State.{ok, err, EventTarget, Subject, Notification, Database, Environment}
use grad_sync.Resources.Effects.{
  Action, pure, ◌>>=◌, ◌>>◌, raise_if, modify, add_notification, enqueue_notification,
}
use grad_sync.Resources.Booking.{notify_booking_change, save_booking}

abbrev pub with_booking : Booking → Database → Database
with_booking b db = record db { bookings = put (λ r. r.id) b db.bookings }

abbrev pub with_notifications : List Notification → Database → Database
with_notifications ns db = record db { notifications = ns }

module _ {B : Type 0} (db : Database) {db' : Database} {r : B} {P : Type 0} where
  pub save_booking_ok :
      (b : Booking) (k : Action B)
      → (save_booking b >> k) db ≡ (ok r, db')
      → (1 ≤ b.quantity → b.starts_at < b.ends_at → k (with_booking b db) ≡ (ok r, db') → P)
      → P
  unfolding save_booking ◌>>=◌ raise_if modify
  save_booking_ok b k h rest = rest (ground arith) (ground arith) (ground arith)

  -- Notifying changes no other table, whether it succeeds or not.
  pub notify_ok :
      (env : Environment) (user : User) (b : Booking) (subject : Subject) (k : Action B)
      → (notify_booking_change env user b subject >> k) db ≡ (ok r, db')
      → ((ns : List Notification) → k (with_notifications ns db) ≡ (ok r, db') → P)
      → P
  unfolding notify_booking_change ◌>>=◌ modify pure
  notify_ok env user b subject k h rest = go env.notifies h
    where
      note : Database
      note =
          add_notification b.requested_by (some user.id) (EventTarget.booking_target b.id) subject
            db

      go :
          (on : Bool)
          → (let (x, mid) =
                (if on
                    then enqueue_notification b.requested_by
                        (some user.id)
                        (EventTarget.booking_target b.id)
                        subject
                    else pure tt)
                  db in
              elim x [ ok a ↦ k mid | err e ↦ (err e, mid) ])
            ≡ (ok r, db')
          → P
      go true e = rest note.notifications e
      go false e = rest db.notifications e

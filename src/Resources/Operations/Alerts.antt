-- ===== src/Resources/Operations/Alerts.antt =====
-- `reconcile_resource_operation_alerts` of backend/apps/resources/services.py.
pub mod Safety
use grad_sync.Prelude.{
  ℕ, ◌+◌, Bool, false, not, ◌&&◌, Option, none, some, List, [], ◌∷◌, text_eq, any, map, leb, select,
  ◌==◌, if◌then◌else◌,
}
use grad_sync.Resources.Model.{ResourceItem, ItemStatus, is_available, is_retired, is_equipment}
use grad_sync.Resources.State.{EventTarget, Subject, Notification, Database, Environment}
use grad_sync.Resources.Effects.{add_notification}
use grad_sync.Resources.Inventory.{notification_recipients}
use grad_sync.Resources.Operations.{is_outage, store_item}

abbrev pub set_unavailable : ResourceItem → ResourceItem
set_unavailable item = record item { status = ItemStatus.unavailable; version = item.version + 1 }

-- The bulk update: available equipment with an outage under way.
unfoldable pub outage_update : ℕ → Database → ResourceItem → ResourceItem
outage_update now db item =
    if is_equipment item.kind
      && is_available item.status
      && any (is_outage now item.id) db.maintenance
    then set_unavailable item
    else item

-- `next_calibration_at__lte=today`, where no date is no match
abbrev pub is_calibration_due : ℕ → Option ℕ → Bool
is_calibration_due today none = false
is_calibration_due today (some date) = leb date today

abbrev pub is_overdue : ℕ → ResourceItem → Bool
is_overdue today item =
    is_equipment item.kind
    && is_calibration_due today item.next_calibration_at
    && not (is_retired item.status)

abbrev pub or_zero : Option ℕ → ℕ
or_zero none = 0
or_zero (some n) = n

-- The subject; that an alert was sent is read off the notifications that carry it.
abbrev pub overdue_subject : ResourceItem → Subject
overdue_subject item = Subject.calibration_overdue item.name (or_zero item.next_calibration_at)

abbrev pub is_overdue_alert : ResourceItem → ℕ → Notification → Bool
is_overdue_alert item recipient n =
    n.recipient == recipient
    && (elim n.target [ EventTarget.resource_target k ↦ k == item.id | _ ↦ false ])
    && (elim n.subject [
      | Subject.calibration_overdue name date ↦
          text_eq name item.name && date == or_zero item.next_calibration_at
      | _ ↦ false
    ])

-- One round of `for recipient in ...`: those who have the alert already are skipped.
unfoldable pub alert_recipient : ResourceItem → ℕ → ℕ × Database → ℕ × Database
alert_recipient item r (alerted, db) =
    if any (is_overdue_alert item r) db.notifications then (alerted, db) else (
      alerted + 1,
      add_notification r none (EventTarget.resource_target item.id) (overdue_subject item) db,
    )

unfoldable pub alert_recipients : ResourceItem → List ℕ → ℕ × Database → ℕ × Database
alert_recipients item [] acc = acc
alert_recipients item (r ∷ rs) acc = alert_recipients item rs (alert_recipient item r acc)

-- One round of `for resource in resources`.
unfoldable pub alert_resource : ResourceItem → ℕ × Database → ℕ × Database
alert_resource item (alerted, db) =
    let now_item = if is_available item.status then set_unavailable item else item in
    let db' = if is_available item.status then store_item now_item db else db in
    alert_recipients now_item (notification_recipients now_item db') (alerted, db')

unfoldable pub alert_resources : List ResourceItem → ℕ × Database → ℕ × Database
alert_resources [] acc = acc
alert_resources (item ∷ items) acc = alert_resources items (alert_resource item acc)

unfoldable pub reconcile_resource_operation_alerts : Environment → Database → ℕ × Database
reconcile_resource_operation_alerts env db =
    let updated = record db { items = map (outage_update env.now db) db.items } in
    alert_resources (select (is_overdue env.today) updated.items) (0, updated)

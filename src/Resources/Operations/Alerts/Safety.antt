-- ===== src/Resources/Operations/Alerts/Safety.antt =====
-- What the daily reconciliation leaves available.
use grad_sync.Prelude.{
  clash, ℕ, ◌≡◌, refl, ap, sym, subst, ◌∙◌, inl, inr, Bool, true, false, ◌&&◌, none, some, List, [],
  ◌∷◌, map, arith, All, any, select, find, put, find-put_cases, find_pk, some_eq, ◌==◌,
  if◌then◌else◌, Bool-cases,
}
use grad_sync.Resources.Model.{ResourceItem, is_available, is_equipment}
use grad_sync.Resources.State.{Database, Environment}
use grad_sync.Resources.Operations.{is_outage, store_item}
use grad_sync.Resources.Operations.Alerts.{
  set_unavailable, outage_update, is_calibration_due, is_overdue, is_overdue_alert, alert_recipient,
  alert_recipients, alert_resource, alert_resources, reconcile_resource_operation_alerts,
}

-- Sending the alerts of one resource writes to no other table.
recipient-tables :
    (item : ResourceItem) (r : ℕ) (acc : ℕ × Database)
    → let after = (alert_recipient item r acc).1 in
      (after.items ≡ acc.1.items) × (after.maintenance ≡ acc.1.maintenance)
unfolding alert_recipient
recipient-tables item r (n, db) =
    elim (Bool-cases (any (is_overdue_alert item r) db.notifications)) [
      | inl sent ↦ (rw sent, rw sent)
      | inr unsent ↦ (rw unsent, rw unsent)
    ]

recipients-tables :
    (item : ResourceItem) (rs : List ℕ) (acc : ℕ × Database)
    → let after = (alert_recipients item rs acc).1 in
      (after.items ≡ acc.1.items) × (after.maintenance ≡ acc.1.maintenance)
unfolding alert_recipients
recipients-tables item [] acc = (refl, refl)
recipients-tables item (r ∷ rs) acc =
    let (rows, upkeep) = recipients-tables item rs (alert_recipient item r acc) in
    let (rows', upkeep') = recipient-tables item r acc in (rows ∙ rows', upkeep ∙ upkeep')

resource-tables :
    (item : ResourceItem) (n : ℕ) (db : Database)
    → let after = (alert_resource item (n, db)).1 in
      (after.items ≡ (
        if is_available item.status
        then put (λ r. r.id) (set_unavailable item) db.items
        else db.items))
      × (after.maintenance ≡ db.maintenance)
unfolding alert_resource
resource-tables item n db = elim (Bool-cases (is_available item.status)) [
  | inl up ↦
      rw up (recipients-tables (set_unavailable item) _ (n, store_item (set_unavailable item) db))
  | inr down ↦ rw down (recipients-tables item _ (n, db))
]

-- No resource of the list with this key was available.
abbrev pub NoneAvailable : ℕ → List ResourceItem → Type 0
NoneAvailable k = All (λ x. x.id ≡ k → is_available x.status ≡ false)

resources-available :
    (items : List ResourceItem) (n : ℕ) (db : Database) (k : ℕ) (it : ResourceItem)
    → let after = (alert_resources items (n, db)).1 in
      (after.maintenance ≡ db.maintenance)
      × (find (λ r. r.id) k after.items ≡ some it
          → is_available it.status ≡ true
          → (find (λ r. r.id) k db.items ≡ some it) × NoneAvailable k items)
unfolding alert_resources
resources-available [] n db k it = (refl, λ found up. (found, tt))
resources-available (item ∷ items) n db k it =
    let mid = alert_resource item (n, db) in
    let (upkeep, rest) = resources-available items mid.0 mid.1 k it in
    let (rows, same) = resource-tables item n db in
    (
      upkeep ∙ same,
      λ found up.
          let (before, others) = rest found up in
          elim (Bool-cases (is_available item.status)) [
            | inr down ↦ (rw (rows, down) at before, ((λ e. down), others))
            | inl was_up ↦
                elim (find-put_cases (λ r. r.id) k (set_unavailable item) db.items
                  (rw (rows, was_up) at before)) [
                    | inl (e, stored) ↦
                        absurd (
                          clash _ up
                            (ap (λ (x : ResourceItem). is_available x.status) (sym stored)))
                    | inr (away, stays) ↦ (stays, ((λ e. absurd (away (sym e))), others))
                  ]
          ],
    )

select-All :
    (p : ResourceItem → Bool) (P : ResourceItem → Type 0) (k : ℕ) (rows : List ResourceItem)
    (it : ResourceItem)
    → All P (select p rows)
    → find (λ r. r.id) k rows ≡ some it
    → p it ≡ true
    → P it
select-All p P k [] it all found passes = cc
select-All p P k (r ∷ rows) it all found passes = elim (Bool-cases (r.id == k)) [
  | inl here ↦
      let same : r ≡ it = some_eq (rw here at found) in
      subst P same (first_selected (rw same passes) all)
  | inr other ↦ elim (Bool-cases (p r)) [
    | inl chosen ↦ select-All p P k rows it (rest_selected chosen all) (rw other at found) passes
    | inr left ↦ select-All p P k rows it (rw left at all) (rw other at found) passes
  ]
]
  where
    first_selected : p r ≡ true → All P (select p (r ∷ rows)) → P r
    first_selected c h = (rw c at h).0

    rest_selected : p r ≡ true → All P (select p (r ∷ rows)) → All P (select p rows)
    rest_selected c h = (rw c at h).1

-- An equipment that is available after the bulk update has no outage under way.
updated_row :
    (now : ℕ) (r : ResourceItem) (db : Database)
    → let it = outage_update now db r in
      is_equipment it.kind ≡ true
      → is_available it.status ≡ true
      → any (is_outage now it.id) db.maintenance ≡ false
unfolding outage_update
updated_row now r db equipment up =
    elim (Bool-cases
      (is_equipment r.kind && is_available r.status && any (is_outage now r.id) db.maintenance)) [
        | inl changed ↦ absurd (clash _ (rw changed at up) refl)
        | inr same ↦ rw same (last_false _ _ _ same (rw same at equipment) (rw same at up))
      ]
  where
    last_false : (a b c : Bool) → (a && b && c) ≡ false → a ≡ true → b ≡ true → c ≡ false
    last_false a b c h x y = ground arith

updated-available :
    (now k : ℕ) (rows : List ResourceItem) (db : Database) (it : ResourceItem)
    → find (λ r. r.id) k (map (outage_update now db) rows) ≡ some it
    → is_equipment it.kind ≡ true
    → is_available it.status ≡ true
    → any (is_outage now it.id) db.maintenance ≡ false
updated-available now k [] db it found equipment up = absurd (nothing found)
  where
    nothing : none ≡ some it → ⊥
    nothing e = cc
updated-available now k (r ∷ rows) db it found equipment up =
    elim (Bool-cases ((outage_update now db r).id == k)) [
      | inl here ↦
          let same : outage_update now db r ≡ it = some_eq (rw here at found) in
          subst
            (λ (x : ResourceItem).
              is_equipment x.kind ≡ true
              → is_available x.status ≡ true
              → any (is_outage now x.id) db.maintenance ≡ false)
            same (updated_row now r db) equipment up
      | inr other ↦ updated-available now k rows db it (rw other at found) equipment up
    ]

-- After the reconciliation, no equipment that is available has an outage under way or a calibration
-- that is due, whatever the state before.
pub reconcile_resource_operation_alerts_ok :
    (env : Environment) (db : Database) (k : ℕ) (it : ResourceItem)
    → let db' = (reconcile_resource_operation_alerts env db).1 in
      find (λ r. r.id) k db'.items ≡ some it
      → is_equipment it.kind ≡ true
      → is_available it.status ≡ true
      → (any (is_outage env.now it.id) db'.maintenance ≡ false)
        × (is_calibration_due env.today it.next_calibration_at ≡ false)
unfolding reconcile_resource_operation_alerts
reconcile_resource_operation_alerts_ok env db k it found equipment up =
    let updated : Database = record db { items = map (outage_update env.now db) db.items } in
    let (upkeep, kept) =
      resources-available (select (is_overdue env.today) updated.items) 0 updated k it in
    let (before, others) = kept found up in
    (
      rw upkeep (updated-available env.now k db.items db it before equipment up),
      elim (Bool-cases (is_calibration_due env.today it.next_calibration_at)) [
        | inr fine ↦ fine
        | inl due ↦
            let down =
              select-All (is_overdue env.today) (λ x. x.id ≡ k → is_available x.status ≡ false) k
                updated.items it others before (overdue it equipment due up) in
            absurd (clash _ up (down (find_pk (λ r. r.id) k updated.items before)))
      ],
    )
  where
    overdue :
        (it : ResourceItem)
        → is_equipment it.kind ≡ true
        → is_calibration_due env.today it.next_calibration_at ≡ true
        → is_available it.status ≡ true
        → is_overdue env.today it ≡ true
    overdue it e c u = ground arith

-- ===== src/Resources/Operations/Maintenance/Availability.antt =====
-- Which resources are available after a change to one of them.
use grad_sync.Prelude.{
  none-some, some_eq, ℕ, ◌+◌, ◌≡◌, ◌≢◌, refl, ap, sym, ◌∙◌, inl, inr, ◌⊎◌, Bool, true, false, not,
  ◌&&◌, none, some, List, [], ◌∷◌, arith, any, find, find-put_cases, find_pk, Bool-cases,
  Option-cases,
}
use grad_sync.Resources.Model.{
  ResourceItem, ItemStatus, ResourceMaintenanceRecord, MaintenanceStatus, is_available, is_retired,
}
use grad_sync.Resources.State.{Database, Environment}
use grad_sync.Resources.Operations.{is_in_progress, store_item, offline, take_offline}
use grad_sync.Resources.Operations.Maintenance.{
  change_item, other_outages, complete_item, cancel_item, reopened,
}

-- An outage that is in progress.
abbrev pub is_running : ResourceMaintenanceRecord → Bool
is_running m = m.takes_offline && is_in_progress m.status

true-false : true ≡ false → ⊥
true-false h = cc

pub any-find :
    (p : ResourceMaintenanceRecord → Bool) (j : ℕ) (rows : List ResourceMaintenanceRecord)
    (m : ResourceMaintenanceRecord)
    → any p rows ≡ false
    → find (λ r. r.id) j rows ≡ some m
    → p m ≡ false
any-find p j [] m h found = cc
any-find p j (r ∷ rows) m h found = ground (arith, any-find p j rows m)

-- A resource that is available now was available, unless it is the one that a change has reopened.
unfoldable pub WasAvailable : ℕ → Database → Type 0
WasAvailable j db =
    (old : ResourceItem) × (find (λ r. r.id) j db.items ≡ some old)
    × (is_available old.status ≡ true)

retired_down :
    (item : ResourceItem) → is_retired item.status ≡ true → is_available item.status ≡ false
retired_down item h = ground arith

offline-available :
    (k j : ℕ) (it item : ResourceItem) (db : Database)
    → find (λ r. r.id) k db.items ≡ some item
    → find (λ r. r.id) j (offline item db).items ≡ some it
    → is_available it.status ≡ true
    → (j ≢ k) × WasAvailable j db
unfolding WasAvailable
offline-available k j it item db here found up = elim (Bool-cases (is_retired item.status)) [
  | inl gone ↦
      let stays : find (λ r. r.id) j db.items ≡ some it = rw gone at found in
      let down : is_available item.status ≡ false = retired_down item gone in
      (
        (λ e.
            let same : some it ≡ some item =
              sym stays ∙ ap (λ n. find (λ r. r.id) n db.items) e ∙ here in
            cc (up, down, some_eq same)),
        (it, stays, up),
      )
  | inr kept ↦
      let down : ResourceItem = record item {
        status = ItemStatus.unavailable;
        version = item.version + 1;
      } in
      elim (find-put_cases (λ r. r.id) j down db.items (rw kept at found)) [
        | inl (e, same) ↦
            absurd
              (true-false (sym up ∙ ap (λ (i : ResourceItem). is_available i.status) (sym same)))
        | inr (away, stays) ↦
            ((λ e. away (e ∙ sym (find_pk (λ r. r.id) k db.items here))), (it, stays, up))
      ]
]

take_offline-none :
    (k : ℕ) (db : Database) → find (λ r. r.id) k db.items ≡ none → take_offline k db ≡ db
unfolding take_offline
take_offline-none k db h = rw (h, take_offline)

take_offline-some :
    (k : ℕ) (item : ResourceItem) (db : Database)
    → find (λ r. r.id) k db.items ≡ some item
    → take_offline k db ≡ offline item db
unfolding take_offline
take_offline-some k item db h = rw (h, take_offline)

pub take_offline-available :
    (k j : ℕ) (it : ResourceItem) (db : Database)
    → find (λ r. r.id) j (take_offline k db).items ≡ some it
    → is_available it.status ≡ true
    → (j ≢ k) × WasAvailable j db
unfolding WasAvailable
take_offline-available k j it db found up = elim (Option-cases (find (λ r. r.id) k db.items)) [
  | inl absent ↦
      let stays : find (λ r. r.id) j db.items ≡ some it =
        rw (take_offline-none k db absent) at found in
      (
        (λ e. none-some (sym absent ∙ ap (λ n. find (λ r. r.id) n db.items) (sym e) ∙ stays)),
        (it, stays, up),
      )
  | inr (item, here) ↦
      offline-available k j it item db here (rw (take_offline-some k item db here) at found) up
]

reopened_item :
    (others : Bool) (k j : ℕ) (item it new : ResourceItem) (db : Database)
    → find (λ r. r.id) k db.items ≡ some item
    → new.id ≡ item.id
    → new.status ≡ reopened others item.status
    → find (λ r. r.id) j (store_item new db).items ≡ some it
    → is_available it.status ≡ true
    → WasAvailable j db ⊎ ((j ≡ k) × (others ≡ false))
unfolding WasAvailable
reopened_item others k j item it new db here keeps status found up =
    elim (find-put_cases (λ r. r.id) j new db.items found) [
      | inr (away, stays) ↦ inl (it, stays, up)
      | inl (e, same) ↦
          let at_k : j ≡ k = e ∙ keeps ∙ find_pk (λ r. r.id) k db.items here in
          elim (Bool-cases others) [
            | inr none_left ↦ inr (at_k, none_left)
            | inl left ↦
                let same_status : it.status ≡ item.status =
                  ap (λ (i : ResourceItem). i.status) (sym same)
                  ∙ status
                  ∙ ap (λ b. reopened b item.status) left in
                inl (
                  item,
                  ap (λ n. find (λ r. r.id) n db.items) at_k ∙ here,
                  ap is_available (sym same_status) ∙ up,
                )
          ]
    ]

pub not_running :
    (m : ResourceMaintenanceRecord) (status : MaintenanceStatus)
    → m.status ≡ status
    → is_in_progress status ≡ false
    → is_running m ≡ true
    → ⊥
not_running m status e idle run = ground arith

-- The item that a transition has left available was so before, and is not that of an outage that has
-- begun, or it is the one of the record, and there is no other outage.
pub change_item-available :
    (env : Environment) (status : MaintenanceStatus) (m : ResourceMaintenanceRecord)
    (item : ResourceItem) (j : ℕ) (it : ResourceItem) (db : Database)
    → m.status ≡ status
    → find (λ r. r.id) m.resource_item db.items ≡ some item
    → find (λ r. r.id) j (change_item env status m item db).items ≡ some it
    → is_available it.status ≡ true
    → ((is_running m ≡ true → j ≢ m.resource_item) × WasAvailable j db)
      ⊎ ((is_in_progress status ≡ false)
          × (j ≡ m.resource_item)
          × (other_outages env.now m db ≡ false))
unfolding change_item complete_item cancel_item WasAvailable
change_item-available env MaintenanceStatus.completed m item j it db e here found up =
    elim (reopened_item (other_outages env.now m db) m.resource_item j item it _ db here refl refl
      found up) [
        | inl was ↦ inl ((λ run. absurd (not_running m _ e refl run)), was)
        | inr (at_item, alone) ↦ inr (refl, at_item, alone)
      ]
change_item-available env MaintenanceStatus.in_progress m item j it db e here found up =
    elim (Bool-cases m.takes_offline) [
      | inl off ↦
          let (away, was) = take_offline-available m.resource_item j it db (rw off at found) up in
          inl ((λ run. away), was)
      | inr on ↦ inl ((λ run. absurd (ground arith)), (it, rw on at found, up))
    ]
change_item-available env MaintenanceStatus.cancelled m item j it db e here found up =
    elim (Bool-cases m.takes_offline) [
      | inl off ↦ cancelled_item (rw off at found)
      | inr on ↦ inl ((λ run. absurd (ground arith)), (it, rw on at found, up))
    ]
  where
    idle : is_running m ≡ true → j ≢ m.resource_item
    idle run = absurd (not_running m _ e refl run)

    cancelled_item :
        find (λ r. r.id) j (cancel_item env m item db).items ≡ some it
        → ((is_running m ≡ true → j ≢ m.resource_item) × WasAvailable j db)
          ⊎ ((false ≡ false) × (j ≡ m.resource_item) × (other_outages env.now m db ≡ false))
    cancelled_item f =
        elim (Bool-cases (not (other_outages env.now m db) && not (is_retired item.status))) [
          | inr stays ↦ inl (idle, (it, rw stays at f, up))
          | inl opens ↦
              elim (reopened_item (other_outages env.now m db) m.resource_item j item it _ db here
                refl (rw opens) (rw opens at f) up) [
                  | inl was ↦ inl (idle, was)
                  | inr (at_item, alone) ↦ inr (refl, at_item, alone)
                ]
        ]
change_item-available env MaintenanceStatus.scheduled m item j it db e here found up =
    inl ((λ run. absurd (not_running m _ e refl run)), (it, found, up))

-- ===== src/Resources/Inventory/Deletion.antt =====
-- `ResourceInventoryService.delete_resource`, and the rows that refer to resources.
use grad_sync.Prelude.{
  ℕ, ◌≡◌, ◌≢◌, ◌↔◌, find_pk, refl, sym, Bool, true, false, none, some, List, [], ◌∷◌, arith, All,
  find, remove, find-remove_ne, count_where, ◌==◌, if◌then◌else◌, ◌∙◌, subst,
}
use grad_sync.Accounts.{User}
use grad_sync.Resources.Model.{ResourceItem}
use grad_sync.Resources.State.{Result, ok, err, Error, Conflict, Database, EventType, EventTarget}
use grad_sync.Resources.Effects.{pure, check, atomic, ◌>>=◌, raise_if, modify, add_event}
use grad_sync.Resources.Effects.Runs.{raise_if_ok, check_ok, atomic_ok, atomic_err}
use grad_sync.Resources.Booking.Endings.{or_missing_ok}
use grad_sync.Resources.Booking.Outcomes.{atomic-keeps}
use grad_sync.Resources.Access.{is_resource_manager}
use grad_sync.Resources.Inventory.Items.{dependencies, has_dependencies, delete_resource}

-- The result of a manager's deletion of a resource that is there.
delete_resource_result :
    (user : User) (pk : ℕ) (db : Database) (item : ResourceItem)
    → is_resource_manager user ≡ true
    → find (λ r. r.id) pk db.items ≡ some item
    → let counts = dependencies item.id db in
      delete_resource user pk db ≡ (
        if has_dependencies counts
        then (
          err (
              Error.conflict (
                Conflict.resource_has_history counts.bookings counts.use_submissions
                  counts.maintenance_records counts.stock_transactions)),
          db,
        )
        else (
          ok tt,
          record (add_event none
              (some user.id)
              EventType.resource_deleted
              (EventTarget.resource_target item.id)
              db) { items = remove (λ r. r.id) item.id db.items },
        ))
unfolding delete_resource pure check atomic ◌>>=◌ raise_if modify
delete_resource_result user pk db item manager found = ground arith

-- The resource of every booking, use submission, maintenance record and stock transaction exists.
abbrev pub HasItem : List ResourceItem → ℕ → Type 0
HasItem items k = (item : ResourceItem) × (find (λ r. r.id) k items ≡ some item)

unfoldable pub IsReferential : Database → Type 0
IsReferential db =
    All (λ b. HasItem db.items b.resource_item) db.bookings
    × All (λ u. HasItem db.items u.resource_item) db.uses
    × All (λ m. HasItem db.items m.resource_item) db.maintenance
    × All (λ t. HasItem db.items t.resource_item) db.stock

module _ {A : Type 0} (resource : A → ℕ) (items : List ResourceItem) (k : ℕ) where
  references_kept :
      (rows : List A)
      → count_where (λ r. resource r == k) rows ≡ 0
      → All (λ r. HasItem items (resource r)) rows
      → All (λ r. HasItem (remove (λ i. i.id) k items) (resource r)) rows
  references_kept [] none_left all = tt
  references_kept (r ∷ rows) none_left ((item, found), all) = (
    (item, find-remove_ne (λ i. i.id) (resource r) k items away ∙ found),
    references_kept rows (ground arith) all,
  )
    where
      away : resource r ≢ k
      away = ground arith

no_dependencies :
    (k : ℕ) (db : Database)
    → has_dependencies (dependencies k db) ≡ false
    → (count_where (λ b. b.resource_item == k) db.bookings ≡ 0)
      × (count_where (λ u. u.resource_item == k) db.uses ≡ 0)
      × (count_where (λ m. m.resource_item == k) db.maintenance ≡ 0)
      × (count_where (λ t. t.resource_item == k) db.stock ≡ 0)
no_dependencies k db h = ground arith

-- A deletion that returns was a manager's, of a resource that is there and has no dependencies.
deleted_item :
    (user : User) (pk : ℕ) (db db' : Database) (u : Unit {0})
    → delete_resource user pk db ≡ (ok u, db')
    → (is_resource_manager user ≡ true)
      × ((item : ResourceItem) × (find (λ r. r.id) pk db.items ≡ some item))
unfolding delete_resource
deleted_item user pk db db' u h =
    raise_if_ok _ _ _ _ (atomic_ok _ _ h)
      λ manager h1. check_ok _ _ _ h1 λ item found h2. (ground arith, (item, or_missing_ok _ found))

deleted_rows :
    (c : Bool) (e : Error) (db mid db' : Database) (u : Unit {0})
    → ◌≡◌ {A = Result (Unit {0}) × Database} (if c then (err e, db) else (ok tt, mid)) (ok u, db')
    → (c ≡ false) × (mid ≡ db')
deleted_rows true e db mid db' u h = cc
deleted_rows false e db mid db' u h = (refl, cc)

delete-IsReferential :
    (k : ℕ) (db : Database)
    → IsReferential db
    → has_dependencies (dependencies k db) ≡ false
    → IsReferential (record db { items = remove (λ r. r.id) k db.items })
unfolding IsReferential
delete-IsReferential k db (bookings, uses, maintenance, stock) none_left =
    let (b, u, m, t) = no_dependencies k db none_left in
    (
      references_kept (λ r. r.resource_item) db.items k db.bookings b bookings,
      references_kept (λ r. r.resource_item) db.items k db.uses u uses,
      references_kept (λ r. r.resource_item) db.items k db.maintenance m maintenance,
      references_kept (λ r. r.resource_item) db.items k db.stock t stock,
    )

-- Deleting a resource leaves no booking, use submission, maintenance record or stock transaction
-- without its resource.
pub delete_resource-IsReferential :
    (user : User) (pk : ℕ) (db : Database)
    → IsReferential db
    → IsReferential (delete_resource user pk db).1
unfolding delete_resource IsReferential
delete_resource-IsReferential user pk db refs =
    atomic-keeps IsReferential db (delete_resource user pk db) (λ x db'. atomic_err _)
      (λ u db' h.
        let (manager, (item, found)) = deleted_item user pk db db' u h in
        let (none_left, same) =
          deleted_rows (has_dependencies (dependencies item.id db)) _ _ _ _ _
            (sym (delete_resource_result user pk db item manager found) ∙ h) in
        subst IsReferential same (delete-IsReferential item.id db refs none_left))
      refs

-- No booking, use submission, maintenance record or stock transaction is of the resource.
abbrev pub IsUnused : ℕ → Database → Type 0
IsUnused k db =
    All (λ b. b.resource_item ≢ k) db.bookings
    × All (λ u. u.resource_item ≢ k) db.uses
    × All (λ m. m.resource_item ≢ k) db.maintenance
    × All (λ t. t.resource_item ≢ k) db.stock

module _ {A : Type 0} (resource : A → ℕ) (k : ℕ) where
  none_of :
      (rows : List A)
      → (count_where (λ r. resource r == k) rows ≡ 0)
      → All (λ r. resource r ≢ k) rows
  none_of [] h = tt
  none_of (r ∷ rows) h = (ground arith, none_of rows (ground arith))

  count_none :
      (rows : List A) → All (λ r. resource r ≢ k) rows → count_where (λ r. resource r == k) rows ≡ 0
  count_none [] h = refl
  count_none (r ∷ rows) (away, h) = ground (arith, count_none rows h)

used_iff : (k : ℕ) (db : Database) → (has_dependencies (dependencies k db) ≡ false) ↔ IsUnused k db
used_iff k db = (
  λ h.
      let (b, u, m, t) = no_dependencies k db h in
      (
        none_of (λ r. r.resource_item) k db.bookings b,
        none_of (λ r. r.resource_item) k db.uses u,
        none_of (λ r. r.resource_item) k db.maintenance m,
        none_of (λ r. r.resource_item) k db.stock t,
      ),
  λ (b, u, m, t).
      rw
        (
          count_none (λ r. r.resource_item) k db.bookings b,
          count_none (λ r. r.resource_item) k db.uses u,
          count_none (λ r. r.resource_item) k db.maintenance m,
          count_none (λ r. r.resource_item) k db.stock t,
        )
        refl,
)

removed :
    (k : ℕ) (items : List ResourceItem) → find (λ r. r.id) k (remove (λ r. r.id) k items) ≡ none
removed k [] = refl
removed k (r ∷ items) = ground (arith, removed k items)

-- The numbers of the rows that are of the resource.
abbrev pub has_history : ℕ → Database → Error
has_history k db = Error.conflict (
    Conflict.resource_has_history (count_where (λ b. b.resource_item == k) db.bookings)
      (count_where (λ u. u.resource_item == k) db.uses)
      (count_where (λ m. m.resource_item == k) db.maintenance)
      (count_where (λ t. t.resource_item == k) db.stock))

-- What a deletion of the resource may come to: it returns when the resource is unused, with the
-- resource gone and an event of the deletion; otherwise it raises with those numbers and stores
-- nothing.
abbrev pub IsDeletion : ℕ → ℕ → Database → Result (Unit {0}) × Database → Type 0
IsDeletion user k db (result, db') =
    (result ≡ ok tt ↔ IsUnused k db)
    × (result ≡ ok tt
        → (find (λ r. r.id) k db'.items ≡ none)
          × (db'.events
              ≡ (add_event none (some user) EventType.resource_deleted
                  (EventTarget.resource_target k) db).events))
    × (result ≢ ok tt → (db' ≡ db) × (result ≡ err (has_history k db)))

IsDeletion-told :
    (user k : ℕ) (db : Database) (c : Bool)
    → (c ≡ false ↔ IsUnused k db)
    → IsDeletion user k db (
        if c then (err (has_history k db), db) else (
          ok tt,
          record (add_event none
              (some user)
              EventType.resource_deleted
              (EventTarget.resource_target k)
              db) { items = remove (λ r. r.id) k db.items },
        ))
IsDeletion-told user k db true iff = (
  (λ h. absurd (ground arith), λ unused. let h = iff.1 unused in absurd (ground arith)),
  λ h. absurd (ground arith),
  λ h. (refl, refl),
)
IsDeletion-told user k db false iff =
    ((λ h. iff.0 refl, λ unused. refl), λ h. (removed k db.items, refl), λ h. absurd (h refl))

-- A manager's deletion of a resource that is there returns, rather than raises, exactly when no
-- booking, use submission, maintenance record or stock transaction is of the resource. When it returns,
-- the resource is gone and the event of its deletion is stored; when it raises, it does so
-- with the four numbers of those rows, and nothing at all is stored, the event of the refusal included.
pub delete_resource_lem :
    (user : User) (pk : ℕ) (db : Database) (item : ResourceItem)
    → is_resource_manager user ≡ true
    → find (λ r. r.id) pk db.items ≡ some item
    → IsDeletion user.id pk db (delete_resource user pk db)
delete_resource_lem user pk db item manager found =
    subst (λ k. IsDeletion user.id k db (delete_resource user pk db))
      (find_pk (λ r. r.id) pk db.items found)
      (subst (IsDeletion user.id item.id db)
        (sym (delete_resource_result user pk db item manager found))
        (IsDeletion-told user.id item.id db _ (used_iff item.id db)))

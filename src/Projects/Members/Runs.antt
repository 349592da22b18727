-- ===== src/Projects/Members/Runs.antt =====
-- Runs of the steps that the functions of the memberships share, and the rows that they save.
use grad_sync.Prelude.{
  ℕ, suc, ◌≡◌, ◌<◌, refl, sym, ap, ◌∙◌, subst, ◌⊎◌, inl, inr, Bool, true, false, Option, none, some,
  some_eq, any, All-weaken, find, arith,
}
use grad_sync.Projects.Model.{ProjectMembership}
use grad_sync.Projects.Members.{
  Error, Database, Step, fresh_id, is_live_primary, excludes, store_membership, save_membership,
}
use grad_sync.Projects.Members.Collaborators.{row_for}
use grad_sync.Projects.Members.Owners.{IsOwnedFor, store_membership-IsOwned, unused}
use grad_sync.Transactions.{Result, ok, pure, check, ◌>>=◌, ◌>>◌, raise_if, modify}
use grad_sync.Transactions.Runs.{err_if, check_ok, bind_ok, raise_if_ok, modify_done, returns}

abbrev pub drawn : Database → Database
drawn db = record db { next_id = suc db.next_id }

pub save_run :
    (m : ProjectMembership) (db mid : Database) (v : Unit {0})
    → save_membership m db ≡ (ok v, mid)
    → (any (excludes m) db.memberships ≡ false) × (store_membership m db ≡ mid)
unfolding save_membership
save_run m db mid v h = check_ok _ _ _ h λ u alone h1.
    ((err_if (any (excludes m) db.memberships) Error.integrity alone).0, modify_done _ h1)

module _ {B : Type 0} (db : Database) {db' : Database} {b : B} {P : Type 0} where
  pub fresh_id_ok :
      (k : ℕ → Step B)
      → (fresh_id >>= k) db ≡ (ok b, db')
      → (k db.next_id (drawn db) ≡ (ok b, db') → P)
      → P
  unfolding fresh_id check modify pure ◌>>=◌
  fresh_id_ok k h rest = rest h

  pub save_ok :
      (m : ProjectMembership) (k : Step B)
      → (save_membership m >> k) db ≡ (ok b, db')
      → (k (store_membership m db) ≡ (ok b, db') → P)
      → P
  save_ok m k h rest =
      bind_ok _ _ _ h λ u mid saved h1.
        rest (subst (λ d. k d ≡ (ok b, db')) (sym (save_run m db mid u saved).1) h1)

-- What `row_for` saves: the row that there was, revived, or a new one.
abbrev pub Saved :
    (ProjectMembership → ProjectMembership)
    → (ℕ → ProjectMembership)
    → Option ProjectMembership
    → Database
    → ProjectMembership
    → Database
    → Type 0
Saved revive create existing db m mid =
    ((x : ProjectMembership) × (existing ≡ some x) × (m ≡ revive x) × (store_membership m db ≡ mid))
    ⊎ ((existing ≡ none) × (m ≡ create db.next_id) × (store_membership m (drawn db) ≡ mid))

module _ (revive : ProjectMembership → ProjectMembership) (create : ℕ → ProjectMembership) where
  pub row_for_run :
      (existing : Option ProjectMembership) (db mid : Database) (m : ProjectMembership)
      → row_for revive create existing db ≡ (ok m, mid)
      → Saved revive create existing db m mid
  row_for_run (some x) db mid m h = save_ok db _ _ h λ h1. inl (
    x,
    refl,
    returns (λ r d. r ≡ revive x) _ h1 refl,
    returns (λ r d. store_membership r db ≡ d) _ h1 refl,
  )
  row_for_run none db mid m h = fresh_id_ok db _ h λ h1. save_ok _ _ _ h1 λ h2. inr (
    refl,
    returns (λ r d. r ≡ create db.next_id) _ h2 refl,
    returns (λ r d. store_membership r (drawn db) ≡ d) _ h2 refl,
  )

pub drawn-IsOwned :
    (class : ℕ → Bool) (db : Database) → IsOwnedFor class db → IsOwnedFor class (drawn db)
drawn-IsOwned class db (keyed, used, owned) = (
  keyed,
  All-weaken (λ r. r.id < db.next_id) (λ r. r.id < suc db.next_id) db.memberships
      (λ r h. omega arith) used,
  owned,
)

pub fresh-IsOwned :
    (class : ℕ → Bool) (m : ProjectMembership) (db : Database)
    → m.id ≡ db.next_id
    → IsOwnedFor class db
    → IsOwnedFor class (store_membership m (drawn db))
fresh-IsOwned class m db same owned =
    store_membership-IsOwned class m (drawn db) (omega arith)
      (λ y at in_class live.
        absurd
          (unused db y owned.1 (subst (λ k. find (λ r. r.id) k db.memberships ≡ some y) same at)))
      (drawn-IsOwned class db owned)

-- Whatever stands under the key of the row is no live primary advisor's of a project of the class.
abbrev pub IsFree : (ℕ → Bool) → Database → ProjectMembership → Type 0
IsFree class db x =
    (x.id < db.next_id)
    × ((y : ProjectMembership)
        → find (λ r. r.id) x.id db.memberships ≡ some y
        → class y.project ≡ true
        → is_live_primary y ≡ true
        → ⊥)

pub stored-IsFree :
    (class : ℕ → Bool) (db : Database) (x : ProjectMembership)
    → x.id < db.next_id
    → find (λ r. r.id) x.id db.memberships ≡ some x
    → is_live_primary x ≡ false
    → IsFree class db x
stored-IsFree class db x old found other = (
  old,
  λ y at in_class live.
      let same : x ≡ y = some_eq (sym found ∙ at) in
      ground (arith, subst (λ r. is_live_primary r ≡ false) same other, live),
)

-- Such a row may be saved again.
pub resave-IsOwned :
    (class : ℕ → Bool) (m new : ProjectMembership) (db : Database)
    → IsFree class db m
    → new.id ≡ m.id
    → IsOwnedFor class db
    → IsOwnedFor class (store_membership new db)
resave-IsOwned class m new db (old, free) same owned =
    store_membership-IsOwned class new db (subst (λ k. k < db.next_id) (sym same) old)
      (λ y at. free y (subst (λ k. find (λ r. r.id) k db.memberships ≡ some y) same at)) owned

-- What `row_for` saves leaves the owners theirs.
module _ (revive : ProjectMembership → ProjectMembership) (create : ℕ → ProjectMembership) where
  pub row_for-IsOwned :
      (class : ℕ → Bool) (existing : Option ProjectMembership) (db mid : Database)
      (m : ProjectMembership)
      → ((x : ProjectMembership) → (revive x).id ≡ x.id)
      → ((k : ℕ) → (create k).id ≡ k)
      → ((x : ProjectMembership) → existing ≡ some x → IsFree class db x)
      → row_for revive create existing db ≡ (ok m, mid)
      → IsOwnedFor class db
      → IsOwnedFor class mid
  row_for-IsOwned class existing db mid m same_id new_id free h owned =
      elim (row_for_run revive create existing db mid m h) [
        | inl (x, there, is, stored) ↦
            subst (IsOwnedFor class) stored
              (resave-IsOwned class x m db (free x there) (ap (λ r. r.id) is ∙ same_id x) owned)
        | inr (gone, is, stored) ↦
            subst (IsOwnedFor class) stored
              (fresh-IsOwned class m db (ap (λ r. r.id) is ∙ new_id db.next_id) owned)
      ]

raise_if_done :
    (c : Bool) (e : Error) (db mid : Database) (v : Unit {0})
    → ◌≡◌ {A = Result Error (Unit {0}) × Database} (raise_if c e db) (ok v, mid)
    → (c ≡ false) × (db ≡ mid)
unfolding raise_if
raise_if_done true e db mid v h = cc
raise_if_done false e db mid v h = (refl, cc)

module _ {B : Type 0} (db : Database) {db' : Database} {b : B} {P : Type 0} where
  -- Two guards in a row, of which the first may read the database.
  pub guards_ok :
      (f : Database → Result Error (Unit {0})) (c : Bool) (e : Error) (k : Step B)
      → (check f >> raise_if c e >> k) db ≡ (ok b, db')
      → ((v : Unit {0}) → f db ≡ ok v → c ≡ false → k db ≡ (ok b, db') → P)
      → P
  guards_ok f c e k h rest = bind_ok _ _ _ h λ u mid passed h1. check_ok _ _ _ passed λ v test h2.
      let (free, same) = raise_if_done c e db mid u h2 in
      rest v test free (subst (λ d. k d ≡ (ok b, db')) (sym same) h1)

  pub both_ok :
      (c c' : Bool) (e e' : Error) (k : Step B)
      → (raise_if c e >> raise_if c' e' >> k) db ≡ (ok b, db')
      → (c ≡ false → c' ≡ false → k db ≡ (ok b, db') → P)
      → P
  both_ok c c' e e' k h rest = bind_ok _ _ _ h λ u mid passed h1.
      raise_if_ok _ _ _ _ passed λ free h2.
        let (free', same) = raise_if_done c' e' db mid u h2 in
        rest free free' (subst (λ d. k d ≡ (ok b, db')) (sym same) h1)

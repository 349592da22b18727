-- ===== src/Projects/Members/Owners.antt =====
-- The invariant of the memberships: every project has the row of its owner.
use grad_sync.Prelude.{
  ℕ, ◌≡◌, ◌<◌, refl, sym, ap, ◌∙◌, inl, inr, Bool, true, not, some, List, All, All-find, All-remove,
  All-weaken, find, put, find_pk, find-put_ne, HasKeys, put-HasKeys, Bool-cases, ◌==◌, ==_iff,
  arith,
}
use grad_sync.Projects.Model.{ResearchProject, ProjectMembership}
use grad_sync.Projects.Members.{Database, is_live_primary, store_membership, store_project}

-- The row of the project's primary advisor, who is the one that the project names.
abbrev pub Owner : ResearchProject → List ProjectMembership → Type 0
Owner p rows =
    (m : ProjectMembership) × (find (λ r. r.id) m.id rows ≡ some m)
    × (m.project ≡ p.id)
    × (m.user ≡ p.advisor)
    × (is_live_primary m ≡ true)

-- The rows have different keys, all of them in use, and each project of the class has its owner.
abbrev pub IsOwnedFor : (ℕ → Bool) → Database → Type 0
IsOwnedFor class db =
    HasKeys (λ r. r.id) db.memberships
    × All (λ r. r.id < db.next_id) db.memberships
    × All (λ p. class p.id ≡ true → Owner p db.memberships) db.projects

abbrev pub everyone : ℕ → Bool
everyone k = true

abbrev pub IsOwned : Database → Type 0
IsOwned db = IsOwnedFor everyone db

-- A saved row takes an owner away only when it is written over the owner's own.
pub Owner-put :
    (p : ResearchProject) (r : ProjectMembership) (rows : List ProjectMembership)
    → ((x : ProjectMembership)
        → find (λ y. y.id) r.id rows ≡ some x
        → x.project ≡ p.id
        → is_live_primary x ≡ true
        → ⊥)
    → Owner p rows
    → Owner p (put (λ y. y.id) r rows)
Owner-put p r rows free (m, found, project, user, live) = elim (Bool-cases (m.id == r.id)) [
  | inl same ↦ absurd (
      free m (ap (λ k. find (λ y. y.id) k rows) (sym ((==_iff m.id r.id).0 same)) ∙ found) project
        live)
  | inr other ↦ (m, find-put_ne (λ y. y.id) m.id r rows (ground arith) ∙ found, project, user, live)
]

pub store_membership-IsOwned :
    (class : ℕ → Bool) (r : ProjectMembership) (db : Database)
    → r.id < db.next_id
    → ((x : ProjectMembership)
        → find (λ y. y.id) r.id db.memberships ≡ some x
        → class x.project ≡ true
        → is_live_primary x ≡ true
        → ⊥)
    → IsOwnedFor class db
    → IsOwnedFor class (store_membership r db)
store_membership-IsOwned class r db old free (keyed, used, owned) = (
  put-HasKeys (λ y. y.id) r db.memberships keyed,
  (
    old,
    All-remove (λ y. y.id < db.next_id) (λ y. y.id < db.next_id) (λ y. y.id) r.id db.memberships
        (λ x h e. h) used,
  ),
  All-weaken (λ p. class p.id ≡ true → Owner p db.memberships)
      (λ p. class p.id ≡ true → Owner p (put (λ y. y.id) r db.memberships)) db.projects
      (λ p h c.
        Owner-put p r db.memberships (λ x found at live. free x found (ap class at ∙ c) live) (h c))
      owned,
)

-- A project is stored with its owner, when all the others have theirs.
pub store_project-IsOwned :
    (p : ResearchProject) (db : Database)
    → IsOwnedFor (λ k. not (k == p.id)) db
    → Owner p db.memberships
    → IsOwned (store_project p db)
store_project-IsOwned p db (keyed, used, owned) owner = (
  keyed,
  used,
  (
    (λ c. owner),
    All-remove (λ q. not (q.id == p.id) ≡ true → Owner q db.memberships)
        (λ q. true ≡ true → Owner q db.memberships) (λ q. q.id) p.id db.projects
        (λ q h other c. h (ap not other)) owned,
  ),
)

pub some-IsOwned : (class : ℕ → Bool) (db : Database) → IsOwned db → IsOwnedFor class db
some-IsOwned class db (keyed, used, owned) = (
  keyed,
  used,
  All-weaken (λ p. true ≡ true → Owner p db.memberships)
      (λ p. class p.id ≡ true → Owner p db.memberships) db.projects (λ p h c. h refl) owned,
)

pub found-Owner :
    (pk : ℕ) (p : ResearchProject) (db : Database)
    → IsOwned db
    → find (λ r. r.id) pk db.projects ≡ some p
    → Owner p db.memberships
found-Owner pk p db (keyed, used, owned) found =
    All-find (λ p. true ≡ true → Owner p db.memberships) (λ r. r.id) pk db.projects owned found refl

-- No row has the next key.
pub unused :
    (db : Database) (x : ProjectMembership)
    → All (λ r. r.id < db.next_id) db.memberships
    → find (λ r. r.id) db.next_id db.memberships ≡ some x
    → ⊥
unused db x used found =
    let below : x.id < db.next_id =
      All-find (λ r. r.id < db.next_id) (λ r. r.id) db.next_id db.memberships used found in
    let same : x.id ≡ db.next_id = find_pk (λ r. r.id) db.next_id db.memberships found in
    omega arith

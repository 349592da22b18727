-- ===== src/Resources/Capacity/Usage.antt =====
-- The admission test against the use of a resource at each instant.
use grad_sync.Prelude.{
  ℕ, ◌+◌, ◌≤◌, ◌<◌, ◌≡◌, refl, true, Option, none, some, List, arith, subst, inl, inr, Bool-cases,
  find, remove, put, find_pk, sum_where, sum_where_mono, sum_where-exclude, sum_where-remove-le,
}
use grad_sync.Resources.Model.{ResourceItem, Booking, Datetime}
use grad_sync.Resources.State.{ok, Database}
use grad_sync.Resources.Capacity.{holds, usage, overlaps, assert_capacity, capacity_check}

-- No resource is used beyond its quantity, at any instant.
abbrev pub WithinCapacity : List ResourceItem → List Booking → Type 0
WithinCapacity items bookings =
    (k : ℕ) (item : ResourceItem) (t : ℕ)
    → find (λ r. r.id) k items ≡ some item
    → usage k t bookings ≤ item.total_quantity

overlaps_of_holds :
    (k s e t : ℕ) (exclude : Option ℕ)
    → s ≤ t
    → t < e
    → (b : Booking) → holds k t b ≡ true
    → overlaps k s e none b ≡ true
overlaps_of_holds k s e t exclude p q b h = ground arith

-- An instant within the window sees no more than the window does.
pub usage-le_overlaps :
    (k s e t : ℕ)
    → s ≤ t
    → t < e
    → (bs : List Booking) → usage k t bs ≤ sum_where (overlaps k s e none) (λ b. b.quantity) bs
usage-le_overlaps k s e t p q bs = sum_where_mono _ _ _ (overlaps_of_holds k s e t none p q) bs

-- The bookings that the admission test counts.
abbrev pub others : Option ℕ → List Booking → List Booking
others none bs = bs
others (some pk) bs = remove (λ b. b.id) pk bs

overlaps-others :
    (k s e : ℕ) (exclude : Option ℕ) (bs : List Booking)
    → sum_where (overlaps k s e exclude) (λ b. b.quantity) bs
      ≡ sum_where (overlaps k s e none) (λ b. b.quantity) (others exclude bs)
overlaps-others k s e none bs = refl
overlaps-others k s e (some pk) bs =
    sum_where-exclude (λ b. b.id) (overlaps k s e none) (λ b. b.quantity) pk bs

capacity_check_room :
    (item : ResourceItem) (starts_at ends_at : Datetime) (q : ℕ) (exclude : Option ℕ)
    (db : Database)
    → 1 ≤ q
    → capacity_check item starts_at ends_at q exclude db ≡ ok tt
    → q
        + sum_where
            (overlaps item.id starts_at.instant ends_at.instant exclude)
            (λ b. b.quantity)
            db.bookings
      ≤ item.total_quantity
unfolding capacity_check
capacity_check_room item starts_at ends_at q exclude db h h' = ground arith

-- What the test has admitted fits at every instant of the window, whatever else is booked.
pub assert_capacity_room :
    (k : ℕ) (starts_at ends_at : Datetime) (q : ℕ) (exclude : Option ℕ) (db : Database)
    {item : ResourceItem}
    → 1 ≤ q
    → assert_capacity k starts_at ends_at q exclude db ≡ ok tt
    → find (λ r. r.id) k db.items ≡ some item
    → (t : ℕ) → starts_at.instant ≤ t
    → t < ends_at.instant
    → q + usage k t (others exclude db.bookings) ≤ item.total_quantity
unfolding assert_capacity
assert_capacity_room k starts_at ends_at q exclude db {item} h0 h found t p p' =
    let passed : capacity_check item starts_at ends_at q exclude db ≡ ok tt =
      rw (found, assert_capacity) at h in
    let same : item.id ≡ k = find_pk (λ r. r.id) k db.items found in
    let room = capacity_check_room item starts_at ends_at q exclude db h0 passed in
    omega (
      arith,
      rw (same, overlaps-others k starts_at.instant ends_at.instant exclude db.bookings) at room,
      usage-le_overlaps k starts_at.instant ends_at.instant t p p' (others exclude db.bookings),
    )

holds_resource : (k t : ℕ) (b : Booking) → holds k t b ≡ true → b.resource_item ≡ k
holds_resource k t b h = ground arith

-- Saving a row that holds nothing, or that the test admitted, keeps every resource within capacity.
pub put-WithinCapacity :
    (items : List ResourceItem) (bs : List Booking) (b : Booking)
    → WithinCapacity items bs
    → ((item : ResourceItem) (t : ℕ)
        → find (λ r. r.id) b.resource_item items ≡ some item
        → holds b.resource_item t b ≡ true
        → b.quantity + usage b.resource_item t (remove (λ b. b.id) b.id bs) ≤ item.total_quantity)
    → WithinCapacity items (put (λ b. b.id) b bs)
put-WithinCapacity items bs b within fits k item t found = elim (Bool-cases (holds k t b)) [
  | inl held ↦
      let same : b.resource_item ≡ k = holds_resource k t b held in
      rw held (
        subst
          (λ j.
            (find (λ r. r.id) j items ≡ some item)
            → (holds j t b ≡ true)
            → b.quantity + usage j t (remove (λ b. b.id) b.id bs) ≤ item.total_quantity)
          same (fits item t) found held)
  | inr free ↦ rw free (
      omega (
        arith,
        within k item t found,
        sum_where-remove-le (λ b. b.id) (holds k t) (λ b. b.quantity) b.id bs,
      ))
]

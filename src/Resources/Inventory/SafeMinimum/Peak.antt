-- ===== src/Resources/Inventory/SafeMinimum/Peak.antt =====
-- The sweep finds at least as many simultaneous bookings as there are at any instant.
use grad_sync.Prelude.{
  ℕ, ◌≤◌, ◌<◌, ◌≡◌, refl, inl, inr, true, List, [], ◌∷◌, arith, leb, if◌then◌else◌, All, Bool-cases,
  ◌∙◌, ap,
}
use grad_sync.Prelude.Int.{ℤ, pos, ◌+ℤ◌, ◌≤ℤ◌, max_ℤ, pos_part, int_laws}
use grad_sync.Resources.Model.{Booking}
use grad_sync.Resources.Capacity.{usage}
use grad_sync.Resources.Inventory.SafeMinimum.{
  Change, insert, sorted, changes, counts, sweep, safe_minimum_quantity, holders,
}

-- The sum of the changes up to an instant.
net : ℕ → List Change → ℤ
net t [] = pos 0
net t (c ∷ cs) = let rest = net t cs in if leb c.at t then c.delta +ℤ rest else rest

net-insert : (t : ℕ) (c : Change) (ds : List Change) → net t (insert c ds) ≡ net t (c ∷ ds)
unfolding net insert
net-insert t c [] = refl
net-insert t c (d ∷ ds) = grind (int_laws, net-insert t c ds)

net-sorted : (t : ℕ) (cs : List Change) → net t (sorted cs) ≡ net t cs
unfolding net sorted
net-sorted t [] = refl
net-sorted t (c ∷ cs) = net-insert t c (sorted cs) ∙ rw (net-sorted t cs)

abbrev NotBefore : ℕ → List Change → Type 0
NotBefore t = All (λ d. t ≤ d.at)

abbrev IsSorted : List Change → Type 0
IsSorted [] = Unit
IsSorted (c ∷ cs) = NotBefore c.at cs × IsSorted cs

NotBefore-insert :
    (t : ℕ) (c : Change) (ds : List Change) → t ≤ c.at → NotBefore t ds → NotBefore t (insert c ds)
unfolding insert
NotBefore-insert t c [] h hs = (h, tt)
NotBefore-insert t c (d ∷ ds) h hs = ground (arith, NotBefore-insert t c ds)

NotBefore-weaken : (s t : ℕ) (ds : List Change) → s ≤ t → NotBefore t ds → NotBefore s ds
NotBefore-weaken s t [] le h = tt
NotBefore-weaken s t (d ∷ ds) le h = (omega arith, NotBefore-weaken s t ds le h.1)

insert-IsSorted : (c : Change) (ds : List Change) → IsSorted ds → IsSorted (insert c ds)
unfolding insert
insert-IsSorted c [] h = (tt, tt)
insert-IsSorted c (d ∷ ds) h =
    ground
      (arith, insert-IsSorted c ds h.1, NotBefore-insert d.at c ds, NotBefore-weaken c.at d.at ds)

sorted-IsSorted : (cs : List Change) → IsSorted (sorted cs)
unfolding sorted
sorted-IsSorted [] = tt
sorted-IsSorted (c ∷ cs) = insert-IsSorted c (sorted cs) (sorted-IsSorted cs)

net-later : (t m : ℕ) (cs : List Change) → t < m → NotBefore m cs → net t cs ≡ pos 0
unfolding net
net-later t m [] lt h = refl
net-later t m (c ∷ cs) lt h = ground (arith, net-later t m cs)

best-le-sweep : (active best : ℤ) (cs : List Change) → best ≤ℤ sweep active best cs
unfolding sweep
best-le-sweep active best [] = omega arith
best-le-sweep active best (c ∷ cs) =
    grind (arith, best-le-sweep (active +ℤ c.delta) (max_ℤ best (active +ℤ c.delta)) cs)

net-le-sweep :
    (t : ℕ) (active best : ℤ) (cs : List Change)
    → active ≤ℤ best
    → IsSorted cs
    → active +ℤ net t cs ≤ℤ sweep active best cs
unfolding net sweep
net-le-sweep t active best [] le h = omega int_laws
net-le-sweep t active best (c ∷ cs) le h = elim (Bool-cases (leb c.at t)) [
  | inl early ↦
      let next = active +ℤ c.delta in
      rw early (omega (int_laws, net-le-sweep t next (max_ℤ best next) cs (ground arith) h.1))
  | inr late ↦
      rw (late, net-later t c.at cs (ground arith) h.0)
        (omega (
          int_laws,
          best-le-sweep (active +ℤ c.delta) (max_ℤ best (active +ℤ c.delta)) cs,
          le_max best (active +ℤ c.delta),
        ))
]
  where
    le_max : (a b : ℤ) → a ≤ℤ max_ℤ a b
    le_max a b = ground arith

-- Every booking ends after it starts.
abbrev pub AreOrdered : List Booking → Type 0
AreOrdered = All (λ b. b.starts_at < b.ends_at)

-- A booking that counts adds one from its start, and takes it back from its end.
net_booking :
    (k t : ℕ) (b : Booking) (bs : List Booking)
    → counts k b ≡ true
    → b.starts_at < b.ends_at
    → net t (changes k bs) ≡ pos (holders k t bs)
    → net t (changes k (b ∷ bs)) ≡ pos (holders k t (b ∷ bs))
unfolding net changes ◌+ℤ◌
net_booking k t b bs counted ordered h = rw counted (ground arith)

net-changes :
    (k t : ℕ) (bs : List Booking) → AreOrdered bs → net t (changes k bs) ≡ pos (holders k t bs)
unfolding net changes
net-changes k t [] h = refl
net-changes k t (b ∷ bs) h = elim (Bool-cases (counts k b)) [
  | inl counted ↦ net_booking k t b bs counted h.0 (net-changes k t bs h.1)
  | inr other ↦ rw other (net-changes k t bs h.1 ∙ ap pos (ground arith))
]

-- The safe minimum is at least one, and at least the number of committed bookings that hold the
-- resource at any one instant.
pub holders-le-safe_minimum :
    (k t : ℕ) (bs : List Booking)
    → AreOrdered bs
    → (1 ≤ safe_minimum_quantity k bs) × (holders k t bs ≤ safe_minimum_quantity k bs)
unfolding safe_minimum_quantity
holders-le-safe_minimum k t bs ordered =
    let peak =
      net-le-sweep t (pos 0) (pos 0) (sorted (changes k bs)) (omega arith)
        (sorted-IsSorted (changes k bs)) in
    let found = net-sorted t (changes k bs) ∙ net-changes k t bs ordered in
    at_least (holders k t bs) (sweep (pos 0) (pos 0) (sorted (changes k bs))) (rw found at peak)
  where
    at_least :
        (n : ℕ) (best : ℤ)
        → pos 0 +ℤ pos n ≤ℤ best
        → (1 ≤ pos_part (max_ℤ (pos 1) best)) × (n ≤ pos_part (max_ℤ (pos 1) best))
    at_least n best h = grind int_laws

-- Where every committed booking of the resource is for one unit, the holders are the use.
abbrev pub AreSingle : ℕ → List Booking → Type 0
AreSingle k = All (λ b. counts k b ≡ true → b.quantity ≡ 1)

pub usage-eq-holders :
    (k t : ℕ) (bs : List Booking) → AreSingle k bs → usage k t bs ≡ holders k t bs
usage-eq-holders k t [] h = refl
usage-eq-holders k t (b ∷ bs) h = ground (arith, usage-eq-holders k t bs h.1)

-- ===== src/Resources/Inventory/SafeMinimum.antt =====
-- `ResourceInventoryService._safe_minimum_quantity`: the sweep over the starts and ends of the
-- committed bookings of a resource.
pub mod Peak
use grad_sync.Prelude.{
  ℕ, ◌+◌, ◌≤◌, ◌<◌, ◌≡◌, refl, Bool, true, false, ◌&&◌, ◌||◌, List, [], ◌∷◌, arith, ltb, leb, ◌==◌,
  if◌then◌else◌, count_where,
}
use grad_sync.Prelude.Int.{
  ℤ, pos, negsuc, ◌+ℤ◌, ◌≤ℤ◌, max_ℤ, pos_part, neg_part, leb_ℤ, ltb_ℤ, int_laws,
}
use grad_sync.Resources.Model.{Booking, is_committed}
use grad_sync.Resources.Capacity.{holds}

pub record Change : Type 0 where
  pub at : ℕ
  pub delta : ℤ

-- `bookings.filter(status__in=[CONFIRMED, RESERVED])` of the resource
abbrev pub counts : ℕ → Booking → Bool
counts k b = b.resource_item == k && is_committed b.status

unfoldable pub changes : ℕ → List Booking → List Change
changes k [] = []
changes k (b ∷ bs) =
    let rest = changes k bs in
    if counts k b
    then record { at = b.starts_at; delta = pos 1 }
      ∷ record { at = b.ends_at; delta = negsuc 0 }
      ∷ rest
    else rest

-- The order of the keys `(item[0], item[1])`.
abbrev pub precedes : Change → Change → Bool
precedes a b = ltb a.at b.at || (a.at == b.at && leb_ℤ a.delta b.delta)

unfoldable pub insert : Change → List Change → List Change
insert c [] = c ∷ []
insert c (d ∷ ds) = let rest = insert c ds in if precedes c d then c ∷ d ∷ ds else d ∷ rest

-- `sorted(events, key=...)`
unfoldable pub sorted : List Change → List Change
unfolding insert
sorted [] = []
sorted (c ∷ cs) = insert c (sorted cs)

unfoldable pub sweep : ℤ → ℤ → List Change → ℤ
sweep active safe_minimum [] = safe_minimum
sweep active safe_minimum (c ∷ cs) =
    let active' = active +ℤ c.delta in sweep active' (max_ℤ safe_minimum active') cs

unfoldable pub safe_minimum_quantity : ℕ → List Booking → ℕ
unfolding changes sorted sweep
safe_minimum_quantity k bs =
    pos_part (max_ℤ (pos 1) (sweep (pos 0) (pos 0) (sorted (changes k bs))))

-- How many committed bookings hold the resource at an instant.
abbrev pub holders : ℕ → ℕ → List Booking → ℕ
holders k t = count_where (holds k t)

-- ===== src/Prelude/Lists.antt =====
-- Lists measured by native numbers, and the Boolean searches that querysets use.
use Prim.Native.Nat.{ℕ, zero, suc, ◌+◌, ◌≤◌}
use mathlib.Core.Path.{◌≡◌}
use mathlib.Core.Bool.{Bool, true, false, ◌||◌}
use mathlib.Core.List.{List, [], ◌∷◌}
use native.Mathlib.Omega.{arith}
use grad_sync.Prelude.Tests.{if◌then◌else◌, ◌==◌}

module _ {ℓ} {A : Type ℓ} where
  abbrev pub length : List A → ℕ
  length [] = 0
  length (x ∷ xs) = suc (length xs)

  abbrev pub take : ℕ → List A → List A
  take zero xs = []
  take (suc n) [] = []
  take (suc n) (x ∷ xs) = x ∷ take n xs

  -- `qs.filter(p)`
  abbrev pub select : (A → Bool) → List A → List A
  select p [] = []
  select p (x ∷ xs) = let rest = select p xs in if p x then x ∷ rest else rest

  -- `qs.filter(p).exists()`
  abbrev pub any : (A → Bool) → List A → Bool
  any p [] = false
  any p (x ∷ xs) = p x || any p xs

  -- `qs.filter(p).count()`
  abbrev pub count_where : (A → Bool) → List A → ℕ
  count_where p [] = 0
  count_where p (x ∷ xs) = (if p x then 1 else 0) + count_where p xs

  -- `qs.filter(p).aggregate(Sum(f))`, where the sum over no row is 0
  abbrev pub sum_where : (A → Bool) → (A → ℕ) → List A → ℕ
  sum_where p f [] = 0
  sum_where p f (x ∷ xs) = (if p x then f x else 0) + sum_where p f xs

  -- Every element has the property.
  abbrev pub All {κ} : (A → Type κ) → List A → Type κ
  All P [] = Unit
  All P (x ∷ xs) = P x × All P xs

  pub sum_where_mono :
      (p q : A → Bool) (f : A → ℕ)
      → ((x : A) → p x ≡ true → q x ≡ true)
      → (xs : List A) → sum_where p f xs ≤ sum_where q f xs
  sum_where_mono p q f h [] = omega arith
  sum_where_mono p q f h (x ∷ xs) = ground (arith, h x, sum_where_mono p q f h xs)

abbrev pub contains : ℕ → List ℕ → Bool
contains k keys = any (λ i. i == k) keys

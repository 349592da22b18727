-- ===== src/Prelude/Tables.antt =====
-- A database table as the set of its rows: a list with at most one row for each primary key,
-- in no order of significance.
use Prim.Native.Nat.{ℕ, ◌≤◌}
use mathlib.Core.Path.{◌≡◌, refl, sym, ◌∙◌}
use mathlib.Core.Bool.{Bool, ◌&&◌, not}
use mathlib.Core.Logic.{◌≢◌, ◌⊎◌, inl, inr}
use mathlib.Core.List.{List, [], ◌∷◌}
use mathlib.Core.Option.{Option, none, some}
use native.Mathlib.Omega.{arith}
use grad_sync.Prelude.Tests.{◌==◌, if◌then◌else◌, Bool-cases, ==_iff, some_eq}
use grad_sync.Prelude.Lists.{sum_where}

module _ {ℓ} {A : Type ℓ} (pk : A → ℕ) where
  -- `Model.objects.filter(pk=k).first()`
  abbrev pub find : ℕ → List A → Option A
  find k [] = none
  find k (r ∷ rows) = if pk r == k then some r else find k rows

  -- `qs.exclude(pk=k)`, and `row.delete()`
  abbrev pub remove : ℕ → List A → List A
  remove k [] = []
  remove k (r ∷ rows) = let rest = remove k rows in if pk r == k then rest else r ∷ rest

  -- `row.save()`
  abbrev pub put : A → List A → List A
  put r rows = r ∷ remove (pk r) rows

  pub find_pk : (k : ℕ) (rows : List A) {r : A} → find k rows ≡ some r → pk r ≡ k
  find_pk k [] h = cc
  find_pk k (r ∷ rows) {r = q} h = ground (arith, find_pk k rows {r = q})

  pub find-remove_ne : (j k : ℕ) (rows : List A) → j ≢ k → find j (remove k rows) ≡ find j rows
  find-remove_ne j k [] h = refl
  find-remove_ne j k (r ∷ rows) h = ground (arith, find-remove_ne j k rows)

  pub find-put_ne : (j : ℕ) (r : A) (rows : List A) → j ≢ pk r → find j (put r rows) ≡ find j rows
  find-put_ne j r rows h = ground (arith, find-remove_ne j (pk r) rows)

  pub find-put_self : (r : A) (rows : List A) → find (pk r) (put r rows) ≡ some r
  find-put_self r rows = ground arith

  -- A row that is found after `put` is the new one, or was there.
  pub find-put_cases :
      (j : ℕ) (new : A) (rows : List A) {r : A}
      → find j (put new rows) ≡ some r
      → ((j ≡ pk new) × (new ≡ r)) ⊎ ((j ≢ pk new) × (find j rows ≡ some r))
  find-put_cases j new rows h = elim (Bool-cases (pk new == j)) [
    | inl same ↦ inl (sym ((==_iff (pk new) j).0 same), some_eq (rw same at h))
    | inr other ↦
        let away : j ≢ pk new = ground arith in inr (away, sym (find-put_ne j new rows away) ∙ h)
  ]

  -- Removing rows lowers a sum over rows, whatever the filter.
  pub sum_where-remove-le :
      (p : A → Bool) (f : A → ℕ) (k : ℕ) (rows : List A)
      → sum_where p f (remove k rows) ≤ sum_where p f rows
  sum_where-remove-le p f k [] = omega arith
  sum_where-remove-le p f k (r ∷ rows) = ground (arith, sum_where-remove-le p f k rows)

  -- The filters of a queryset with `exclude(pk=k)` in it, and the removal of that row.
  pub sum_where-exclude :
      (p : A → Bool) (f : A → ℕ) (k : ℕ) (rows : List A)
      → sum_where (λ r. not (pk r == k) && p r) f rows ≡ sum_where p f (remove k rows)
  sum_where-exclude p f k [] = refl
  sum_where-exclude p f k (r ∷ rows) = ground (arith, sum_where-exclude p f k rows)

  pub remove_idem : (k : ℕ) (rows : List A) → remove k (remove k rows) ≡ remove k rows
  remove_idem k [] = refl
  remove_idem k (r ∷ rows) = ground (arith, remove_idem k rows)

  -- Saving a row again changes nothing.
  pub put_idem : (r : A) (rows : List A) → put r (put r rows) ≡ put r rows
  put_idem r rows = ground (arith, remove_idem (pk r) rows)

-- ===== src/Prelude/Rows.antt =====
-- Properties that every row of a table has.
use Prim.Native.Nat.{ℕ}
use mathlib.Core.Path.{◌≡◌, refl, sym, ap, ◌∙◌, subst}
use mathlib.Core.Logic.{◌≢◌, ◌⊎◌, inl, inr}
use native.Mathlib.Omega.{arith}
use mathlib.Core.Bool.{Bool, true, false}
use mathlib.Core.List.{List, [], ◌∷◌, map}
use mathlib.Core.Option.{some}
use grad_sync.Prelude.Tests.{◌==◌, Bool-cases, some_eq, ==_iff}
use grad_sync.Prelude.Lists.{All, select}
use grad_sync.Prelude.Tables.{find, remove, put, find-put_self, find-put_ne}

module _ {ℓ κ} {A : Type ℓ} (P : A → Type κ) where
  pub All-find :
      (pk : A → ℕ) (k : ℕ) (rows : List A) {r : A} → All P rows → find pk k rows ≡ some r → P r
  All-find pk k [] h e = cc
  All-find pk k (x ∷ rows) {r} h e = elim (Bool-cases (pk x == k)) [
    | inl same ↦ let here : x ≡ r = some_eq (rw same at e) in rw (← here) h.0
    | inr other ↦ All-find pk k rows h.1 (rw other at e)
  ]

module _ {ℓ κ μ} {A : Type ℓ} (P : A → Type κ) (Q : A → Type μ) where
  pub All-weaken : (rows : List A) → ((r : A) → P r → Q r) → All P rows → All Q rows
  All-weaken [] f h = tt
  All-weaken (r ∷ rows) f h = (f r h.0, All-weaken rows f h.1)

  -- What is removed by its key need not have the property.
  pub All-remove :
      (pk : A → ℕ) (k : ℕ) (rows : List A)
      → ((r : A) → P r → (pk r == k) ≡ false → Q r)
      → All P rows
      → All Q (remove pk k rows)
  All-remove pk k [] f h = tt
  All-remove pk k (r ∷ rows) f h = elim (Bool-cases (pk r == k)) [
    | inl same ↦ rw same (All-remove pk k rows f h.1)
    | inr other ↦ rw other (f r h.0 other, All-remove pk k rows f h.1)
  ]

  pub All-select :
      (p : A → Bool) (rows : List A)
      → ((r : A) → P r → p r ≡ true → Q r)
      → All P rows
      → All Q (select p rows)
  All-select p [] f h = tt
  All-select p (r ∷ rows) f h = elim (Bool-cases (p r)) [
    | inl passes ↦ rw passes (f r h.0 passes, All-select p rows f h.1)
    | inr fails ↦ rw fails (All-select p rows f h.1)
  ]

  pub All-map :
      (g : A → A) (rows : List A) → ((r : A) → P r → Q (g r)) → All P rows → All Q (map g rows)
  All-map g [] f h = tt
  All-map g (r ∷ rows) f h = (f r h.0, All-map g rows f h.1)

pub All-put {ℓ κ} :
    {A : Type ℓ} (P : A → Type κ) (pk : A → ℕ) (r : A) (rows : List A)
    → P r
    → All P rows
    → All P (put pk r rows)
All-put P pk r rows p h = (p, All-remove P P pk (pk r) rows (λ x q e. q) h)

-- A row that is saved twice.
pub All-put-put {ℓ κ} :
    {A : Type ℓ} (P : A → Type κ) (pk : A → ℕ) (a b : A) (rows : List A)
    → pk b ≡ pk a
    → P a
    → All P rows
    → All P (put pk a (put pk b rows))
All-put-put P pk a b rows same p h =
    let gone : (pk b == pk a) ≡ true = (==_iff (pk b) (pk a)).1 same in
    (
      p,
      rw gone (
          All-remove P P pk (pk a) (remove pk (pk b) rows) (λ x q e. q)
            (All-remove P P pk (pk b) rows (λ x q e. q) h)),
    )

module _ {A : Type 0} where
  -- The row stands in the table, with the place kept.
  abbrev pub IsIn : A → List A → Type 0
  IsIn a [] = ⊥
  IsIn a (x ∷ xs) = (a ≡ x) ⊎ IsIn a xs

  pub IsIn-self : (rows : List A) → All (λ r. IsIn r rows) rows
  IsIn-self [] = tt
  IsIn-self (r ∷ rows) = (
    inl refl,
    All-weaken (λ x. IsIn x rows) (λ x. IsIn x (r ∷ rows)) rows (λ x h. inr h) (IsIn-self rows),
  )

  pub All-IsIn {κ} : (P : A → Type κ) (a : A) (rows : List A) → All P rows → IsIn a rows → P a
  All-IsIn P a [] h i = absurd i
  All-IsIn P a (r ∷ rows) h (inl e) = subst P (sym e) h.0
  All-IsIn P a (r ∷ rows) h (inr i) = All-IsIn P a rows h.1 i

-- A row that a table holds is found by its key, when the keys differ.
abbrev pub HasKeys {ℓ} : {A : Type ℓ} → (A → ℕ) → List A → Type ℓ
HasKeys pk rows = All (λ r. find pk (pk r) rows ≡ some r) rows

module _ {ℓ} {A : Type ℓ} (pk : A → ℕ) where
  pub put-HasKeys : (r : A) (rows : List A) → HasKeys pk rows → HasKeys pk (put pk r rows)
  put-HasKeys r rows keyed = (
    find-put_self pk r rows,
    All-remove (λ x. find pk (pk x) rows ≡ some x) (λ x. find pk (pk x) (put pk r rows) ≡ some x) pk
        (pk r) rows (λ x here other. find-put_ne pk (pk x) r rows (ne_of pk x r other) ∙ here)
        keyed,
  )
    where
      ne_of : (key : A → ℕ) (x y : A) → (key x == key y) ≡ false → key x ≢ key y
      ne_of key x y h = ground arith

  -- Rows that are changed and keep their keys.
  pub find-map :
      (g : A → A) (k : ℕ) (rows : List A) {r : A}
      → ((x : A) → pk (g x) ≡ pk x)
      → find pk k rows ≡ some r
      → find pk k (map g rows) ≡ some (g r)
  find-map g k [] kept h = cc
  find-map g k (x ∷ rows) {r} kept h = elim (Bool-cases (pk x == k)) [
    | inl same ↦
        let here : x ≡ r = some_eq (rw same at h) in
        rw (kept x) (rw same (ap (λ y. some (g y)) here))
    | inr other ↦ rw (kept x) (rw other (find-map g k rows kept (rw other at h)))
  ]

  pub map-HasKeys :
      (g : A → A) (rows : List A)
      → ((x : A) → pk (g x) ≡ pk x)
      → HasKeys pk rows
      → HasKeys pk (map g rows)
  map-HasKeys g rows kept keyed =
      All-map (λ x. find pk (pk x) rows ≡ some x) (λ x. find pk (pk x) (map g rows) ≡ some x) g rows
        (λ x here.
          subst (λ k. find pk k (map g rows) ≡ some (g x)) (sym (kept x))
            (find-map g (pk x) rows kept here))
        keyed

-- ===== src/Transactions/Results.antt =====
-- What a run returns, statement by statement, once it is known what each statement finds.
use grad_sync.Prelude.{◌≡◌, refl, ap, Bool, true, false, Option, some}
use grad_sync.Transactions.{
  Result, ok, err, Action, check, atomic, ◌>>=◌, ◌>>◌, raise_if, modify, or_raise,
}

module _ {S E A B : Type 0} (db : S) where
  pub check-finds :
      (f : S → Result E A) (k : A → Action S E B) {a : A}
      → f db ≡ ok a
      → (check f >>= k) db ≡ k a db
  unfolding check ◌>>=◌
  check-finds f k {a} h =
      ap (λ r. elim r as (λ x. Result E B × S) [ ok a ↦ k a db | err e ↦ (err e, db) ]) h

  pub check-raises :
      (f : S → Result E A) (k : A → Action S E B) {e : E}
      → f db ≡ err e
      → (check f >>= k) db ≡ (err e, db)
  unfolding check ◌>>=◌
  check-raises f k {e} h =
      ap (λ r. elim r as (λ x. Result E B × S) [ ok a ↦ k a db | err e ↦ (err e, db) ]) h

  pub bind-runs :
      (m : Action S E A) (k : A → Action S E B) {a : A} {mid : S}
      → m db ≡ (ok a, mid)
      → (m >>= k) db ≡ k a mid
  unfolding ◌>>=◌
  bind-runs m k h =
      ap
        (λ (p : Result E A × S).
          let (r, mid) = p in
          elim r as (λ x. Result E B × S) [ ok a ↦ k a mid | err e ↦ (err e, mid) ])
        h

  pub bind-raises :
      (m : Action S E A) (k : A → Action S E B) {e : E} {mid : S}
      → m db ≡ (err e, mid)
      → (m >>= k) db ≡ (err e, mid)
  unfolding ◌>>=◌
  bind-raises m k h =
      ap
        (λ (p : Result E A × S).
          let (r, mid) = p in
          elim r as (λ x. Result E B × S) [ ok a ↦ k a mid | err e ↦ (err e, mid) ])
        h

module _ {S E B : Type 0} (db : S) where
  pub raise_if-passes :
      (c : Bool) (e : E) (k : Action S E B) → c ≡ false → (raise_if c e >> k) db ≡ k db
  unfolding raise_if ◌>>=◌
  raise_if-passes true e k h = cc
  raise_if-passes false e k h = refl

  pub raise_if-raises :
      (c : Bool) (e : E) (k : Action S E B) → c ≡ true → (raise_if c e >> k) db ≡ (err e, db)
  unfolding raise_if ◌>>=◌
  raise_if-raises true e k h = refl
  raise_if-raises false e k h = cc

  pub modify-runs : (f : S → S) (k : Action S E B) → (modify f >> k) db ≡ k (f db)
  unfolding modify ◌>>=◌
  modify-runs f k = refl

  pub atomic-runs :
      (m : Action S E B) {b : B} {db' : S} → m db ≡ (ok b, db') → atomic m db ≡ (ok b, db')
  unfolding atomic
  atomic-runs m h =
      ap
        (λ (p : Result E B × S).
          let (r, mid) = p in
          elim r as (λ x. Result E B × S) [ ok a ↦ (ok a, mid) | err e ↦ (err e, db) ])
        h

  pub atomic-raises :
      (m : Action S E B) {e : E} {mid : S} → m db ≡ (err e, mid) → atomic m db ≡ (err e, db)
  unfolding atomic
  atomic-raises m h =
      ap
        (λ (p : Result E B × S).
          let (r, mid) = p in
          elim r as (λ x. Result E B × S) [ ok a ↦ (ok a, mid) | err e ↦ (err e, db) ])
        h

-- A row that is there is not missed.
pub or_raise-finds :
    {E A : Type 0} (e : E) {o : Option A} {a : A} → o ≡ some a → or_raise e o ≡ ok a
or_raise-finds e h = ap (or_raise e) h

-- ===== src/Transactions/Runs.antt =====
-- What a run that ends with a result has done, statement by statement. Each rule hands what it finds
-- to the rest of the proof, which is the rule's last argument.
use grad_sync.Prelude.{
  ◌≡◌, refl, ap, sym, subst, Bool, true, false, Option, none, some, if◌then◌else◌,
}
use grad_sync.Transactions.{
  Result, ok, err, Action, pure, check, atomic, ◌>>=◌, ◌>>◌, raise_if, modify, or_raise,
}

module _ {S E A B : Type 0} (db : S) {db' : S} {b : B} {P : Type 0} where
  pub check_ok :
      (f : S → Result E A) (k : A → Action S E B)
      → (check f >>= k) db ≡ (ok b, db')
      → ((a : A) → f db ≡ ok a → k a db ≡ (ok b, db') → P)
      → P
  unfolding ◌>>=◌ check
  check_ok f k h rest = go (f db) refl h
    where
      go :
          (p : Result E A)
          → f db ≡ p
          → elim p [ ok a ↦ k a db | err e ↦ (err e, db) ] ≡ (ok b, db')
          → P
      go (ok a) e r = rest a e r
      go (err x) e r = cc

  pub bind_ok :
      (m : Action S E A) (k : A → Action S E B)
      → (m >>= k) db ≡ (ok b, db')
      → ((a : A) (mid : S) → m db ≡ (ok a, mid) → k a mid ≡ (ok b, db') → P)
      → P
  unfolding ◌>>=◌
  bind_ok m k h rest = go (m db) refl h
    where
      go :
          (p : Result E A × S)
          → m db ≡ p
          → (let (r, mid) = p in elim r [ ok a ↦ k a mid | err e ↦ (err e, mid) ]) ≡ (ok b, db')
          → P
      go (ok a, mid) e r = rest a mid e r
      go (err x, mid) e r = cc

module _ {S E B : Type 0} (db : S) {db' : S} {b : B} {P : Type 0} where
  pub raise_if_ok :
      (c : Bool) (e : E) (k : Action S E B)
      → (raise_if c e >> k) db ≡ (ok b, db')
      → (c ≡ false → k db ≡ (ok b, db') → P)
      → P
  unfolding ◌>>=◌ raise_if
  raise_if_ok true e k h rest = cc
  raise_if_ok false e k h rest = rest refl h

  pub modify_ok :
      (f : S → S) (k : Action S E B)
      → (modify f >> k) db ≡ (ok b, db')
      → (k (f db) ≡ (ok b, db') → P)
      → P
  unfolding ◌>>=◌ modify
  modify_ok f k h rest = rest h

pub atomic_ok :
    {S E B : Type 0} {db db' : S} {b : B} (m : Action S E B)
    → atomic m db ≡ (ok b, db')
    → m db ≡ (ok b, db')
unfolding atomic
atomic_ok {S} {E} {B} {db} {db'} {b} m h = go (m db) h
  where
    go :
        (p : Result E B × S)
        → ◌≡◌ {A = Result E B × S}
            (let (r, mid) = p in elim r [ ok a ↦ (ok a, mid) | err e ↦ (err e, db) ])
            (ok b, db')
        → p ≡ (ok b, db')
    go (ok a, mid) e = e
    go (err x, mid) e = cc

-- An exception inside `atomic` leaves the database as it was, so that what every result keeps is
-- kept.
pub atomic-keeps :
    {S E B : Type 0} (P : S → Type 0) (m : Action S E B) (db : S)
    → P db
    → ((b : B) (db' : S) → atomic m db ≡ (ok b, db') → P db')
    → P (atomic m db).1
unfolding atomic
atomic-keeps {S} {E} {B} P m db before kept = go (m db) refl
  where
    go :
        (p : Result E B × S)
        → m db ≡ p
        → P
            (let (r, mid) = p in
              elim r as (λ x. Result E B × S) [ ok a ↦ (ok a, mid) | err e ↦ (err e, db) ]).1
    go (ok a, mid) e = kept a mid (
        ap
          (λ (p : Result E B × S).
            let (r, mid) = p in
            elim r as (λ x. Result E B × S) [ ok a ↦ (ok a, mid) | err e ↦ (err e, db) ])
          e)
    go (err x, mid) e = before

-- At the end, what holds of the value returned and of the state holds of the result.
pub returns :
    {S E B : Type 0} {db db' : S} {b : B} (P : B → S → Type 0) (a : B)
    → pure {S = S} {E = E} a db ≡ (ok b, db')
    → P a db
    → P b db'
unfolding pure
returns {S} {E} {B} P a h p =
    subst (λ (r : Result E B × S). elim r.0 as (λ x. Type 0) [ ok x ↦ P x r.1 | err e ↦ Unit ]) h p

pub or_raise_ok : {E A : Type 0} (e : E) (o : Option A) {a : A} → or_raise e o ≡ ok a → o ≡ some a
or_raise_ok e none h = cc
or_raise_ok e (some x) h = cc

pub ok_eq : {E A : Type 0} {a b : A} → ◌≡◌ {A = Result E A} (ok a) (ok b) → a ≡ b
ok_eq h = cc

-- What passes a test.
pub ok_if :
    {E A : Type 0} (c : Bool) (e : E) {a b : A}
    → ◌≡◌ {A = Result E A} (if c then ok a else err e) (ok b)
    → (c ≡ true) × (a ≡ b)
ok_if true e h = (refl, cc)
ok_if false e h = cc

pub err_if :
    {E A : Type 0} (c : Bool) (e : E) {a b : A}
    → ◌≡◌ {A = Result E A} (if c then err e else ok a) (ok b)
    → (c ≡ false) × (a ≡ b)
err_if true e h = cc
err_if false e h = (refl, cc)

pub modify_done :
    {S E : Type 0} {db mid : S} {u : Unit {0}} (f : S → S)
    → ◌≡◌ {A = Result E (Unit {0}) × S} (modify f db) (ok u, mid)
    → f db ≡ mid
unfolding modify
modify_done {S} {E} {db} {mid} f h = ap (λ (r : Result E (Unit {0}) × S). r.1) h

pub check_done :
    {S E A : Type 0} {db mid : S} {a : A} (f : S → Result E A)
    → check f db ≡ (ok a, mid)
    → (f db ≡ ok a) × (db ≡ mid)
unfolding check
check_done {S} {E} {A} f h =
    (ap (λ (r : Result E A × S). r.0) h, ap (λ (r : Result E A × S). r.1) h)

-- What holds of the database after each of these statements and what follows them, whether that
-- raises or not.
module _ {S E A B : Type 0} (P : S → Type 0) (db : S) where
  pub check-keeps :
      (f : S → Result E A) (k : A → Action S E B)
      → P db
      → ((a : A) → f db ≡ ok a → P (k a db).1)
      → P ((check f >>= k) db).1
  unfolding check ◌>>=◌
  check-keeps f k before rest = go (f db) refl
    where
      go :
          (r : Result E A)
          → f db ≡ r
          → P (elim r as (λ x. Result E B × S) [ ok a ↦ k a db | err e ↦ (err e, db) ]).1
      go (ok a) e = rest a e
      go (err x) e = before

  -- A first part that writes nothing.
  pub bind-keeps :
      (m : Action S E A) (k : A → Action S E B)
      → (m db).1 ≡ db
      → P db
      → ((a : A) → P (k a db).1)
      → P ((m >>= k) db).1
  unfolding ◌>>=◌
  bind-keeps m k same before rest = go (m db) same
    where
      go :
          (r : Result E A × S)
          → r.1 ≡ db
          → P
              (let (x, mid) = r in
                elim x as (λ x. Result E B × S) [ ok a ↦ k a mid | err e ↦ (err e, mid) ]).1
      go (ok a, mid) e = subst (λ d. P (k a d).1) (sym e) (rest a)
      go (err x, mid) e = subst P (sym e) before

module _ {S E B : Type 0} (P : S → Type 0) (db : S) where
  pub raise_if-keeps :
      (c : Bool) (e : E) (k : Action S E B)
      → P db
      → (c ≡ false → P (k db).1)
      → P ((raise_if c e >> k) db).1
  unfolding raise_if ◌>>=◌
  raise_if-keeps true e k before rest = before
  raise_if-keeps false e k before rest = rest refl

  pub modify-keeps : (f : S → S) (k : Action S E B) → P (k (f db)).1 → P ((modify f >> k) db).1
  unfolding modify ◌>>=◌
  modify-keeps f k rest = rest

-- What the first part keeps, and the second.
pub then-keeps :
    {S E A B : Type 0} (P : S → Type 0) (db : S) (m : Action S E A) (k : A → Action S E B)
    → P (m db).1
    → ((a : A) (mid : S) → P mid → P (k a mid).1)
    → P ((m >>= k) db).1
unfolding ◌>>=◌
then-keeps {S} {E} {A} {B} P db m k first rest = go (m db) first
  where
    go :
        (r : Result E A × S)
        → P r.1
        → P
            (let (x, mid) = r in
              elim x as (λ x. Result E B × S) [ ok a ↦ k a mid | err e ↦ (err e, mid) ]).1
    go (ok a, mid) p = rest a mid p
    go (err x, mid) p = p

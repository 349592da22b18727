-- ===== src/Resources/Effects/Runs.antt =====
-- What a run that ends with a result has done, statement by statement. Each rule hands what it finds
-- to the rest of the proof, which is the rule's last argument.
use grad_sync.Prelude.{ℕ, suc, ◌≡◌, refl, subst, Bool, true, false, arith}
use grad_sync.Resources.State.{Error, Result, ok, err, Database}
use grad_sync.Resources.Effects.{
  Action, pure, check, atomic, ◌>>=◌, ◌>>◌, raise_if, modify, fresh_id,
}

module _ {A B : Type 0} (db : Database) {db' : Database} {b : B} {P : Type 0} where
  pub check_ok :
      (f : Database → Result A) (k : A → Action B)
      → (check f >>= k) db ≡ (ok b, db')
      → ((a : A) → f db ≡ ok a → k a db ≡ (ok b, db') → P)
      → P
  unfolding ◌>>=◌ check
  check_ok f k h rest = go (f db) refl h
    where
      go :
          (p : Result A)
          → f db ≡ p
          → elim p [ ok a ↦ k a db | err e ↦ (err e, db) ] ≡ (ok b, db')
          → P
      go (ok a) e r = rest a e r
      go (err x) e r = cc

  pub bind_ok :
      (m : Action A) (k : A → Action B)
      → (m >>= k) db ≡ (ok b, db')
      → ((a : A) (mid : Database) → m db ≡ (ok a, mid) → k a mid ≡ (ok b, db') → P)
      → P
  unfolding ◌>>=◌
  bind_ok m k h rest = go (m db) refl h
    where
      go :
          (p : Result A × Database)
          → m db ≡ p
          → (let (r, mid) = p in elim r [ ok a ↦ k a mid | err e ↦ (err e, mid) ]) ≡ (ok b, db')
          → P
      go (ok a, mid) e r = rest a mid e r
      go (err x, mid) e r = cc

module _ {B : Type 0} (db : Database) {db' : Database} {b : B} {P : Type 0} where
  pub raise_if_ok :
      (c : Bool) (e : Error) (k : Action B)
      → (raise_if c e >> k) db ≡ (ok b, db')
      → (c ≡ false → k db ≡ (ok b, db') → P)
      → P
  unfolding ◌>>=◌ raise_if
  raise_if_ok true e k h rest = cc
  raise_if_ok false e k h rest = rest refl h

  pub modify_ok :
      (f : Database → Database) (k : Action B)
      → (modify f >> k) db ≡ (ok b, db')
      → (k (f db) ≡ (ok b, db') → P)
      → P
  unfolding ◌>>=◌ modify
  modify_ok f k h rest = rest h

  pub fresh_id_ok :
      (k : ℕ → Action B)
      → (fresh_id >>= k) db ≡ (ok b, db')
      → (k db.next_id (record db { next_id = suc db.next_id }) ≡ (ok b, db') → P)
      → P
  unfolding ◌>>=◌ fresh_id
  fresh_id_ok k h rest = rest h

module _ {B : Type 0} (db : Database) {db' : Database} {b : B} where
  pub atomic_ok : (m : Action B) → atomic m db ≡ (ok b, db') → m db ≡ (ok b, db')
  unfolding atomic
  atomic_ok m h = ground arith

-- At the end, what holds of the value returned and of the state holds of the result.
pub returns :
    {B : Type 0} {db db' : Database} {b : B} (P : B → Database → Type 0) (a : B)
    → pure a db ≡ (ok b, db')
    → P a db
    → P b db'
unfolding pure
returns {B} P a h p =
    subst (λ (r : Result B × Database). elim r.0 [ ok x ↦ P x r.1 | err e ↦ Unit ]) h p

-- An exception inside `atomic` leaves the database as it was.
pub atomic_err :
    {A : Type 0} (m : Action A) {db db' : Database} {e : Error}
    → atomic m db ≡ (err e, db')
    → db' ≡ db
unfolding atomic
atomic_err m h = ground arith

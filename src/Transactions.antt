-- ===== src/Transactions.antt =====
-- Functions that read and write the database and may raise, as the services of the projects are:
-- `raise`, `transaction.atomic` and the steps between them, over any state and any type of errors.
-- The statements are shut; `Runs` says what a run of them that succeeds has done.
pub mod Runs
pub mod Results
use grad_sync.Prelude.{ℕ, Bool, Option, none, some, if◌then◌else◌}

pub data Result (E A : Type 0) : Type 0 where
  ok : A → Result E A
  err : E → Result E A

abbrev pub Action : Type 0 → Type 0 → Type 0 → Type 0
Action S E A = S → Result E A × S

module _ {S E A : Type 0} where
  unfoldable pub pure : A → Action S E A
  pure a db = (ok a, db)

  -- A step that reads, and may raise.
  unfoldable pub check : (S → Result E A) → Action S E A
  check f db = (f db, db)

  -- An exception takes back every write.
  unfoldable pub atomic : Action S E A → Action S E A
  atomic m db = let (r, db') = m db in elim r [ ok a ↦ (ok a, db') | err e ↦ (err e, db) ]

infixl 5 ◌>>=◌ ◌>>◌
unfoldable pub ◌>>=◌ : {S E A B : Type 0} → Action S E A → (A → Action S E B) → Action S E B
◌>>=◌ m f db = let (r, db') = m db in elim r [ ok a ↦ f a db' | err e ↦ (err e, db') ]

abbrev pub ◌>>◌ : {S E A B : Type 0} → Action S E A → Action S E B → Action S E B
m >> k = m >>= λ _. k

unfoldable pub raise_if : {S E : Type 0} → Bool → E → Action S E (Unit {0})
raise_if c e db = (if c then err e else ok tt, db)

unfoldable pub modify : {S E : Type 0} → (S → S) → Action S E (Unit {0})
modify f db = (ok tt, f db)

-- `.first()`, where none raises.
abbrev pub or_raise : {E A : Type 0} → E → Option A → Result E A
or_raise e none = err e
or_raise e (some a) = ok a

-- A test opens the statements by this name.
unfoldable pub statements : ℕ
unfolding pure check atomic ◌>>=◌ raise_if modify
statements = 0

-- ===== src/Resources/Effects.antt =====
-- The statements of a service method: reading and writing rows, `raise`, `record_event`,
-- `enqueue_notification` and `transaction.atomic`. They are shut; `Effects/Runs` says what a run of
-- them that succeeds has done.
pub mod Runs
use grad_sync.Prelude.{ℕ, suc, Bool, Option, none, some, List, [], ◌∷◌, ◌++◌, if◌then◌else◌}
use grad_sync.Resources.State.{
  Error, does_not_exist, Result, ok, err, EventType, EventTarget, Subject, Database,
}

abbrev pub Action : Type 0 → Type 0
Action A = Database → Result A × Database

module _ {A : Type 0} where
  unfoldable pub pure : A → Action A
  pure a db = (ok a, db)

  -- A step that reads, and may raise.
  unfoldable pub check : (Database → Result A) → Action A
  check f db = (f db, db)

  -- `Model.objects.get(pk=...)`
  abbrev pub or_missing : Option A → Result A
  or_missing none = err does_not_exist
  or_missing (some a) = ok a

  -- `with transaction.atomic()`: an exception takes back every write.
  unfoldable pub atomic : Action A → Action A
  atomic m db = let (r, db') = m db in elim r [ ok a ↦ (ok a, db') | err e ↦ (err e, db) ]

  -- `try: ... except ResourceConflict`: the outcome as a value.
  unfoldable pub attempt : Action A → Action (Result A)
  attempt m db = let (r, db') = m db in (ok r, db')

infixl 5 ◌>>=◌ ◌>>◌
unfoldable pub ◌>>=◌ : {A B : Type 0} → Action A → (A → Action B) → Action B
◌>>=◌ m f db = let (r, db') = m db in elim r [ ok a ↦ f a db' | err e ↦ (err e, db') ]

abbrev pub ◌>>◌ : {A B : Type 0} → Action A → Action B → Action B
m >> k = m >>= λ _. k

unfoldable pub raise_if : Bool → Error → Action (Unit {0})
raise_if c e db = (if c then err e else ok tt, db)

unfoldable pub modify : (Database → Database) → Action (Unit {0})
modify f db = (ok tt, f db)

-- The key that the database gives to a new row.
unfoldable pub fresh_id : Action ℕ
fresh_id db = (ok db.next_id, record db { next_id = suc db.next_id })

abbrev pub add_event : Option ℕ → Option ℕ → EventType → EventTarget → Database → Database
add_event project actor event_type target db = record db {
  events =
      db.events
      ++ record { project = project; actor = actor; event_type = event_type; target = target } ∷ [];
}

abbrev pub record_event : Option ℕ → Option ℕ → EventType → EventTarget → Action (Unit {0})
record_event project actor event_type target = modify (add_event project actor event_type target)

abbrev pub add_notification : ℕ → Option ℕ → EventTarget → Subject → Database → Database
add_notification recipient sender target subject db = record db {
  notifications =
      db.notifications
      ++ record { recipient = recipient; sender = sender; target = target; subject = subject } ∷ [];
}

-- `enqueue_notification`, by the row that it creates.
abbrev pub enqueue_notification : ℕ → Option ℕ → EventTarget → Subject → Action (Unit {0})
enqueue_notification recipient sender target subject =
    modify (add_notification recipient sender target subject)

abbrev pub add_notifications : List ℕ → Option ℕ → EventTarget → Subject → Database → Database
add_notifications [] sender about subject db = db
add_notifications (r ∷ rs) sender about subject db =
    add_notifications rs sender about subject (add_notification r sender about subject db)

-- `for recipient in recipients: enqueue_notification(...)`
abbrev pub notify_all : List ℕ → Option ℕ → EventTarget → Subject → Action (Unit {0})
notify_all recipients sender target subject =
    modify (add_notifications recipients sender target subject)

-- A test opens the statements by this name.
unfoldable pub statements : ℕ
unfolding pure check atomic attempt ◌>>=◌ raise_if modify fresh_id
statements = 0

-- ===== src/Database/Actions.antt =====
-- A call of the database: it reads and writes the state, and may fail.
-- Which calls the driver fails (a lost connection, a cancelled context) is the environment's
-- choice; the state comes back after an error too, and only a transaction undoes writes.
use tinder_like_back.Base.{ℕ, Bool, ◌||◌, not, if◌then◌else◌}
use tinder_like_back.Models.{Date, Text}
use tinder_like_back.Errors.{Stage, Error, internal, Result, ok, err}
use tinder_like_back.Database.Rows.{Db}

pub record Env : Type 0 where
  pub fails : Stage → Bool
  -- now(), the start of the statement's transaction, and CURRENT_DATE.
  pub now : ℕ
  pub today : Date
  -- lower(), by the collation of the database.
  pub lower : Text → Text

abbrev pub Action : Type 0 → Type 0
Action A = Db → Result A × Db

module _ {A : Type 0} where
  abbrev pub pure : A → Action A
  pure a db = (ok a, db)

  abbrev pub fail : Error → Action A
  fail e db = (err e, db)

-- An error ends the call that it happens in.
abbrev pub resume : {A B : Type 0} → (A → Action B) → Result A × Db → Result B × Db
resume f (ok a, db) = f a db
resume f (err e, db) = (err e, db)

infixl 5 ◌>>=◌ ◌>>◌
abbrev pub ◌>>=◌ : {A B : Type 0} → Action A → (A → Action B) → Action B
◌>>=◌ m f db = resume f (m db)

abbrev pub ◌>>◌ : {A B : Type 0} → Action A → Action B → Action B
m >> k = m >>= λ _. k

-- `if condition { return err }`
abbrev pub fail_if : Bool → Error → Action (Unit {0})
fail_if c e db = (if c then err e else ok tt, db)

-- A statement that reads.
abbrev pub query : Env → {A : Type 0} → Stage → (Db → A) → Action A
query env stage read db = (if env.fails stage then err (internal stage) else ok (read db), db)

-- A statement that writes. It fails too if the row that it would store breaks a constraint.
abbrev pub exec : Env → Stage → (Db → Bool) → (Db → Db) → Action (Unit {0})
exec env stage allowed write db =
    if env.fails stage || not (allowed db) then (err (internal stage), db) else (ok tt, write db)

-- Begin and commit change no row, and may fail.
abbrev pub control : Env → Stage → Action (Unit {0})
control env stage db = (if env.fails stage then err (internal stage) else ok tt, db)

-- `defer tx.Rollback(ctx)`: a transaction that is left with an error undoes its writes.
abbrev pub roll_back : {A : Type 0} → Db → Result A × Db → Result A × Db
roll_back before (ok a, after) = (ok a, after)
roll_back before (err e, after) = (err e, before)

abbrev pub transaction : {A : Type 0} → Action A → Action A
transaction body db = roll_back db (body db)

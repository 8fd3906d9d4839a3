-- ===== src/Migrations.antt =====
-- go-core/internal/platform/postgres/migrator.go: ApplyMigrations, over what the SQL of a file does.
pub mod Names
pub mod Runs
pub mod Ordered
pub mod Again
use tinder_like_back.Base.{
  ℕ, ◌-◌, Bool, true, false, not, ◌&&◌, ◌||◌, Option, none, some, List, [], ◌∷◌, any, drop, length,
  map, filter, ltb, ◌==◌, if◌then◌else◌,
}
use tinder_like_back.Models.{Text}
use tinder_like_back.Text.{text_eq, byte_len}

-- An entry of the embedded directory.
pub record Entry : Type 0 where
  pub name : Text
  pub is_dir : Bool

-- The calls that may fail by themselves.
pub data MigrationCall : Type 0 where
  begin_transaction lock_migrations create_table commit_migrations : MigrationCall
  check_migration read_migration record_migration : Text → MigrationCall

-- schema_migrations, newest row first, and the rest of the database.
pub record Schema (X : Type 0) : Type 0 where
  pub applied : List Text
  pub tables : X

-- ".sql"
abbrev pub sql_suffix : Text
sql_suffix = 46 ∷ 115 ∷ 113 ∷ 108 ∷ []

unfoldable pub is_migration : Entry → Bool
is_migration e =
    (not e.is_dir && ltb 4 (byte_len e.name))
    && text_eq (drop (length e.name - 4) e.name) sql_suffix

-- The order of strings.
unfoldable pub text_le : Text → Text → Bool
text_le [] t = true
text_le (c ∷ s) [] = false
text_le (c ∷ s) (d ∷ t) = ltb c d || (c == d && text_le s t)

unfoldable pub insert_name : Text → List Text → List Text
insert_name n [] = n ∷ []
insert_name n (m ∷ ms) = if text_le n m then n ∷ (m ∷ ms) else m ∷ insert_name n ms

-- sort.Strings
unfoldable pub sort_names : List Text → List Text
unfolding insert_name
sort_names [] = []
sort_names (n ∷ ns) = insert_name n (sort_names ns)

unfoldable pub migration_names : List Entry → List Text
migration_names entries = sort_names (map (λ e. e.name) (filter is_migration entries))

-- `exec` is what the SQL of the file of this name does, `none` if it fails.
module _ {X : Type 0} (fails : MigrationCall → Bool) (exec : Text → X → Option X) where
  abbrev pub recorded : Text → Schema X → Option X → Option (Schema X)
  recorded n s none = none
  recorded n s (some x) =
      if fails (MigrationCall.record_migration n)
      then none
      else some (record { applied = n ∷ s.applied; tables = x })

  -- The body of the loop.
  unfoldable pub apply_one : Text → Schema X → Option (Schema X)
  apply_one n s =
      if fails (MigrationCall.check_migration n)
      then none
      else if any (text_eq n) s.applied
      then some s
      else if fails (MigrationCall.read_migration n)
      then none
      else recorded n s (exec n s.tables)

  abbrev pub and_then : (Schema X → Option (Schema X)) → Option (Schema X) → Option (Schema X)
  and_then f none = none
  and_then f (some s) = f s

  unfoldable pub apply_all : List Text → Schema X → Option (Schema X)
  unfolding apply_one
  apply_all [] s = some s
  apply_all (n ∷ ns) s = and_then (apply_all ns) (apply_one n s)

  -- The end of the transaction: whether ApplyMigrations succeeds, and what it leaves.
  abbrev pub finish_migrations : Schema X → Option (Schema X) → Bool × Schema X
  finish_migrations before none = (false, before)
  finish_migrations before (some after) =
      if fails MigrationCall.commit_migrations then (false, before) else (true, after)

  unfoldable pub apply_migrations : List Entry → Schema X → Bool × Schema X
  apply_migrations entries s =
      if fails MigrationCall.begin_transaction
        || (fails MigrationCall.lock_migrations || fails MigrationCall.create_table)
      then (false, s)
      else finish_migrations s (apply_all (migration_names entries) s)

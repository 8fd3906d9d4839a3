-- ===== src/Migrations/Ordered.antt =====
-- A run of ApplyMigrations, and the order of the files.
use tinder_like_back.Base.{◌≡◌, Bool, true, false, Option, some, List, All}
use tinder_like_back.Base.Tables.{Unique}
use tinder_like_back.Models.{Text}
use tinder_like_back.Text.{text_eq}
use tinder_like_back.Migrations.{
  Entry, MigrationCall, Schema, sort_names, migration_names, apply_migrations,
}
use tinder_like_back.Migrations.Names.{
  Ascends, occurrences, listed_names, sort_names-Ascends, sort_names-same, sort_names-Unique,
}
use tinder_like_back.Migrations.Runs.{IsDone, exec_all, pending, Ran, apply_migrations-Ran}

module _ {X : Type 0} (fails : MigrationCall → Bool) (exec : Text → X → Option X) where
  -- How ApplyMigrations ends.
  abbrev pub Migrated : List Entry → Schema X → Bool × Schema X → Type 0
  Migrated entries s (false, after) = after ≡ s
  Migrated entries s (true, after) =
      (names : List Text) × Ascends names
      × ((n : Text) → occurrences n names ≡ occurrences n (listed_names entries))
      × (exec_all fails exec (pending fails exec s names) s.tables ≡ some after.tables)
      × All (IsDone fails exec after) names

  ordered :
      (entries : List Entry) (s : Schema X) (r : Bool × Schema X)
      → Unique text_eq (listed_names entries)
      → Ran fails exec entries s r
      → Migrated entries s r
  unfolding migration_names
  ordered entries s (false, after) u h = h
  ordered entries s (true, after) u (ran, done) = (
    sort_names (listed_names entries),
    sort_names-Ascends (listed_names entries) u,
    (λ n. sort_names-same n (listed_names entries)),
    ran,
    done,
  )

  -- If the names of the migrations are distinct, ApplyMigrations either fails and leaves the database
  -- as it was, or it has run the SQL of just those migrations of the directory that were not recorded,
  -- each once and in ascending order of their names, and every migration is recorded. The order is
  -- that of the first character that differs, and a beginning of a name comes before the name.
  pub apply_migrations-Migrated :
      (entries : List Entry) (s : Schema X)
      → Unique text_eq (listed_names entries)
      → Migrated entries s (apply_migrations fails exec entries s)
  unfolding migration_names
  apply_migrations-Migrated entries s u =
      ordered entries s _ u
        (apply_migrations-Ran fails exec entries s (sort_names-Unique (listed_names entries) u))

-- ===== src/Tests/Migrations.antt =====
-- The theorems on migrations, applied.
use tinder_like_back.Base.{◌≡◌, refl, Bool, true, false, Option, some, List, [], ◌∷◌}
use tinder_like_back.Models.{Text}
use tinder_like_back.Text.{byte_len, utf8_len}
use tinder_like_back.Migrations.{
  Entry, MigrationCall, Schema, is_migration, text_le, insert_name, sort_names, migration_names,
  apply_one, apply_all, apply_migrations,
}
use tinder_like_back.Migrations.Ordered.{Migrated, apply_migrations-Migrated}
use tinder_like_back.Migrations.Again.{apply_migrations-again}

-- "2.sql", "1.sql" and "embed.go"
abbrev pub folder : List Entry
folder =
    record { name = 50 ∷ 46 ∷ 115 ∷ 113 ∷ 108 ∷ []; is_dir = false }
    ∷ record { name = 49 ∷ 46 ∷ 115 ∷ 113 ∷ 108 ∷ []; is_dir = false }
    ∷ record { name = 101 ∷ 109 ∷ 98 ∷ 101 ∷ 100 ∷ 46 ∷ 103 ∷ 111 ∷ []; is_dir = false }
    ∷ []

abbrev pub steady : MigrationCall → Bool
steady c = false

-- The SQL of a file leaves its name.
abbrev pub mark : Text → List Text → Option (List Text)
mark n ns = some (n ∷ ns)

abbrev pub fresh : Schema (List Text)
fresh = record { applied = []; tables = [] }

abbrev pub migrated : Schema (List Text)
migrated = record {
  applied = (50 ∷ 46 ∷ 115 ∷ 113 ∷ 108 ∷ []) ∷ (49 ∷ 46 ∷ 115 ∷ 113 ∷ 108 ∷ []) ∷ [];
  tables = (50 ∷ 46 ∷ 115 ∷ 113 ∷ 108 ∷ []) ∷ (49 ∷ 46 ∷ 115 ∷ 113 ∷ 108 ∷ []) ∷ [];
}

apply_migrations-Migrated_example :
    Migrated steady mark folder fresh (apply_migrations steady mark folder fresh)
unfolding migration_names is_migration byte_len utf8_len sort_names insert_name text_le
apply_migrations-Migrated_example =
    apply_migrations-Migrated steady mark folder fresh (refl, (refl, tt))

apply_migrations-again_example : apply_migrations steady mark folder migrated ≡ (true, migrated)
unfolding migration_names is_migration byte_len utf8_len sort_names insert_name text_le apply_all
    apply_one apply_migrations
apply_migrations-again_example =
    apply_migrations-again steady mark mark folder fresh migrated (refl, (refl, tt)) refl

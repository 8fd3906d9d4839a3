-- ===== src/Migrations/Again.antt =====
-- A run after a run.
use tinder_like_back.Base.{
  subst, ◌≡◌, refl, Bool, true, false, ◌||◌, Option, some, List, [], ◌∷◌, All, arith, Option-cases,
  inl, inr,
}
use tinder_like_back.Base.Tables.{Unique}
use tinder_like_back.Models.{Text}
use tinder_like_back.Text.{text_eq}
use tinder_like_back.Migrations.{
  Entry, MigrationCall, Schema, apply_one, apply_all, migration_names, apply_migrations,
}
use tinder_like_back.Migrations.Runs.{IsDone, Ran, apply_migrations-Ran}

module _ {X : Type 0} (fails : MigrationCall → Bool) (exec exec_again : Text → X → Option X) where
  skips-All :
      (ns : List Text) (s : Schema X)
      → All (IsDone fails exec s) ns
      → apply_all fails exec_again ns s ≡ some s
  unfolding apply_all apply_one
  skips-All [] s d = refl
  skips-All (n ∷ ns) s d = ground (arith, d.0.0, d.0.1, skips-All ns s d.1)

  -- A second start finds nothing to do: after a run that succeeded, a run under the same conditions
  -- succeeds and changes nothing, whatever the SQL of the files would do.
  pub apply_migrations-again :
      (entries : List Entry) (s after : Schema X)
      → Unique text_eq (migration_names entries)
      → apply_migrations fails exec entries s ≡ (true, after)
      → apply_migrations fails exec_again entries after ≡ (true, after)
  unfolding apply_migrations
  apply_migrations-again entries s after u h =
      let ended =
        subst (Ran fails exec entries s) h (apply_migrations-Ran fails exec entries s u) in
      again ended.1 (elim (Option-cases (apply_all fails exec (migration_names entries) s)) [
        | inl bad ↦ absurd (ground (arith, bad))
        | inr (t, e) ↦ ground (arith, e)
      ])
    where
      again :
          All (IsDone fails exec after) (migration_names entries)
          → ((fails MigrationCall.begin_transaction
                || (fails MigrationCall.lock_migrations || fails MigrationCall.create_table))
              ≡ false)
            × (fails MigrationCall.commit_migrations ≡ false)
          → apply_migrations fails exec_again entries after ≡ (true, after)
      again done (open_calls, committed) =
          ground (arith, open_calls, committed, skips-All (migration_names entries) after done)

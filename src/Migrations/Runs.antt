-- ===== src/Migrations/Runs.antt =====
-- A run of ApplyMigrations.
use tinder_like_back.Base.{
  ◌≡◌, refl, Bool, true, false, not, ◌||◌, Option, none, some, List, [], ◌∷◌, any, filter, All,
  arith, Bool-cases, Option-cases, inl, inr,
}
use tinder_like_back.Base.Tables.{Unique}
use tinder_like_back.Models.{Text}
use tinder_like_back.Text.{text_eq}
use tinder_like_back.Migrations.Names.{text_eq-swap}
use tinder_like_back.Migrations.{
  Entry, MigrationCall, Schema, apply_one, apply_all, migration_names, finish_migrations,
  apply_migrations,
}

text_eq_self : (t : Text) → text_eq t t ≡ true
text_eq_self [] = refl
text_eq_self (c ∷ t) = ground (arith, text_eq_self t)

abbrev pub is_applied : {X : Type 0} → Schema X → Text → Bool
is_applied s n = any (text_eq n) s.applied

module _ {X : Type 0} (fails : MigrationCall → Bool) (exec : Text → X → Option X) where
  -- One round: the name is recorded, and what was recorded stays.
  one_applied :
      (n : Text) (s after : Schema X)
      → apply_one fails exec n s ≡ some after
      → is_applied after n ≡ true
  unfolding apply_one
  one_applied n s after h = elim (Option-cases (exec n s.tables)) [
    | inl bad ↦ ground (arith, bad)
    | inr (x, e) ↦ ground (arith, e, text_eq_self n)
  ]

  one_keeps :
      (n m : Text) (s after : Schema X)
      → apply_one fails exec n s ≡ some after
      → is_applied s m ≡ true
      → is_applied after m ≡ true
  unfolding apply_one
  one_keeps n m s after h k = elim (Option-cases (exec n s.tables)) [
    | inl bad ↦ ground (arith, bad)
    | inr (x, e) ↦ ground (arith, e)
  ]

  all_keeps :
      (ns : List Text) (m : Text) (s after : Schema X)
      → apply_all fails exec ns s ≡ some after
      → is_applied s m ≡ true
      → is_applied after m ≡ true
  unfolding apply_all
  all_keeps [] m s after h k = ground (arith, h)
  all_keeps (n ∷ ns) m s after h k = elim (Option-cases (apply_one fails exec n s)) [
    | inl bad ↦ ground (arith, bad)
    | inr (t, e) ↦ all_keeps ns m t after (ground (arith, e)) (one_keeps n m s t e k)
  ]

  -- What a run leaves: each name is recorded, and its check did not fail.
  abbrev pub IsDone : Schema X → Text → Type 0
  IsDone after n = (is_applied after n ≡ true) × (fails (MigrationCall.check_migration n) ≡ false)

  one_checked :
      (n : Text) (s after : Schema X)
      → apply_one fails exec n s ≡ some after
      → fails (MigrationCall.check_migration n) ≡ false
  unfolding apply_one
  one_checked n s after h = ground arith

  All-IsDone :
      (ns : List Text) (s after : Schema X)
      → apply_all fails exec ns s ≡ some after
      → All (IsDone after) ns
  unfolding apply_all
  All-IsDone [] s after h = tt
  All-IsDone (n ∷ ns) s after h = elim (Option-cases (apply_one fails exec n s)) [
    | inl bad ↦ absurd (ground (arith, bad))
    | inr (t, e) ↦
        let rest : apply_all fails exec ns t ≡ some after = ground (arith, e) in
        (
          (all_keeps ns n t after rest (one_applied n s t e), one_checked n s t e),
          All-IsDone ns t after rest,
        )
  ]

  -- The SQL of files, one after the other.
  abbrev pub exec_next : (X → Option X) → Option X → Option X
  exec_next f none = none
  exec_next f (some x) = f x

  unfoldable pub exec_all : List Text → X → Option X
  exec_all [] x = some x
  exec_all (n ∷ ns) x = exec_next (exec_all ns) (exec n x)

  abbrev pub pending : Schema X → List Text → List Text
  pending s = filter (λ n. not (is_applied s n))

  pending_other :
      (n : Text) (x : X) (s : Schema X) (ns : List Text)
      → any (text_eq n) ns ≡ false
      → pending (record { applied = n ∷ s.applied; tables = x }) ns ≡ pending s ns
  pending_other n x s [] h = refl
  pending_other n x s (m ∷ ms) h = ground (arith, text_eq-swap m n, pending_other n x s ms)

  one_executes :
      (n : Text) (s after : Schema X)
      → apply_one fails exec n s ≡ some after
      → is_applied s n ≡ false
      → (exec n s.tables ≡ some after.tables)
        × (after ≡ record { applied = n ∷ s.applied; tables = after.tables })
  unfolding apply_one
  one_executes n s after h k = elim (Option-cases (exec n s.tables)) [
    | inl bad ↦ absurd (ground (arith, bad))
    | inr (x, e) ↦ (ground (arith, e), ground (arith, e))
  ]

  one_skips :
      (n : Text) (s after : Schema X)
      → apply_one fails exec n s ≡ some after
      → is_applied s n ≡ true
      → after ≡ s
  unfolding apply_one
  one_skips n s after h k = ground arith

  all_executes :
      (ns : List Text) (s after : Schema X)
      → Unique text_eq ns
      → apply_all fails exec ns s ≡ some after
      → exec_all (pending s ns) s.tables ≡ some after.tables
  unfolding apply_all exec_all
  all_executes [] s after u h = ground (arith, h)
  all_executes (n ∷ ns) s after u h = elim (Option-cases (apply_one fails exec n s)) [
    | inl bad ↦ absurd (ground (arith, bad))
    | inr (t, e) ↦
        let rest = all_executes ns t after u.1 (ground (arith, e)) in
        elim (Bool-cases (is_applied s n)) [
          | inl old ↦ ground (arith, old, one_skips n s t e old, rest)
          | inr new ↦
              let (ran, row) = one_executes n s t e new in
              ground (arith, new, ran, row, pending_other n t.tables s ns u.0, rest)
        ]
  ]

  -- How ApplyMigrations ends.
  abbrev pub Ran : List Entry → Schema X → Bool × Schema X → Type 0
  Ran entries s (false, after) = after ≡ s
  Ran entries s (true, after) =
      (exec_all (pending s (migration_names entries)) s.tables ≡ some after.tables)
      × All (IsDone after) (migration_names entries)

  finish-Ran :
      (entries : List Entry) (s : Schema X) (r : Option (Schema X))
      → Unique text_eq (migration_names entries)
      → apply_all fails exec (migration_names entries) s ≡ r
      → Ran entries s (finish_migrations fails exec s r)
  finish-Ran entries s none u h = refl
  finish-Ran entries s (some after) u h =
      elim (Bool-cases (fails MigrationCall.commit_migrations)) [
        | inl bad ↦ rw bad refl
        | inr good ↦ rw good (
          all_executes (migration_names entries) s after u h,
          All-IsDone (migration_names entries) s after h,
        )
      ]

  -- The same with the list that the code makes of the names.
  pub apply_migrations-Ran :
      (entries : List Entry) (s : Schema X)
      → Unique text_eq (migration_names entries)
      → Ran entries s (apply_migrations fails exec entries s)
  unfolding apply_migrations
  apply_migrations-Ran entries s u =
      elim (Bool-cases (
        fails MigrationCall.begin_transaction
        || (fails MigrationCall.lock_migrations || fails MigrationCall.create_table))) [
          | inl bad ↦ rw bad refl
          | inr good ↦ rw good (finish-Ran entries s _ u refl)
        ]

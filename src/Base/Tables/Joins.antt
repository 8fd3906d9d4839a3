-- ===== src/Base/Tables/Joins.antt =====
-- Joins with at most one row for each row of a table, and with the same key.
use tinder_like_back.Base.Tests.{◌==◌, Option-cases}
use tinder_like_back.Base.Lists.{any, filter_map, All}
use tinder_like_back.Base.Tables.{after, Unique}
use tinder_like_back.Base.Tables.Sorting.{same_key}
use Prim.Native.Nat.{ℕ}
use mathlib.Core.Path.{◌≡◌, refl, sym, subst}
use mathlib.Core.Bool.{false}
use mathlib.Core.Option.{Option, some}
use mathlib.Core.List.{List, [], ◌∷◌}
use mathlib.Core.Logic.{inl, inr}
use native.Mathlib.Omega.{arith}

module _ {A B : Type 0} (join : A → Option B) (key : A → ℕ) (joined_key : B → ℕ)
    (same : (a : A) (b : B) → join a ≡ some b → joined_key b ≡ key a) where
  pub filter_map-All :
      (R : ℕ → Type 0) (xs : List A)
      → All (λ a. R (key a)) xs
      → All (λ b. R (joined_key b)) (filter_map join xs)
  filter_map-All R [] h = tt
  filter_map-All R (x ∷ xs) h = elim (Option-cases (join x)) [
    | inl alone ↦ rw alone (filter_map-All R xs h.1)
    | inr (b, e) ↦ rw e (subst R (sym (same x b e)) h.0, filter_map-All R xs h.1)
  ]

  any-filter_map :
      (k : ℕ) (xs : List A)
      → any (λ a. k == key a) xs ≡ false
      → any (λ b. k == joined_key b) (filter_map join xs) ≡ false
  any-filter_map k [] h = refl
  any-filter_map k (x ∷ xs) h = elim (Option-cases (join x)) [
    | inl alone ↦ rw alone (any-filter_map k xs (ground arith))
    | inr (b, e) ↦ rw e (ground (arith, same x b e, any-filter_map k xs))
  ]

  pub filter_map-Unique :
      (xs : List A) → Unique (same_key key) xs → Unique (same_key joined_key) (filter_map join xs)
  filter_map-Unique [] u = tt
  filter_map-Unique (x ∷ xs) u = elim (Option-cases (join x)) [
    | inl alone ↦ rw alone (filter_map-Unique xs u.1)
    | inr (b, e) ↦ rw e (
      any-filter_map (joined_key b) xs
          (subst (λ k. any (λ a. k == key a) xs ≡ false) (sym (same x b e)) u.0),
      filter_map-Unique xs u.1,
    )
  ]

  -- A cursor may be tested before the join or behind it.
  pub filter_map-after :
      (c : ℕ) (xs : List A)
      → filter_map join (after key c xs) ≡ after joined_key c (filter_map join xs)
  filter_map-after c [] = refl
  filter_map-after c (x ∷ xs) = elim (Option-cases (join x)) [
    | inl alone ↦ ground (arith, alone, filter_map-after c xs)
    | inr (b, e) ↦ ground (arith, e, same x b e, filter_map-after c xs)
  ]

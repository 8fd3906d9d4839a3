-- ===== src/Base/Tables.antt =====
-- ORDER BY and unique keys over the rows of a table.
pub mod Sorting
pub mod Joins
pub mod Maps
use tinder_like_back.Base.Tests.{ltb, leb, if◌then◌else◌}
use tinder_like_back.Base.Lists.{any, filter, any-filter-false}
use Prim.Native.Nat.{ℕ, ◌<◌}
use mathlib.Core.Path.{◌≡◌}
use mathlib.Core.Bool.{Bool, false}
use mathlib.Core.List.{List, [], ◌∷◌}
use native.Mathlib.Omega.{arith}

module _ {ℓ} {A : Type ℓ} (key : A → ℕ) where
  abbrev pub insert_sorted : A → List A → List A
  insert_sorted x [] = x ∷ []
  insert_sorted x (y ∷ ys) = if leb (key x) (key y) then x ∷ (y ∷ ys) else y ∷ insert_sorted x ys

  -- ORDER BY key ASC
  unfoldable pub order_by : List A → List A
  order_by [] = []
  order_by (x ∷ xs) = insert_sorted x (order_by xs)

  -- WHERE key > $cursor
  abbrev pub after : ℕ → List A → List A
  after c = filter (λ x. ltb c (key x))

  -- Strictly increasing keys above `lo`.
  abbrev pub SortedFrom : ℕ → List A → Type 0
  SortedFrom lo [] = Unit
  SortedFrom lo (x ∷ xs) = (lo < key x) × SortedFrom (key x) xs

module _ {ℓ} {A : Type ℓ} where
  -- UNIQUE: no two rows are the same by the test.
  abbrev pub Unique : (A → A → Bool) → List A → Type 0
  Unique same [] = Unit
  Unique same (x ∷ xs) = (any (same x) xs ≡ false) × Unique same xs

  pub Unique-filter :
      (same : A → A → Bool) (q : A → Bool) (xs : List A)
      → Unique same xs
      → Unique same (filter q xs)
  Unique-filter same q [] u = tt
  Unique-filter same q (x ∷ xs) u =
      ground (arith, Unique-filter same q xs u.1, any-filter-false (same x) q xs)

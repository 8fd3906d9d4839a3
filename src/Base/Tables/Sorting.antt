-- ===== src/Base/Tables/Sorting.antt =====
-- ORDER BY sorts, and a cursor may be applied before or after it.
use Prim.Native.Nat.{ℕ, ◌<◌}
use mathlib.Core.Path.{◌≡◌, refl, ◌∙◌}
use mathlib.Core.Bool.{Bool, false, ◌&&◌, ◌||◌}
use mathlib.Core.List.{List, [], ◌∷◌}
use native.Mathlib.Omega.{arith}
use tinder_like_back.Base.Tests.{ltb, ◌==◌, if◌then◌else◌}
use tinder_like_back.Base.Lists.{any, filter, All}
use tinder_like_back.Base.Tables.{insert_sorted, order_by, after, SortedFrom, Unique}

module _ {A : Type 0} (key : A → ℕ) where
  after-insert_sorted :
      (c : ℕ) (x : A) (ys : List A)
      → after key c (insert_sorted key x ys)
        ≡ (if ltb c (key x) then insert_sorted key x (after key c ys) else after key c ys)
  after-insert_sorted c x [] = ground arith
  after-insert_sorted c x (y ∷ ys) = ground (arith, after-insert_sorted c x ys)

  -- WHERE p AND key > c ORDER BY key
  pub order_by-after :
      (p : A → Bool) (c : ℕ) (xs : List A)
      → order_by key (filter (λ x. p x && ltb c (key x)) xs)
        ≡ after key c (order_by key (filter p xs))
  unfolding order_by
  order_by-after p c [] = refl
  order_by-after p c (x ∷ xs) =
      ground (arith, order_by-after p c xs, after-insert_sorted c x (order_by key (filter p xs)))

  any-insert_sorted :
      (p : A → Bool) (x : A) (ys : List A) → any p (insert_sorted key x ys) ≡ (p x || any p ys)
  any-insert_sorted p x [] = refl
  any-insert_sorted p x (y ∷ ys) = ground (arith, any-insert_sorted p x ys)

  any-order_by : (p : A → Bool) (xs : List A) → any p (order_by key xs) ≡ any p xs
  unfolding order_by
  any-order_by p [] = refl
  any-order_by p (x ∷ xs) =
      ground (arith, any-order_by p xs, any-insert_sorted p x (order_by key xs))

  insert_sorted-SortedFrom :
      (lo : ℕ) (x : A) (ys : List A)
      → lo < key x
      → any (λ y. key x == key y) ys ≡ false
      → SortedFrom key lo ys
      → SortedFrom key lo (insert_sorted key x ys)
  insert_sorted-SortedFrom lo x [] h n s = (h, tt)
  insert_sorted-SortedFrom lo x (y ∷ ys) h n s =
      ground (arith, insert_sorted-SortedFrom (key y) x ys)

  abbrev pub same_key : A → A → Bool
  same_key x y = key x == key y

  -- The rows of a table with a primary key come out strictly sorted.
  pub order_by-SortedFrom :
      (lo : ℕ) (xs : List A)
      → All (λ x. lo < key x) xs
      → Unique same_key xs
      → SortedFrom key lo (order_by key xs)
  unfolding order_by
  order_by-SortedFrom lo [] a u = tt
  order_by-SortedFrom lo (x ∷ xs) a u =
      insert_sorted-SortedFrom lo x (order_by key xs) a.0 (any-order_by (same_key x) xs ∙ u.0)
        (order_by-SortedFrom lo xs a.1 u.1)

  insert_sorted-All :
      (P : A → Type 0) (x : A) (ys : List A) → P x → All P ys → All P (insert_sorted key x ys)
  insert_sorted-All P x [] p a = (p, tt)
  insert_sorted-All P x (y ∷ ys) p a = ground (arith, insert_sorted-All P x ys p a.1)

  pub order_by-All : (P : A → Type 0) (xs : List A) → All P xs → All P (order_by key xs)
  unfolding order_by
  order_by-All P [] a = tt
  order_by-All P (x ∷ xs) a = insert_sorted-All P x (order_by key xs) a.0 (order_by-All P xs a.1)

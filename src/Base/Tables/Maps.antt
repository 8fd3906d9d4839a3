-- ===== src/Base/Tables/Maps.antt =====
-- Rows that are read into records with the same key.
use tinder_like_back.Base.Lists.{take, All}
use tinder_like_back.Base.Tables.{after, SortedFrom}
use Prim.Native.Nat.{ℕ, zero, suc, ◌<◌}
use mathlib.Core.Path.{◌≡◌, refl, sym, subst, ap}
use mathlib.Core.List.{List, [], ◌∷◌, map}
use native.Mathlib.Omega.{arith}

pub map-take :
    {A B : Type 0} (f : A → B) (n : ℕ) (xs : List A) → map f (take n xs) ≡ take n (map f xs)
map-take f zero xs = refl
map-take f (suc n) [] = refl
map-take f (suc n) (x ∷ xs) = ap (◌∷◌ (f x)) (map-take f n xs)

module _ {A B : Type 0} (f : A → B) (key : A → ℕ) (read_key : B → ℕ)
    (same : (a : A) → read_key (f a) ≡ key a) where
  pub map-after : (c : ℕ) (xs : List A) → map f (after key c xs) ≡ after read_key c (map f xs)
  map-after c [] = refl
  map-after c (x ∷ xs) = ground (arith, same x, map-after c xs)

  pub map-SortedFrom :
      (lo : ℕ) (xs : List A) → SortedFrom key lo xs → SortedFrom read_key lo (map f xs)
  map-SortedFrom lo [] s = tt
  map-SortedFrom lo (x ∷ xs) s = (
    subst (λ k. lo < k) (sym (same x)) s.0,
    subst (λ k. SortedFrom read_key k (map f xs)) (sym (same x)) (map-SortedFrom (key x) xs s.1),
  )

  pub map-All :
      (R : ℕ → Type 0) (xs : List A)
      → All (λ a. R (key a)) xs
      → All (λ b. R (read_key b)) (map f xs)
  map-All R [] h = tt
  map-All R (x ∷ xs) h = (subst R (sym (same x)) h.0, map-All R xs h.1)

-- ===== src/Text/Blank.antt =====
-- Blank texts, for Go's TrimSpace and for SQL's trim.
use mathlib.Core.List.{reverse, reverse-cons}
use tinder_like_back.Base.{
  ◌≡◌, refl, ◌∙◌, Bool, true, false, not, ◌||◌, ◌==◌, [], ◌∷◌, ◌++◌, any, arith, ℕ,
}
use tinder_like_back.Models.{Text}
use tinder_like_back.Text.{is_space, drop_space, trim_space, is_empty}

abbrev pub is_visible : ℕ → Bool
is_visible c = not (c == 32)

any-snoc : (s : Text) (c : ℕ) → any is_visible (s ++ c ∷ []) ≡ (any is_visible s || is_visible c)
any-snoc [] c = ground arith
any-snoc (d ∷ s) c = ground (arith, any-snoc s c)

any-reverse : (s : Text) → any is_visible (reverse s) ≡ any is_visible s
any-reverse [] = refl
any-reverse (c ∷ s) = rw (reverse-cons c s) (ground (arith, any-snoc (reverse s) c, any-reverse s))

drop_space-visible :
    (s : Text) → is_empty (drop_space s) ≡ false → any is_visible (drop_space s) ≡ true
unfolding drop_space is_space
drop_space-visible [] h = cc
drop_space-visible (c ∷ s) h = ground (arith, drop_space-visible s)

is_empty_of : (s : Text) → is_empty (reverse s) ≡ false → is_empty s ≡ false
is_empty_of [] h = h
is_empty_of (c ∷ s) h = refl

-- A trimmed text that is not empty passes CHECK (length(trim(…)) > 0), where SQL's trim takes spaces.
pub trim_space-visible :
    (s : Text) → is_empty (trim_space s) ≡ false → any is_visible (trim_space s) ≡ true
unfolding trim_space
trim_space-visible s h =
    any-reverse (drop_space (reverse (drop_space s)))
    ∙ drop_space-visible (reverse (drop_space s))
        (is_empty_of (drop_space (reverse (drop_space s))) h)

-- ===== src/Text/Cursor.antt =====
-- FormatInt and ParseInt.
use tinder_like_back.Base.{
  ℕ, zero, suc, ◌+◌, ◌-◌, ◌*◌, ◌/◌, ◌%◌, ◌^◌, ◌≤◌, ◌<◌, ◌≡◌, refl, ap, ◌∙◌, false, Option, none,
  some, [], ◌∷◌, ◌++◌, reverse, ltb, arith, Bool-cases, inl, inr,
}
use native.Mathlib.Nat.{pow-suc}
use mathlib.Core.List.{reverse-cons}
use tinder_like_back.Base.Int.{pos}
use tinder_like_back.Models.{Text}
use tinder_like_back.Text.{
  is_space, drop_space, trim_space, is_empty, is_digit, parse_digits, parse_int, format_digits,
  format_int,
}

abbrev push_digit : Option ℕ → ℕ → Option ℕ
push_digit none d = none
push_digit (some n) d = some (n * 10 + d)

parse_digits-snoc :
    (acc : ℕ) (s : Text) (d : ℕ)
    → d < 10
    → parse_digits acc (s ++ (b'0' + d) ∷ []) ≡ push_digit (parse_digits acc s) d
unfolding parse_digits is_digit
parse_digits-snoc acc [] d h = ground arith
parse_digits-snoc acc (c ∷ s) d h = ground (arith, parse_digits-snoc (acc * 10 + (c - b'0')) s d h)

parse_digits-format : (fuel n : ℕ) → n < 10 ^ fuel → parse_digits 0 (format_digits fuel n) ≡ some n
unfolding format_digits parse_digits is_digit
parse_digits-format zero n h = ground arith
parse_digits-format (suc fuel) n h = elim (Bool-cases (ltb n 10)) [
  | inl one ↦ rw one (ground arith)
  | inr more ↦ rw more (
      parse_digits-snoc 0 (format_digits fuel (n / 10)) (n % 10) (omega arith)
      ∙ ap (λ o. push_digit o (n % 10))
          (parse_digits-format fuel (n / 10) (omega (arith, pow-suc 10 fuel)))
      ∙ ground arith)
]

-- The first character is a digit.
abbrev IsNumber : Text → Type 0
IsNumber [] = ⊥
IsNumber (c ∷ s) = (48 ≤ c) × (c < 58)

IsNumber-not_empty : (s : Text) → IsNumber s → is_empty s ≡ false
IsNumber-not_empty [] h = absurd h
IsNumber-not_empty (c ∷ s) h = refl

IsNumber-append : (s t : Text) → IsNumber s → IsNumber (s ++ t)
IsNumber-append [] t h = absurd h
IsNumber-append (c ∷ s) t h = h

format_digits-IsNumber : (fuel n : ℕ) → IsNumber (format_digits (suc fuel) n)
unfolding format_digits
format_digits-IsNumber zero n = ground arith
format_digits-IsNumber (suc fuel) n = elim (Bool-cases (ltb n 10)) [
  | inl one ↦ rw one (ground arith)
  | inr more ↦
      rw more (
        IsNumber-append (format_digits (suc fuel) (n / 10)) _
          (format_digits-IsNumber fuel (n / 10)))
]

parse_int-IsNumber :
    (s : Text) {n : ℕ}
    → IsNumber s
    → parse_digits 0 s ≡ some n
    → n < 2 ^ 63
    → parse_int s ≡ some (pos n)
unfolding parse_int
parse_int-IsNumber [] h e b = absurd h
parse_int-IsNumber (c ∷ s) h e b = ground arith

-- Every int64 that is not negative is read back from its decimal digits.
pub parse_int-format_int : (n : ℕ) → n < 2 ^ 63 → parse_int (format_int n) ≡ some (pos n)
unfolding format_int
parse_int-format_int n h =
    parse_int-IsNumber (format_digits 19 n) (format_digits-IsNumber 18 n)
      (parse_digits-format 19 n (omega arith)) h

pub format_int-not_empty : (n : ℕ) → is_empty (format_int n) ≡ false
unfolding format_int
format_int-not_empty n = IsNumber-not_empty (format_digits 19 n) (format_digits-IsNumber 18 n)

-- A text whose first character is no space is not blank.
drop_space-snoc :
    (s : Text) (c : ℕ) → is_space c ≡ false → is_empty (drop_space (s ++ c ∷ [])) ≡ false
unfolding drop_space
drop_space-snoc [] c h = ground arith
drop_space-snoc (d ∷ s) c h = ground (arith, drop_space-snoc s c h)

is_empty-append : (s : Text) (c : ℕ) → is_empty (s ++ c ∷ []) ≡ false
is_empty-append [] c = refl
is_empty-append (d ∷ s) c = refl

digit_no_space : (c : ℕ) → 48 ≤ c → c < 58 → is_space c ≡ false
unfolding is_space
digit_no_space c h k = ground arith

is_empty-reverse : (s : Text) → is_empty s ≡ false → is_empty (reverse s) ≡ false
is_empty-reverse [] h = h
is_empty-reverse (c ∷ s) h = rw (reverse-cons c s) (is_empty-append (reverse s) c)

pub trim_space-not_empty :
    (c : ℕ) (s : Text) → is_space c ≡ false → is_empty (trim_space (c ∷ s)) ≡ false
unfolding trim_space
trim_space-not_empty c s h =
    is_empty-reverse (drop_space (reverse (drop_space (c ∷ s))))
      (rw (h, reverse-cons c s) (drop_space-snoc (reverse s) c h))

IsNumber-not_blank : (s : Text) → IsNumber s → is_empty (trim_space s) ≡ false
IsNumber-not_blank [] h = absurd h
IsNumber-not_blank (c ∷ s) h = trim_space-not_empty c s (digit_no_space c h.0 h.1)

-- So a printed number is no blank cursor.
pub format_int-not_blank : (n : ℕ) → is_empty (trim_space (format_int n)) ≡ false
unfolding format_int
format_int-not_blank n = IsNumber-not_blank _ (format_digits-IsNumber 18 n)

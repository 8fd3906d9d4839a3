-- ===== src/Text/Dates.antt =====
-- time.Parse with the layout 2006-01-02, AddDate, and the order of dates.
use tinder_like_back.Base.{
  ℕ, ◌+◌, ◌*◌, ◌-◌, ◌%◌, Bool, not, ◌&&◌, ◌||◌, Option, none, some, [], ◌∷◌, ltb, leb, ◌==◌,
  if◌then◌else◌,
}
use tinder_like_back.Models.{Text, Date}
use tinder_like_back.Text.{is_digit}

unfoldable pub is_leap : ℕ → Bool
is_leap y = y % 4 == 0 && (not (y % 100 == 0) || y % 400 == 0)

unfoldable pub days_in : ℕ → ℕ → ℕ
days_in y m =
    if m == 2
    then (if is_leap y then 29 else 28)
    else if m == 4 || m == 6 || m == 9 || m == 11
    then 30
    else 31

-- A month from 1 to 12 and a day that it has.
unfoldable pub valid_date : ℕ → ℕ → ℕ → Option Date
unfolding days_in
valid_date y m d =
    if (leb 1 m && leb m 12) && (leb 1 d && leb d (days_in y m))
    then some (record { year = y; month = m; day = d })
    else none

abbrev pub digit : ℕ → ℕ
digit c = c - 48

-- Four digits, a dash, two digits, a dash, two digits, and nothing else.
unfoldable pub parse_date : Text → Option Date
unfolding valid_date
parse_date (y₁ ∷ (y₂ ∷ (y₃ ∷ (y₄ ∷ (dash ∷ (m₁ ∷ (m₂ ∷ (dash₂ ∷ (d₁ ∷ (d₂ ∷ [])))))))))) =
    if ((is_digit y₁ && is_digit y₂) && (is_digit y₃ && is_digit y₄))
      && (((dash == 45) && (is_digit m₁ && is_digit m₂))
          && ((dash₂ == 45) && (is_digit d₁ && is_digit d₂)))
    then valid_date (((digit y₁ * 10 + digit y₂) * 10 + digit y₃) * 10 + digit y₄)
        (digit m₁ * 10 + digit m₂) (digit d₁ * 10 + digit d₂)
    else none
parse_date _ = none

-- After, of two dates at midnight; and of a date at midnight and an instant of the day `b`.
abbrev pub is_after : Date → Date → Bool
is_after a b =
    ltb b.year a.year
    || (a.year == b.year && (ltb b.month a.month || (a.month == b.month && ltb b.day a.day)))

-- AddDate(n, 0, 0): a 29 February that is not there is the 1 March.
unfoldable pub add_years : ℕ → Date → Date
unfolding is_leap
add_years n a = record {
  year = a.year + n;
  month = if (a.month == 2 && a.day == 29) && not (is_leap (a.year + n)) then 3 else a.month;
  day = if (a.month == 2 && a.day == 29) && not (is_leap (a.year + n)) then 1 else a.day;
}

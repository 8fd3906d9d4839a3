-- ===== src/Service/Profiles/Building.antt =====
-- What buildProfile lets pass.
use tinder_like_back.Base.{
  Bool-cases, inl, inr, ℕ, ◌≤◌, ◌≡◌, refl, true, false, ◌&&◌, ◌||◌, ◌==◌, Option, none, some, arith,
}
use tinder_like_back.Geo.{FloatOps, out_of_range}
use tinder_like_back.Models.{Float64, Date, Profile}
use tinder_like_back.Text.{trim_space, is_empty}
use tinder_like_back.Text.Blank.{trim_space-visible}
use tinder_like_back.Text.Dates.{parse_date, is_after, add_years}
use tinder_like_back.Errors.{ok}
use tinder_like_back.Database.{Db, user_exists}
use tinder_like_back.Repository.Discovery.{age_years}
use tinder_like_back.Repository.Profiles.{within, profile_allowed}
use tinder_like_back.Service.Profiles.{
  SaveProfileInput, past_birthday, together, outside, with_birthday, build_profile,
}

-- The eighteenth birthday is not to come, so the age that the feed computes is at least 18.
adult-age_years :
    (today birthday : Date)
    → is_after (add_years 18 birthday) today ≡ false
    → 18 ≤ age_years today birthday
unfolding add_years age_years
adult-age_years today birthday h = ground arith

-- A coordinate and a bound that one of the two comparisons of float64 decides: neither is NaN, which
-- a decoded JSON number never is.
abbrev pub IsComparable : FloatOps → Float64 → Float64 → Type 0
IsComparable fl x y =
    (fl.lt x y ≡ false → fl.le y x ≡ true) × (fl.lt y x ≡ false → fl.le x y ≡ true)

abbrev pub AreComparable : FloatOps → ℕ → Option Float64 → Type 0
AreComparable fl n none = Unit
AreComparable fl n (some x) = IsComparable fl x (fl.minus n) × IsComparable fl x (fl.literal n 0)

coordinates_within :
    (fl : FloatOps) (latitude longitude : Option Float64)
    → AreComparable fl 90 latitude
    → AreComparable fl 180 longitude
    → together latitude longitude ≡ true
    → outside fl latitude longitude ≡ false
    → (within fl 90 latitude && within fl 180 longitude) ≡ true
unfolding out_of_range
coordinates_within fl none none a b t o = refl
coordinates_within fl none (some y) a b t o = cc
coordinates_within fl (some x) none a b t o = cc
coordinates_within fl (some x) (some y) a b t o = ground (arith, a.0.0, a.1.1, b.0.0, b.1.1)

-- What every profile that Save writes satisfies.
abbrev pub IsValid : FloatOps → ℕ → Date → Db → Profile → Type 0
IsValid fl user today db p =
    (p.user_id ≡ user)
    × (profile_allowed fl p db ≡ true)
    × (18 ≤ age_years today p.birthday)
    × ((p.gender == 1 || p.gender == 2) ≡ true)
    × (together p.latitude p.longitude ≡ true)

with_birthday-IsValid :
    (fl : FloatOps) (user : ℕ) (input : SaveProfileInput) (today : Date) (found : Option Date)
    (p : Profile) (db : Db)
    → is_empty (trim_space input.full_name) ≡ false
    → with_birthday fl user input today found ≡ ok p
    → AreComparable fl 90 input.latitude
    → AreComparable fl 180 input.longitude
    → user_exists db user ≡ true
    → IsValid fl user today db p
unfolding with_birthday profile_allowed
with_birthday-IsValid fl user input today none p db n h a b known = cc
with_birthday-IsValid fl user input today (some birthday) p db n h a b known = ground (
  arith,
  adult-age_years today birthday,
  trim_space-visible input.full_name,
  coordinates_within fl input.latitude input.longitude a b,
)

-- A profile that buildProfile accepts, with coordinates that are no NaN, for an account that exists, is
-- the user's, passes every constraint of the table, is of an adult by the age that the feed computes,
-- has the gender 1 or 2, and has both coordinates or none.
pub build_profile-IsValid :
    (fl : FloatOps) (user : ℕ) (input : SaveProfileInput) (today : Date) (p : Profile) (db : Db)
    → build_profile fl user input today ≡ ok p
    → AreComparable fl 90 input.latitude
    → AreComparable fl 180 input.longitude
    → user_exists db user ≡ true
    → IsValid fl user today db p
unfolding build_profile
build_profile-IsValid fl user input today p db h a b known =
    elim (Bool-cases (is_empty (trim_space input.full_name))) [
      | inl blank ↦ absurd (ground arith)
      | inr named ↦
          with_birthday-IsValid fl user input today
            (past_birthday today (parse_date input.birthday)) p db named (ground arith) a b known
    ]

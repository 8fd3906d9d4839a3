-- ===== src/Tests/Profiles.antt =====
-- The theorems on profiles, applied.
use tinder_like_back.Base.{◌≡◌, refl, false, some, none, [], ◌∷◌}
use tinder_like_back.Base.Int.{pos}
use tinder_like_back.Models.{Profile}
use tinder_like_back.Text.{trim_space, is_space, is_digit}
use tinder_like_back.Errors.{ok}
use tinder_like_back.Text.Dates.{parse_date, valid_date, days_in, add_years, is_leap}
use tinder_like_back.Geo.{out_of_range}
use tinder_like_back.Database.{user_exists}
use tinder_like_back.Service.Preferences.{trimmed}
use tinder_like_back.Service.Profiles.{SaveProfileInput, with_birthday, build_profile}
use tinder_like_back.Service.Profiles.Building.{IsValid, build_profile-IsValid}
use tinder_like_back.Tests.{calm, town, whole}

-- " A", 2000-02-29, at 10 and 20 degrees.
abbrev pub form : SaveProfileInput
form = record {
  full_name = 32 ∷ 65 ∷ [];
  birthday = 50 ∷ 48 ∷ 48 ∷ 48 ∷ 45 ∷ 48 ∷ 50 ∷ 45 ∷ 50 ∷ 57 ∷ [];
  gender = pos 2;
  bio = [];
  latitude = some 10;
  longitude = some 20;
  city = none;
}

abbrev pub built : Profile
built = record {
  id = 0;
  user_id = 2;
  full_name = 65 ∷ [];
  birthday = record { year = 2000; month = 2; day = 29 };
  gender = 2;
  bio = [];
  latitude = some 10;
  longitude = some 20;
  city = none;
  is_active = false;
  last_activity_at = 0;
  created_at = 0;
  updated_at = 0;
}

form-built : build_profile whole 2 form calm.today ≡ ok built
unfolding build_profile with_birthday trim_space is_space trimmed parse_date valid_date days_in
    is_digit add_years is_leap out_of_range
form-built = refl

build_profile-IsValid_example : IsValid whole 2 calm.today town built
unfolding user_exists
build_profile-IsValid_example =
    build_profile-IsValid whole 2 form calm.today built town form-built
      (((λ h. refl), (λ h. cc)), ((λ h. cc), (λ h. refl)))
      (((λ h. refl), (λ h. cc)), ((λ h. cc), (λ h. refl))) refl

-- ===== src/Service/Profiles.antt =====
-- go-core/internal/service/profile.go: ProfileService over its store.
pub mod Building
pub mod Saving
use tinder_like_back.Base.{
  ℕ, Bool, true, false, not, ◌&&◌, ◌||◌, Option, none, some, is_some, if◌then◌else◌, ◌==◌,
}
use tinder_like_back.Base.Int.{ℤ, pos, pos_part, eqb_ℤ}
use tinder_like_back.Geo.{FloatOps, out_of_range}
use tinder_like_back.Models.{Text, Float64, Date, Profile}
use tinder_like_back.Text.{trim_space, is_empty}
use tinder_like_back.Text.Dates.{parse_date, is_after, add_years}
use tinder_like_back.Errors.{
  Result, ok, err, profile_name_required, invalid_profile_birthday, profile_owner_must_be_adult,
  invalid_profile_gender, coordinates_must_be_together, invalid_profile_coordinates,
}
use tinder_like_back.Database.{Env, Action, ◌>>=◌}
use tinder_like_back.Repository.Profiles
use tinder_like_back.Service.Chat.{returned}
use tinder_like_back.Service.Preferences.{trimmed}

pub record SaveProfileInput : Type 0 where
  pub full_name : Text
  pub birthday : Text
  pub gender : ℤ
  pub bio : Text
  pub latitude : Option Float64
  pub longitude : Option Float64
  pub city : Option Text

-- interface profileStore
pub record ProfileStore : Type 0 where
  pub get_by_user_id : ℕ → Action Profile
  pub upsert : Profile → Action Profile
  pub deactivate : ℕ → Action (Unit {0})

-- NewProfileService(profileRepository)
abbrev pub profile_repository : FloatOps → Env → ProfileStore
profile_repository fl env = record {
  get_by_user_id = Profiles.get_by_user_id env;
  upsert = Profiles.upsert fl env;
  deactivate = Profiles.deactivate_profile env;
}

-- A birthday that can be read, and is not to come.
abbrev pub past_birthday : Date → Option Date → Option Date
past_birthday today none = none
past_birthday today (some birthday) = if is_after birthday today then none else some birthday

-- Both coordinates are there, or none.
abbrev pub together : Option Float64 → Option Float64 → Bool
together (some latitude) (some longitude) = true
together none none = true
together (some latitude) none = false
together none (some longitude) = false

abbrev pub outside : FloatOps → Option Float64 → Option Float64 → Bool
outside fl (some latitude) (some longitude) = out_of_range fl latitude longitude
outside fl (some latitude) none = false
outside fl none longitude = false

-- The tests of buildProfile behind the birthday, and the profile. Its id and times are zero until the
-- database sets them.
unfoldable pub with_birthday : FloatOps → ℕ → SaveProfileInput → Date → Option Date → Result Profile
with_birthday fl user input today none = err invalid_profile_birthday
with_birthday fl user input today (some birthday) =
    if is_after (add_years 18 birthday) today
    then err profile_owner_must_be_adult
    else if not (eqb_ℤ input.gender (pos 1)) && not (eqb_ℤ input.gender (pos 2))
    then err invalid_profile_gender
    else if not (together input.latitude input.longitude)
    then err coordinates_must_be_together
    else if outside fl input.latitude input.longitude
    then err invalid_profile_coordinates
    else ok (record {
      id = 0;
      user_id = user;
      full_name = trim_space input.full_name;
      birthday = birthday;
      gender = pos_part input.gender;
      bio = trim_space input.bio;
      latitude = input.latitude;
      longitude = input.longitude;
      city = trimmed input.city;
      is_active = false;
      last_activity_at = 0;
      created_at = 0;
      updated_at = 0;
    })

-- `today` is the UTC date of the service's clock: a birthday is a midnight, so only the date bears
-- on the comparisons with the instant.
unfoldable pub build_profile : FloatOps → ℕ → SaveProfileInput → Date → Result Profile
unfolding with_birthday
build_profile fl user input today =
    if is_empty (trim_space input.full_name)
    then err profile_name_required
    else with_birthday fl user input today (past_birthday today (parse_date input.birthday))

module _ (fl : FloatOps) (store : ProfileStore) where
  unfoldable pub get : ℕ → Action Profile
  get user = store.get_by_user_id user

  unfoldable pub save : Date → ℕ → SaveProfileInput → Action Profile
  unfolding build_profile
  save today user input = do
    profile ← returned (build_profile fl user input today)
    store.upsert profile

  unfoldable pub deactivate : ℕ → Action (Unit {0})
  deactivate user = store.deactivate user

-- ===== src/Service/Preferences.antt =====
-- go-core/internal/service/ribbon.go: GetPreferences and SavePreferences.
pub mod Saved
use tinder_like_back.Base.{
  ℕ, Bool, true, false, not, ◌||◌, Option, none, some, leb, ltb, ◌==◌, if◌then◌else◌,
}
use tinder_like_back.Base.Int.{ℤ, pos, pos_part, eqb_ℤ, ltb_ℤ, leb_ℤ}
use tinder_like_back.Models.{Text, DiscoveryPreferences}
use tinder_like_back.Text.{trim_space, is_empty}
use tinder_like_back.Errors.{
  Result, ok, err, invalid_discovery_age, invalid_discovery_gender, invalid_discovery_distance,
}
use tinder_like_back.Database.{Env, Action, pure, fail, ◌>>=◌}
use tinder_like_back.Repository.Discovery
use tinder_like_back.Service.Chat.{returned}

pub record SavePreferencesInput : Type 0 where
  pub city : Option Text
  pub min_age : ℤ
  pub max_age : ℤ
  pub gender : Option ℤ
  pub is_verified : Bool
  pub max_distance_km : ℤ

abbrev pub gender_valid : Option ℤ → Bool
gender_valid none = true
gender_valid (some g) = eqb_ℤ g (pos 1) || eqb_ℤ g (pos 2)

abbrev pub gender_number : Option ℤ → Option ℕ
gender_number none = none
gender_number (some g) = some (pos_part g)

-- A blank city is no city.
unfoldable pub trimmed : Option Text → Option Text
trimmed none = none
trimmed (some raw) = let value = trim_space raw in if is_empty value then none else some value

-- UpdatedAt is the zero time until the database sets it.
unfoldable pub build_preferences : ℕ → SavePreferencesInput → Result DiscoveryPreferences
build_preferences user input =
    if (ltb_ℤ input.min_age (pos 18) || ltb_ℤ input.max_age input.min_age)
      || ltb_ℤ (pos 99) input.max_age
    then err invalid_discovery_age
    else if not (gender_valid input.gender)
    then err invalid_discovery_gender
    else if leb_ℤ input.max_distance_km (pos 0) || ltb_ℤ (pos 1000) input.max_distance_km
    then err invalid_discovery_distance
    else ok (record {
      user_id = user;
      city = trimmed input.city;
      min_age = pos_part input.min_age;
      max_age = pos_part input.max_age;
      gender = gender_number input.gender;
      is_verified = input.is_verified;
      max_distance_km = pos_part input.max_distance_km;
      updated_at = 0;
    })

-- ribbonStore's part for the preferences.
pub record PreferencesStore : Type 0 where
  pub get_filters : ℕ → Action DiscoveryPreferences
  pub upsert_filters : DiscoveryPreferences → Action DiscoveryPreferences

abbrev pub preferences_repository : Env → PreferencesStore
preferences_repository env = record {
  get_filters = Discovery.get_filters env;
  upsert_filters = Discovery.upsert_filters env;
}

module _ (store : PreferencesStore) where
  unfoldable pub get_preferences : ℕ → Action DiscoveryPreferences
  get_preferences user = store.get_filters user

  unfoldable pub save_preferences : ℕ → SavePreferencesInput → Action DiscoveryPreferences
  unfolding build_preferences
  save_preferences user input = do
    preferences ← returned (build_preferences user input)
    store.upsert_filters preferences

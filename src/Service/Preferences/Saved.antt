-- ===== src/Service/Preferences/Saved.antt =====
-- What SavePreferences stores.
use tinder_like_back.Base.{
  ℕ, ◌<◌, ◌≤◌, ◌≡◌, refl, Bool, true, false, not, ◌⊎◌, inl, inr, filter, ◌&&◌, ◌||◌, Option, none,
  some, List, [], ◌∷◌, find?, leb, ltb, ◌==◌, arith,
}
use tinder_like_back.Base.Int.{ℤ, pos, negsuc, pos_part, ltb_ℤ, leb_ℤ}
use tinder_like_back.Models.{Text, DiscoveryPreferences}
use tinder_like_back.Text.{trim_space, is_empty}
use tinder_like_back.Errors.{Stage, Result, ok, err}
use tinder_like_back.Database.{Db, Env, user_exists}
use tinder_like_back.Repository.Discovery.{
  gender_allowed, preferences_allowed, put_preferences, find_preferences, saved_preferences,
  upsert_filters, get_filters,
}
use tinder_like_back.Service.Preferences.{
  SavePreferencesInput, gender_valid, gender_number, trimmed, build_preferences,
  preferences_repository, get_preferences, save_preferences,
}

gender_valid-allowed :
    (g : Option ℤ) → gender_valid g ≡ true → gender_allowed (gender_number g) ≡ true
gender_valid-allowed none h = refl
gender_valid-allowed (some (pos g)) h = ground arith
gender_valid-allowed (some (negsuc g)) h = absurd (ground arith)

range_allowed :
    (low high distance : ℤ)
    → ((ltb_ℤ low (pos 18) || ltb_ℤ high low) || ltb_ℤ (pos 99) high) ≡ false
    → (leb_ℤ distance (pos 0) || ltb_ℤ (pos 1000) distance) ≡ false
    → (((leb 18 (pos_part low) && leb (pos_part low) (pos_part high)) && leb (pos_part high) 99)
        && (ltb 0 (pos_part distance) && leb (pos_part distance) 1000))
      ≡ true
range_allowed (pos a) (pos b) (pos c) h k = ground arith
range_allowed (negsuc a) b c h k = absurd (ground arith)
range_allowed (pos a) (negsuc b) c h k = absurd (ground arith)
range_allowed (pos a) (pos b) (negsuc c) h k = absurd (ground arith)

-- What the service accepts breaks no constraint of the table.
build_preferences-allowed :
    (user : ℕ) (input : SavePreferencesInput) (f : DiscoveryPreferences) (db : Db)
    → build_preferences user input ≡ ok f
    → user_exists db user ≡ true
    → (f.user_id ≡ user) × (preferences_allowed f db ≡ true)
unfolding build_preferences preferences_allowed
build_preferences-allowed user input f db h known = ground (
  arith,
  range_allowed input.min_age input.max_age input.max_distance_km,
  gender_valid-allowed input.gender,
)

-- The row that ON CONFLICT DO UPDATE leaves is the one that is read.
find-put_preferences :
    (f : DiscoveryPreferences) (gs : List DiscoveryPreferences)
    → find? (λ g. g.user_id == f.user_id) (put_preferences f gs) ≡ some f
unfolding put_preferences
find-put_preferences f [] = ground arith
find-put_preferences f (g ∷ gs) = ground (arith, find-put_preferences f gs)

-- The genders that a filter may ask for.
abbrev pub IsGender : Option ℕ → Type 0
IsGender g = (g ≡ none) ⊎ ((g ≡ some 1) ⊎ (g ≡ some 2))

abbrev pub signed : Option ℕ → Option ℤ
signed none = none
signed (some g) = some (pos g)

-- The city without blanks around it, and none if nothing else is in it.
abbrev pub IsCity : Option Text → Option Text → Type 0
IsCity none city = city ≡ none
IsCity (some raw) city =
    (is_empty (trim_space raw) ≡ true → city ≡ none)
    × (is_empty (trim_space raw) ≡ false → city ≡ some (trim_space raw))

-- Everything that was asked for.
abbrev pub IsAsked : ℕ → ℕ → SavePreferencesInput → DiscoveryPreferences → Type 0
IsAsked user now input f =
    (f.user_id ≡ user)
    × IsCity input.city f.city
    × (pos f.min_age ≡ input.min_age)
    × (pos f.max_age ≡ input.max_age)
    × (signed f.gender ≡ input.gender)
    × (f.is_verified ≡ input.is_verified)
    × (pos f.max_distance_km ≡ input.max_distance_km)
    × (f.updated_at ≡ now)

abbrev pub others_of : ℕ → Db → List DiscoveryPreferences
others_of user db = filter (λ f. not (f.user_id == user)) db.preferences

abbrev pub Saves : Env → ℕ → SavePreferencesInput → Db → Result DiscoveryPreferences × Db → Type 0
Saves env user input db (ok f, after) =
    IsAsked user env.now input f
    × (get_preferences (preferences_repository env) user after ≡ (ok f, after))
    × (others_of user after ≡ others_of user db)
    × (after ≡ record db { preferences = after.preferences })
Saves env user input db (err e, after) = ⊥

trimmed-IsCity : (city : Option Text) → IsCity city (trimmed city)
unfolding trimmed
trimmed-IsCity none = refl
trimmed-IsCity (some raw) = ((λ h. rw h refl), (λ h. rw h refl))

genders : (g : Option ℕ) → IsGender g → gender_valid (signed g) ≡ true
genders none h = refl
genders (some g) (inl e) = absurd cc
genders (some g) (inr (inl e)) = ground arith
genders (some g) (inr (inr e)) = ground arith

gender_number-signed : (g : Option ℕ) → gender_number (signed g) ≡ g
gender_number-signed none = refl
gender_number-signed (some g) = refl

others-put :
    (f : DiscoveryPreferences) (gs : List DiscoveryPreferences)
    → filter (λ g. not (g.user_id == f.user_id)) (put_preferences f gs)
      ≡ filter (λ g. not (g.user_id == f.user_id)) gs
unfolding put_preferences
others-put f [] = ground arith
others-put f (g ∷ gs) = ground (arith, others-put f gs)

put_and_read :
    (env : Env) (f : DiscoveryPreferences) (db : Db)
    → find_preferences
        (record db { preferences = put_preferences (saved_preferences env f) db.preferences })
        f.user_id
      ≡ some (saved_preferences env f)
unfolding find_preferences
put_and_read env f db = find-put_preferences (saved_preferences env f) db.preferences

-- The request that these values make.
abbrev pub asked : Option Text → ℕ → ℕ → Option ℕ → Bool → ℕ → SavePreferencesInput
asked city low high gender verified distance = record {
  city = city;
  min_age = pos low;
  max_age = pos high;
  gender = signed gender;
  is_verified = verified;
  max_distance_km = pos distance;
}

abbrev pub built : ℕ → Option Text → ℕ → ℕ → Option ℕ → Bool → ℕ → DiscoveryPreferences
built user city low high gender verified distance = record {
  user_id = user;
  city = trimmed city;
  min_age = low;
  max_age = high;
  gender = gender;
  is_verified = verified;
  max_distance_km = distance;
  updated_at = 0;
}

build_asked :
    (user : ℕ) (city : Option Text) (low high : ℕ) (gender : Option ℕ) (verified : Bool)
    (distance : ℕ)
    → 18 ≤ low
    → low ≤ high
    → high ≤ 99
    → IsGender gender
    → 0 < distance
    → distance ≤ 1000
    → build_preferences user (asked city low high gender verified distance)
      ≡ ok (built user city low high gender verified distance)
unfolding build_preferences
build_asked user city low high gender verified distance h1 h2 h3 h4 h5 h6 =
    ground (arith, genders gender h4, gender_number-signed gender)

-- If the ages are between 18 and 99 and in order, the gender is none, 1 or 2, the distance is from 1
-- to 1000, the user exists and no statement fails, SavePreferences succeeds: it returns every value
-- that it was given, the city trimmed and none if it is blank, with the time of the call;
-- GetPreferences reads the same from then on; the preferences of the other users are as they were,
-- and so is every other table.
pub save_preferences-Saves :
    (env : Env) (user : ℕ) (city : Option Text) (low high : ℕ) (gender : Option ℕ) (verified : Bool)
    (distance : ℕ) (db : Db)
    → 18 ≤ low
    → low ≤ high
    → high ≤ 99
    → IsGender gender
    → 0 < distance
    → distance ≤ 1000
    → user_exists db user ≡ true
    → env.fails Stage.upsert_discovery_preferences ≡ false
    → env.fails Stage.get_discovery_preferences ≡ false
    → Saves env user (asked city low high gender verified distance) db (
        save_preferences
          (preferences_repository env)
          user
          (asked city low high gender verified distance)
          db)
unfolding save_preferences upsert_filters get_preferences get_filters
save_preferences-Saves env user city low high gender verified distance db h1 h2 h3 h4 h5 h6 known f1
      f2 =
    let f = built user city low high gender verified distance in
    let accepted = build_asked user city low high gender verified distance h1 h2 h3 h4 h5 h6 in
    let (own, allowed) =
      build_preferences-allowed user (asked city low high gender verified distance) f db accepted
        known in
    rw (accepted, f1, allowed)
      (
        (refl, trimmed-IsCity city, refl, refl, refl, refl, refl, refl),
        ground (arith, own, put_and_read env f db),
        others-put (saved_preferences env f) db.preferences,
        refl,
      )

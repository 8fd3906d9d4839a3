-- ===== src/Repository/Profiles.antt =====
-- go-core/internal/repository/profile_repository.go.
use tinder_like_back.Base.{
  ℕ, suc, Bool, true, false, not, ◌&&◌, Option, none, some, List, [], ◌∷◌, any, map, ◌==◌, find?,
  if◌then◌else◌,
}
use tinder_like_back.Geo.{FloatOps}
use tinder_like_back.Models.{Float64, Profile}
use tinder_like_back.Errors.{Stage, profile_not_found}
use tinder_like_back.Database.{
  Db, Env, Action, user_exists, pure, fail, ◌>>=◌, ◌>>◌, query, exec, fail_if,
}

abbrev pub scan_profile : Option Profile → Action Profile
scan_profile none = fail profile_not_found
scan_profile (some p) = pure p

unfoldable pub profile_of : Db → ℕ → Option Profile
profile_of db user = find? (λ p. p.user_id == user) db.profiles

unfoldable pub get_by_user_id : Env → ℕ → Action Profile
get_by_user_id env user = do
  found ← query env Stage.get_profile (λ db. profile_of db user)
  scan_profile found

-- The CHECKs of profiles, and its foreign key; a NULL passes.
abbrev pub within : FloatOps → ℕ → Option Float64 → Bool
within fl n none = true
within fl n (some x) = fl.le (fl.minus n) x && fl.le x (fl.literal n 0)

unfoldable pub profile_allowed : FloatOps → Profile → Db → Bool
profile_allowed fl p db =
    (any (λ c. not (c == 32)) p.full_name && user_exists db p.user_id)
    && (within fl 90 p.latitude && within fl 180 p.longitude)

-- The row that Upsert stores, with what it keeps of an old row or draws from the sequence.
abbrev pub stored_profile : Env → ℕ → ℕ → Profile → Profile
stored_profile env id created_at p = record {
  id = id;
  user_id = p.user_id;
  full_name = p.full_name;
  birthday = p.birthday;
  gender = p.gender;
  bio = p.bio;
  latitude = p.latitude;
  longitude = p.longitude;
  city = p.city;
  is_active = true;
  last_activity_at = env.now;
  created_at = created_at;
  updated_at = env.now;
}

-- INSERT … ON CONFLICT (user_id) DO UPDATE SET …
unfoldable pub put_profile : Env → ℕ → Profile → List Profile → List Profile
put_profile env next p [] = stored_profile env next env.now p ∷ []
put_profile env next p (q ∷ qs) =
    if q.user_id == p.user_id
    then stored_profile env q.id q.created_at p ∷ qs
    else q ∷ put_profile env next p qs

-- RETURNING reads the row of the user.
unfoldable pub upsert : FloatOps → Env → Profile → Action Profile
unfolding put_profile
upsert fl env p = do
  exec env Stage.upsert_profile (profile_allowed fl p) (λ db. record db {
    profiles = put_profile env db.next_profile_id p db.profiles;
    next_profile_id = suc db.next_profile_id;
  })
  found ← (λ db. pure (profile_of db p.user_id) db)
  scan_profile found

abbrev pub is_shown_profile : ℕ → Profile → Bool
is_shown_profile user p = p.user_id == user && p.is_active

-- UPDATE profiles SET is_active = FALSE, updated_at = now() WHERE user_id = $1 AND is_active = TRUE
unfoldable pub hide_profile : Env → ℕ → Profile → Profile
hide_profile env user p =
    if is_shown_profile user p then record p { is_active = false; updated_at = env.now } else p

-- RowsAffected() == 0 is an error.
unfoldable pub deactivate_profile : Env → ℕ → Action (Unit {0})
unfolding hide_profile
deactivate_profile env user = do
  found ← query env Stage.deactivate_profile (λ db. any (is_shown_profile user) db.profiles)
  (λ db. pure tt (record db { profiles = map (hide_profile env user) db.profiles }))
  fail_if (not found) profile_not_found

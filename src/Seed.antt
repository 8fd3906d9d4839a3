-- ===== src/Seed.antt =====
-- go-core/internal/seed/seed.go: the data for local development.
pub mod People
pub mod Loaded
pub mod Loop
pub mod Complete
pub mod Again
pub mod Twice
use tinder_like_back.Base.{
  ℕ, suc, Bool, true, false, not, ◌&&◌, ◌||◌, ◌==◌, Option, none, some, List, [], ◌∷◌, find?, any,
  if◌then◌else◌,
}
use tinder_like_back.Geo.{FloatOps}
use tinder_like_back.Models.{Text, Float64, Date, User, Profile, DiscoveryPreferences}
use tinder_like_back.Text.{text_eq}
use tinder_like_back.Errors.{Stage, Error, Result, ok, err, internal}
use tinder_like_back.Database.{
  Db, Env, Action, pure, fail, ◌>>=◌, ◌>>◌, fail_if, query, exec, control, transaction,
}
use tinder_like_back.Seed.People.{Account, accounts, demo_email, alina_email}
use tinder_like_back.Repository.Users.{email_taken}
use tinder_like_back.Repository.Ribbon.{insert_swipe, pair_allowed}
use tinder_like_back.Repository.Profiles.{profile_allowed, put_profile}
use tinder_like_back.Repository.Discovery.{preferences_allowed}

-- "Тестовый профиль для разработки ленты"
abbrev seed_bio : Text
seed_bio =
    1058 ∷ 1077 ∷ 1089 ∷ 1090 ∷ 1086 ∷ 1074 ∷ 1099 ∷ 1081 ∷ 32 ∷ 1087 ∷ 1088 ∷ 1086 ∷ 1092 ∷ 1080
    ∷ 1083 ∷ 1100 ∷ 32 ∷ 1076 ∷ 1083 ∷ 1103 ∷ 32 ∷ 1088 ∷ 1072 ∷ 1079 ∷ 1088 ∷ 1072 ∷ 1073 ∷ 1086
    ∷ 1090 ∷ 1082 ∷ 1080 ∷ 32 ∷ 1083 ∷ 1077 ∷ 1085 ∷ 1090 ∷ 1099 ∷ []

-- WHERE lower(email) = lower($1)
abbrev pub has_email : (Text → Text) → Text → User → Bool
has_email lower email u = text_eq (lower u.email) (lower email)

abbrev pub seed_user : Env → Text → Text → Db → User
seed_user env email password_hash db = record {
  id = db.next_user_id;
  email = email;
  password_hash = password_hash;
  is_verified = true;
  verified_at = some env.now;
  created_at = env.now;
  updated_at = env.now;
}

abbrev pub found_user : Option User → Result ℕ
found_user none = err (internal Stage.find_seed_user)
found_user (some u) = ok u.id

-- INSERT INTO users … ON CONFLICT DO NOTHING RETURNING id, and the SELECT if no row came back. A
-- conflict uses up an id.
unfoldable pub ensure_user : Env → Text → Text → Action ℕ
unfolding email_taken
ensure_user env email password_hash db =
    if env.fails Stage.insert_seed_user
    then (err (internal Stage.insert_seed_user), db)
    else if email_taken env email db.users
    then (
      if env.fails Stage.find_seed_user
          then err (internal Stage.find_seed_user)
          else found_user (find? (has_email env.lower email) db.users),
      record db { next_user_id = suc db.next_user_id },
    )
    else (
      ok db.next_user_id,
      record db {
        users = seed_user env email password_hash db ∷ db.users;
        next_user_id = suc db.next_user_id;
      },
    )

-- The columns of the INSERT; the others are set by put_profile.
abbrev pub seed_profile : Account → ℕ → Profile
seed_profile account user = record {
  id = 0;
  user_id = user;
  full_name = account.full_name;
  birthday = account.birthday;
  gender = account.gender;
  bio = seed_bio;
  latitude = some account.latitude;
  longitude = some account.longitude;
  city = some account.city;
  is_active = true;
  last_activity_at = 0;
  created_at = 0;
  updated_at = 0;
}

unfoldable pub upsert_profile : FloatOps → Env → Profile → Action (Unit {0})
upsert_profile fl env p = exec env Stage.seed_profile (profile_allowed fl p) (λ db. record db {
  profiles = put_profile env db.next_profile_id p db.profiles;
  next_profile_id = suc db.next_profile_id;
})

abbrev pub demo_preferences : Env → ℕ → DiscoveryPreferences
demo_preferences env user = record {
  user_id = user;
  city = none;
  min_age = 18;
  max_age = 50;
  gender = some 2;
  is_verified = false;
  max_distance_km = 50;
  updated_at = env.now;
}

-- ON CONFLICT (user_id) DO UPDATE SET …: the city and is_verified stay.
unfoldable pub put_demo :
    DiscoveryPreferences → List DiscoveryPreferences → List DiscoveryPreferences
put_demo f [] = f ∷ []
put_demo f (g ∷ gs) =
    if g.user_id == f.user_id
    then record f { city = g.city; is_verified = g.is_verified } ∷ gs
    else g ∷ put_demo f gs

-- ids[email], 0 for an email that is not there.
abbrev pub id_of : Text → List (Text × ℕ) → ℕ
id_of email [] = 0
id_of email ((e, id) ∷ ids) = if text_eq e email then id else id_of email ids

-- The loop over the accounts, with the ids so far.
unfoldable pub load_accounts :
    FloatOps → Env → Text → List (Text × ℕ) → List Account → Action (List (Text × ℕ))
unfolding ensure_user upsert_profile
load_accounts fl env password_hash ids [] = pure ids
load_accounts fl env password_hash ids (account ∷ rest) = do
  user ← ensure_user env account.email password_hash
  upsert_profile fl env (seed_profile account user)
  load_accounts fl env password_hash ((account.email, user) ∷ ids) rest

unfoldable pub load_demo : Env → List (Text × ℕ) → Action (Unit {0})
unfolding put_demo
load_demo env ids = do
  let user = id_of demo_email ids
  exec env Stage.seed_preferences (preferences_allowed (demo_preferences env user))
      (λ db. record db { preferences = put_demo (demo_preferences env user) db.preferences })
  exec env Stage.seed_like (pair_allowed (id_of alina_email ids) user)
      (insert_swipe env (id_of alina_email ids) user)

unfoldable pub load_body : FloatOps → Env → Text → Action (Unit {0})
unfolding load_accounts load_demo
load_body fl env password_hash = do
  control env Stage.begin_seed
  ids ← load_accounts fl env password_hash [] (accounts fl)
  load_demo env ids
  control env Stage.commit_seed

-- `hash` is what bcrypt makes of DemoPassword, or none for its error.
unfoldable pub load : FloatOps → Env → Option Text → Action (Unit {0})
unfolding load_body
load fl env none = fail (internal Stage.hash_seed_password)
load fl env (some password_hash) = transaction (load_body fl env password_hash)

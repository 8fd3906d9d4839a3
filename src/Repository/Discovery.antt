-- ===== src/Repository/Discovery.antt =====
-- go-core/internal/repository/ribbon.go: preferences, reports, and the candidates of the feed and
-- of the incoming likes.
pub mod Eligible
use tinder_like_back.Base.{
  ℕ, suc, ◌-◌, Bool, true, false, not, ◌&&◌, ◌||◌, Option, none, some, List, [], ◌∷◌, map, filter,
  any, take, length, ltb, leb, ◌==◌, if◌then◌else◌, find?, filter_map,
}
use tinder_like_back.Base.Tables.{order_by}
use tinder_like_back.Geo.{FloatOps, Bounds}
use tinder_like_back.Models.{
  Text, Float64, Date, User, Profile, DiscoveryPreferences, DiscoveryCandidate, Report,
}
use tinder_like_back.Text.{text_eq}
use tinder_like_back.Errors.{Stage, discovery_preferences_not_found}
use tinder_like_back.Database.{Db, Env, Action, user_exists, pure, fail, ◌>>=◌, ◌>>◌, query, exec}
use tinder_like_back.Repository.Ribbon.{
  are_excluded, has_swipe, is_swipe, pair_allowed, ensure_user_exists,
}

-- CHECK (reason IN (1, 2, 3, 4, 5)) and CHECK (char_length(comment) <= 2000)
abbrev pub comment_fits : Option Text → Bool
comment_fits none = true
comment_fits (some comment) = leb (length comment) 2000

unfoldable pub report_allowed : ℕ → ℕ → ℕ → Option Text → Db → Bool
report_allowed actor target reason comment db =
    (pair_allowed actor target db && (leb 1 reason && leb reason 5)) && comment_fits comment

unfoldable pub insert_report : Env → ℕ → ℕ → ℕ → Option Text → Db → Db
insert_report env actor target reason comment db = record db {
  reports = row ∷ db.reports;
  next_report_id = suc db.next_report_id;
}
  where
    row : Report
    row = record {
      id = db.next_report_id;
      action_user_id = actor;
      target_user_id = target;
      reason = reason;
      comment = comment;
      is_resolved = false;
      created_at = env.now;
      updated_at = env.now;
    }

unfoldable pub create_report : Env → ℕ → ℕ → ℕ → Option Text → Action (Unit {0})
unfolding ensure_user_exists
create_report env actor target reason comment = do
  ensure_user_exists env target
  exec env Stage.create_report (report_allowed actor target reason comment)
      (insert_report env actor target reason comment)

unfoldable pub find_preferences : Db → ℕ → Option DiscoveryPreferences
find_preferences db user = find? (λ f. f.user_id == user) db.preferences

abbrev pub scan_preferences : Option DiscoveryPreferences → Action DiscoveryPreferences
scan_preferences none = fail discovery_preferences_not_found
scan_preferences (some f) = pure f

unfoldable pub get_filters : Env → ℕ → Action DiscoveryPreferences
get_filters env user = do
  found ← query env Stage.get_discovery_preferences (λ db. find_preferences db user)
  scan_preferences found

-- The CHECKs of discovery_preferences, and its foreign key.
abbrev pub gender_allowed : Option ℕ → Bool
gender_allowed none = true
gender_allowed (some g) = g == 1 || g == 2

unfoldable pub preferences_allowed : DiscoveryPreferences → Db → Bool
preferences_allowed f db =
    (((leb 18 f.min_age && leb f.min_age f.max_age) && leb f.max_age 99) && gender_allowed f.gender)
    && ((ltb 0 f.max_distance_km && leb f.max_distance_km 1000) && user_exists db f.user_id)

-- INSERT … ON CONFLICT (user_id) DO UPDATE SET …, updated_at = now()
unfoldable pub put_preferences :
    DiscoveryPreferences → List DiscoveryPreferences → List DiscoveryPreferences
put_preferences f [] = f ∷ []
put_preferences f (g ∷ gs) = if g.user_id == f.user_id then f ∷ gs else g ∷ put_preferences f gs

abbrev pub saved_preferences : Env → DiscoveryPreferences → DiscoveryPreferences
saved_preferences env f = record f { updated_at = env.now }

unfoldable pub upsert_filters : Env → DiscoveryPreferences → Action DiscoveryPreferences
upsert_filters env f = do
  exec env Stage.upsert_discovery_preferences (preferences_allowed f)
      (λ db. record db { preferences = put_preferences (saved_preferences env f) db.preferences })
  pure (saved_preferences env f)

-- EXTRACT(YEAR FROM age(CURRENT_DATE, birthday)); 0 for a birthday to come, which no filter takes.
unfoldable pub age_years : Date → Date → ℕ
age_years today birthday =
    if ltb today.month birthday.month
      || (today.month == birthday.month && ltb today.day birthday.day)
    then today.year - birthday.year - 1
    else today.year - birthday.year

pub record CandidateQuery : Type 0 where
  pub viewer_user_id : ℕ
  pub filters : DiscoveryPreferences
  pub bounds : Bounds
  pub after_profile_id : ℕ
  pub limit : ℕ

-- value BETWEEN low AND high, false on NULL.
abbrev pub between : FloatOps → Float64 → Float64 → Option Float64 → Bool
between fl low high none = false
between fl low high (some x) = fl.le low x && fl.le x high

-- A condition that is added only if the filter is set.
abbrev pub city_matches : Option Text → Option Text → Bool
city_matches none city = true
city_matches (some wanted) none = false
city_matches (some wanted) (some city) = text_eq city wanted

abbrev pub gender_matches : Option ℕ → ℕ → Bool
gender_matches none g = true
gender_matches (some wanted) g = g == wanted

-- The WHERE clause that buildCandidateQuery puts together, without the cursor p.id > $8.
unfoldable pub is_candidate : FloatOps → Env → Db → CandidateQuery → DiscoveryCandidate → Bool
is_candidate fl env db q c =
    (c.profile.is_active && not (c.profile.user_id == q.viewer_user_id))
    && (between fl q.bounds.min_latitude q.bounds.max_latitude c.profile.latitude
        && (between fl q.bounds.min_longitude q.bounds.max_longitude c.profile.longitude
            && ((leb q.filters.min_age (age_years env.today c.profile.birthday)
                  && leb (age_years env.today c.profile.birthday) q.filters.max_age)
                && (not (are_excluded db q.viewer_user_id c.profile.user_id)
                    && (not (has_swipe db q.viewer_user_id c.profile.user_id)
                        && (city_matches q.filters.city c.profile.city
                            && (gender_matches q.filters.gender c.profile.gender
                                && (not q.filters.is_verified || c.is_verified))))))))

-- JOIN users u ON u.id = p.user_id, on the primary key.
abbrev pub joined_user : Profile → Option User → Option DiscoveryCandidate
joined_user p none = none
joined_user p (some u) = some (record { profile = p; is_verified = u.is_verified })

unfoldable pub with_user : Db → Profile → Option DiscoveryCandidate
with_user db p = joined_user p (find? (λ u. u.id == p.user_id) db.users)

unfoldable pub candidate_id : DiscoveryCandidate → ℕ
candidate_id c = c.profile.id

-- The columns that scanCandidates reads; the other fields keep Go's zero value.
abbrev pub scanned : DiscoveryCandidate → DiscoveryCandidate
scanned c = record c {
  profile = record (c.profile) {
    is_active = false;
    last_activity_at = 0;
    created_at = 0;
    updated_at = 0;
  };
}

unfoldable pub candidate_rows : FloatOps → Env → CandidateQuery → Db → List DiscoveryCandidate
candidate_rows fl env q db = order_by candidate_id (
    filter (λ c. is_candidate fl env db q c && ltb q.after_profile_id (candidate_id c))
      (filter_map (with_user db) db.profiles))

unfoldable pub list_candidates : FloatOps → Env → CandidateQuery → Action (List DiscoveryCandidate)
list_candidates fl env q =
    query env Stage.list_discovery_candidates
      (λ db. map scanned (take q.limit (candidate_rows fl env q db)))

-- The profile has liked the user, is active, and not excluded in either direction.
unfoldable pub is_incoming : Db → ℕ → DiscoveryCandidate → Bool
is_incoming db user c =
    has_swipe db c.profile.user_id user
    && (c.profile.is_active && not (are_excluded db user c.profile.user_id))

unfoldable pub list_incoming_likes : Env → ℕ → ℕ → ℕ → Action (List DiscoveryCandidate)
list_incoming_likes env user cursor limit = query env Stage.list_incoming_likes (λ db. map scanned (
    take limit (
      order_by candidate_id (
        filter (λ c. is_incoming db user c && ltb cursor (candidate_id c))
          (filter_map (with_user db) db.profiles)))))

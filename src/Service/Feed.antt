-- ===== src/Service/Feed.antt =====
-- GetFeed and GetIncomingLikes of go-core/internal/service/ribbon.go.
pub mod Scan
pub mod Loop
pub mod Refinement
pub mod Shown
pub mod Incoming
pub mod Safety
pub mod Reading
use tinder_like_back.Base.{
  ℕ, zero, suc, ◌*◌, Bool, true, false, ◌||◌, Option, none, some, List, [], ◌∷◌, ◌++◌, last?,
  length, ltb, leb, ◌==◌, if◌then◌else◌,
}
use tinder_like_back.Base.Int.{ℤ, pos}
use tinder_like_back.Geo.{FloatOps, Bounds, new_bounds, distance_km}
use tinder_like_back.Models.{Text, Float64, Date, Profile, DiscoveryPreferences, DiscoveryCandidate}
use tinder_like_back.Text.{format_int}
use tinder_like_back.Errors.{
  Error, Result, ok, err, invalid_feed_cursor, profile_coordinates_required,
}
use tinder_like_back.Database.{Env, Action, pure, fail, ◌>>=◌, ◌>>◌}
use tinder_like_back.Repository.Discovery.{CandidateQuery}
use tinder_like_back.Repository.Discovery
use tinder_like_back.Service.Page.{Page, cursor_of, fill_page}
use tinder_like_back.Service.Chat.{read_cursor, returned}
use tinder_like_back.Service.Ribbon.{normalize_feed_limit}

pub record FeedInput : Type 0 where
  pub limit : ℤ
  pub cursor : Text

-- The birthday is formatted from the date that stands here.
pub record FeedItem : Type 0 where
  pub profile_id : ℕ
  pub user_id : ℕ
  pub full_name : Text
  pub birthday : Date
  pub gender : ℕ
  pub bio : Text
  pub city : Option Text
  pub is_verified : Bool
  pub distance_km : Float64

-- ribbonStore's queries, and profileReader.
pub record FeedStore : Type 0 where
  pub get_filters : ℕ → Action DiscoveryPreferences
  pub get_profile : ℕ → Action Profile
  pub list_candidates : CandidateQuery → Action (List DiscoveryCandidate)
  pub list_incoming_likes : ℕ → ℕ → ℕ → Action (List DiscoveryCandidate)

-- parseCursor
abbrev pub parse_cursor : Text → Result ℕ
parse_cursor = read_cursor invalid_feed_cursor

module _ (fl : FloatOps) where
  -- float64(int(distance*100+0.5)) / 100
  unfoldable pub round_distance : Float64 → Float64
  round_distance distance =
      fl.div (fl.of_int (fl.to_int (fl.add (fl.mul distance (fl.literal 100 0)) (fl.literal 5 1))))
        (fl.literal 100 0)

  unfoldable pub feed_item_from_candidate : DiscoveryCandidate → Float64 → FeedItem
  unfolding round_distance
  feed_item_from_candidate c distance = record {
    profile_id = c.profile.id;
    user_id = c.profile.user_id;
    full_name = c.profile.full_name;
    birthday = c.profile.birthday;
    gender = c.profile.gender;
    bio = c.profile.bio;
    city = c.profile.city;
    is_verified = c.is_verified;
    distance_km = round_distance distance;
  }

  -- The item of a candidate within the distance, and none for another.
  abbrev pub item_within : Float64 → DiscoveryCandidate → Float64 → Option FeedItem
  item_within maximum c distance =
      if fl.lt maximum distance then none else some (feed_item_from_candidate c distance)

  abbrev pub item_at :
      Float64
      → Float64
      → Float64
      → DiscoveryCandidate
      → Option Float64
      → Option Float64
      → Option FeedItem
  item_at latitude longitude maximum c (some lat) (some lon) =
      item_within maximum c (distance_km fl latitude longitude lat lon)
  item_at latitude longitude maximum c (some lat) none = none
  item_at latitude longitude maximum c none lon = none

  unfoldable pub feed_item : Float64 → Float64 → ℕ → DiscoveryCandidate → Option FeedItem
  unfolding feed_item_from_candidate
  feed_item latitude longitude max_distance_km c =
      item_at latitude longitude (fl.of_int (pos max_distance_km)) c c.profile.latitude
        c.profile.longitude

-- The loop over one batch, from the cursor and the items so far. It stops at a full page.
module _ {C I : Type 0} (id : C → ℕ) (item : C → Option I) (limit : ℕ) where
  abbrev pub scan_next : ℕ → List I → (List I → ℕ × List I) → Option I → ℕ × List I
  scan_next cursor items go_on none = go_on items
  scan_next cursor items go_on (some i) =
      let items' = items ++ i ∷ [] in
      let rest = go_on items' in if length items' == limit then (cursor, items') else rest

  unfoldable pub scan_batch : ℕ → List I → List C → ℕ × List I
  scan_batch cursor items [] = (cursor, items)
  scan_batch cursor items (c ∷ cs) =
      scan_next (id c) items (λ items'. scan_batch (id c) items' cs) (item c)

  -- The loop over the batches, on fuel; `none` means that the fuel ran out.
  module _ (batch_size : ℕ) (list_after : ℕ → Action (List C)) where
    unfoldable pub feed_loop : ℕ → ℕ → List I → Action (Option (List I))
    feed_loop zero cursor items db = pure none db
    feed_loop (suc fuel) cursor items db = elim (ltb (length items) limit) [
      | false ↦ pure (some items) db
      | true ↦
          (list_after cursor >>= λ candidates db'. (elim (leb 1 (length candidates)) [
            | false ↦ pure (some items) db'
            | true ↦
                let (cursor', items') = scan_batch cursor items candidates in
                elim (length items' == limit || ltb (length candidates) batch_size) [
                  | true ↦ pure (some items') db'
                  | false ↦ feed_loop fuel cursor' items' db'
                ]
          ]))
            db
    ]

abbrev pub coordinates : Option Float64 → Option Float64 → Result (Float64 × Float64)
coordinates (some latitude) (some longitude) = ok (latitude, longitude)
coordinates (some latitude) none = err profile_coordinates_required
coordinates none longitude = err profile_coordinates_required

-- The page of the items, with a cursor if it is full.
abbrev pub feed_page : ℕ → Option (List FeedItem) → Option (Page FeedItem)
feed_page limit none = none
feed_page limit (some items) = some (record {
  items = items;
  next_cursor = if length items == limit then cursor_of (λ i. i.profile_id) (last? items) else [];
})

module _ (fl : FloatOps) (store : FeedStore) (fuel : ℕ) where
  unfoldable pub search_radius : ℕ → Float64
  search_radius max_distance_km = fl.max (fl.literal 100 0) (fl.of_int (pos max_distance_km))

  -- The part of GetFeed behind the reads of the filters and the profile.
  unfoldable pub feed_from :
      ℕ → ℕ → ℕ → DiscoveryPreferences → Float64 × Float64 → Action (Option (Page FeedItem))
  unfolding feed_loop feed_item search_radius
  feed_from user limit cursor filters (latitude, longitude) = do
    bounds ← returned (new_bounds fl latitude longitude (search_radius filters.max_distance_km))
    items ←
        feed_loop Discovery.candidate_id (feed_item fl latitude longitude filters.max_distance_km)
          limit (limit * 3)
          (λ scan_cursor. store.list_candidates (record {
            viewer_user_id = user;
            filters = filters;
            bounds = bounds;
            after_profile_id = scan_cursor;
            limit = limit * 3;
          }))
          fuel cursor []
    pure (feed_page limit items)

  unfoldable pub get_feed : ℕ → FeedInput → Action (Option (Page FeedItem))
  unfolding feed_from
  get_feed user input = do
    limit ← returned (normalize_feed_limit input.limit)
    cursor ← returned (parse_cursor input.cursor)
    filters ← store.get_filters user
    profile ← store.get_profile user
    here ← returned (coordinates profile.latitude profile.longitude)
    feed_from user limit cursor filters here

module _ (fl : FloatOps) (store : FeedStore) where
  unfoldable pub get_incoming_likes : ℕ → FeedInput → Action (Page FeedItem)
  get_incoming_likes user input = do
    limit ← returned (normalize_feed_limit input.limit)
    cursor ← returned (parse_cursor input.cursor)
    candidates ← store.list_incoming_likes user cursor (suc limit)
    pure (
        fill_page (λ c. feed_item_from_candidate fl c (fl.literal 0 0)) (λ i. i.profile_id) limit 0
          [] candidates)

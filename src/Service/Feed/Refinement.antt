-- ===== src/Service/Feed/Refinement.antt =====
-- GetFeed over the database refines one description of the feed: of all eligible candidates behind
-- the cursor, in the order of their ids, the first `limit` that are within the distance.
use tinder_like_back.Base.{
  ℕ, zero, suc, ◌*◌, ◌<◌, ◌≡◌, refl, ap, ◌∙◌, false, some, List, [], take, length, filter_map,
  arith,
}
use tinder_like_back.Base.Tables.{after}
use tinder_like_back.Base.Int.{ℤ, pos, negsuc, ltb_ℤ, eqb_ℤ, pos_part}
use tinder_like_back.Geo.{FloatOps, Bounds, new_bounds}
use tinder_like_back.Models.{Float64, Profile, DiscoveryPreferences, DiscoveryCandidate}
use tinder_like_back.Errors.{Stage, ok}
use tinder_like_back.Database.{Db, Env, Action}
use tinder_like_back.Repository.Discovery.{
  CandidateQuery, candidate_id, list_candidates, find_preferences, get_filters, list_incoming_likes,
}
use tinder_like_back.Repository.Discovery.Eligible.{
  eligible, list_candidates-eligible, ProfileKeys, eligible-SortedFrom,
}
use tinder_like_back.Repository.Profiles.{get_by_user_id, profile_of}
use tinder_like_back.Service.Ribbon.{normalize_feed_limit}
use tinder_like_back.Service.Feed.{
  coordinates, FeedInput, FeedItem, FeedStore, parse_cursor, feed_item, feed_page, feed_from,
  feed_loop, get_feed, search_radius,
}
use tinder_like_back.Service.Feed.Loop.{feed_loop-first_items}

-- NewRibbonService(ribbonRepository, profileRepository, …)
abbrev pub feed_repository : FloatOps → Env → FeedStore
feed_repository fl env = record {
  get_filters = get_filters env;
  get_profile = get_by_user_id env;
  list_candidates = list_candidates fl env;
  list_incoming_likes = list_incoming_likes env;
}

-- The criteria of a feed: the query with no cursor and no limit.
abbrev pub criteria : ℕ → DiscoveryPreferences → Bounds → CandidateQuery
criteria user filters bounds = record {
  viewer_user_id = user;
  filters = filters;
  bounds = bounds;
  after_profile_id = 0;
  limit = 0;
}

-- The feed behind a cursor: all that is eligible, the first `limit` that are within the distance.
abbrev pub feed_items :
    FloatOps
    → Env
    → Db
    → ℕ
    → ℕ
    → ℕ
    → DiscoveryPreferences
    → Bounds
    → Float64 × Float64
    → List FeedItem
feed_items fl env db user limit cursor filters bounds (latitude, longitude) = take limit (
    filter_map (feed_item fl latitude longitude filters.max_distance_km)
      (after candidate_id cursor (eligible fl env (criteria user filters bounds) db)))

module _ (fl : FloatOps) (env : Env) (db : Db) (user : ℕ) where
  abbrev pub reads : DiscoveryPreferences → Bounds → ℕ → ℕ → Action (List DiscoveryCandidate)
  reads filters bounds b c =
      list_candidates fl env
        (record (criteria user filters bounds) { after_profile_id = c; limit = b })

  triple : (l : ℕ) → 0 < l → (m : ℕ) × (l * 3 ≡ suc m)
  triple zero h = absurd (omega (arith, h))
  triple (suc k) h = (suc (suc (k * 3)), omega arith)

  -- The loop, whatever the size of its batches.
  loop-items :
      (fuel limit cursor b m : ℕ) (filters : DiscoveryPreferences) (here : Float64 × Float64)
      (bounds : Bounds)
      → ProfileKeys db
      → env.fails Stage.list_discovery_candidates ≡ false
      → 0 < limit
      → length (after candidate_id cursor (eligible fl env (criteria user filters bounds) db))
        < fuel
      → b ≡ suc m
      → feed_loop candidate_id
          (feed_item fl here.0 here.1 filters.max_distance_km)
          limit
          b
          (reads filters bounds b)
          fuel
          cursor
          []
          db
        ≡ (ok (some (feed_items fl env db user limit cursor filters bounds here)), db)
  loop-items fuel limit cursor b m filters here bounds keys listing some_items enough e =
      ap
        (λ n.
          feed_loop candidate_id (feed_item fl here.0 here.1 filters.max_distance_km) limit n
            (reads filters bounds n) fuel cursor [] db)
        e
      ∙ feed_loop-first_items candidate_id (feed_item fl here.0 here.1 filters.max_distance_km)
          limit m (reads filters bounds (suc m)) db
          (eligible fl env (criteria user filters bounds) db) 0
          (eligible-SortedFrom fl env (criteria user filters bounds) db keys)
          (λ c. list_candidates-eligible fl env (criteria user filters bounds) c (suc m) db listing)
          fuel cursor [] some_items enough

  -- The pages from behind the reads of the viewer's own rows.
  feed_from-items :
      (fuel limit cursor : ℕ) (filters : DiscoveryPreferences) (here : Float64 × Float64)
      (bounds : Bounds)
      → ProfileKeys db
      → env.fails Stage.list_discovery_candidates ≡ false
      → 0 < limit
      → new_bounds fl here.0 here.1
          (search_radius fl (feed_repository fl env) fuel filters.max_distance_km)
        ≡ ok bounds
      → length (after candidate_id cursor (eligible fl env (criteria user filters bounds) db))
        < fuel
      → feed_from fl (feed_repository fl env) fuel user limit cursor filters here db ≡ (
        ok (feed_page limit (some (feed_items fl env db user limit cursor filters bounds here))),
        db,
      )
  unfolding feed_from
  feed_from-items fuel limit cursor filters here bounds keys listing some_items e enough =
      let (m, size) = triple limit some_items in
      rw
        (
          e,
          loop-items fuel limit cursor (limit * 3) m filters here bounds keys listing some_items
              enough size,
        )
        refl

positive_part : (n : ℤ) → (ltb_ℤ n (pos 0) ≡ false) → (eqb_ℤ n (pos 0) ≡ false) → 0 < pos_part n
positive_part (pos n) h k = ground arith
positive_part (negsuc n) h k = absurd (ground arith)

-- A feed limit that is accepted is from 1 to 50.
feed_limit_positive : (n : ℤ) (limit : ℕ) → normalize_feed_limit n ≡ ok limit → 0 < limit
unfolding normalize_feed_limit
feed_limit_positive n limit h = ground (arith, positive_part n)

-- What the store holds for a viewer whose feed can be built.
module _ (fl : FloatOps) (env : Env) (db : Db) (user : ℕ) where
  -- If the limit and the cursor are accepted, the database holds the viewer's filters and profile,
  -- the profile has coordinates, the search rectangle is valid, the profile ids are distinct and
  -- positive, and none of the three statements fails, then GetFeed returns, with more fuel than
  -- there are candidates behind the cursor, the first `limit` eligible candidates behind the
  -- cursor that are within the distance, in the order of their ids, with the cursor of a full
  -- page, and changes nothing.
  pub get_feed-feed_items :
      (fuel limit cursor : ℕ) (input : FeedInput) (filters : DiscoveryPreferences)
      (viewer : Profile) (here : Float64 × Float64) (bounds : Bounds)
      → ProfileKeys db
      → env.fails Stage.get_discovery_preferences ≡ false
      → env.fails Stage.get_profile ≡ false
      → env.fails Stage.list_discovery_candidates ≡ false
      → normalize_feed_limit input.limit ≡ ok limit
      → parse_cursor input.cursor ≡ ok cursor
      → find_preferences db user ≡ some filters
      → profile_of db user ≡ some viewer
      → coordinates viewer.latitude viewer.longitude ≡ ok here
      → new_bounds fl here.0 here.1
          (search_radius fl (feed_repository fl env) fuel filters.max_distance_km)
        ≡ ok bounds
      → length (after candidate_id cursor (eligible fl env (criteria user filters bounds) db))
        < fuel
      → get_feed fl (feed_repository fl env) fuel user input db ≡ (
        ok (feed_page limit (some (feed_items fl env db user limit cursor filters bounds here))),
        db,
      )
  unfolding get_feed get_filters get_by_user_id
  get_feed-feed_items fuel limit cursor input filters viewer here bounds keys f1 f2 f3 l c found p
        at box enough =
      rw (l, c, f1, found, f2, p, at)
        (feed_from-items fl env db user fuel limit cursor filters here bounds keys f3
          (feed_limit_positive input.limit limit l) box enough)

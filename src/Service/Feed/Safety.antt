-- ===== src/Service/Feed/Safety.antt =====
-- Whom a feed never shows.
use tinder_like_back.Base.{
  ℕ, ◌*◌, ◌≡◌, refl, sym, subst, true, false, ◌&&◌, ◌==◌, Option, none, some, List, [], ◌∷◌, map,
  filter, take, ltb, arith, All, All-take, Bool-cases, inl, inr, filter_map,
}
use tinder_like_back.Base.Tables.Sorting.{order_by-All}
use tinder_like_back.Geo.{FloatOps, Bounds, new_bounds}
use tinder_like_back.Service.Ribbon.{normalize_feed_limit}
use tinder_like_back.Models.{Float64, Profile, DiscoveryCandidate, DiscoveryPreferences}
use tinder_like_back.Errors.{Stage, Result, ok, err}
use tinder_like_back.Database.{Db, Env, Action, pure, resume, ◌>>=◌}
use tinder_like_back.Repository.Ribbon.{are_excluded, has_swipe}
use tinder_like_back.Repository.Discovery.{
  CandidateQuery, is_candidate, with_user, candidate_id, scanned, candidate_rows, list_candidates,
  get_filters,
}
use tinder_like_back.Service.Page.{Page}
use tinder_like_back.Service.Chat.{returned}
use tinder_like_back.Repository.Profiles.{get_by_user_id}
use tinder_like_back.Service.Feed.{
  parse_cursor, coordinates, search_radius, FeedInput, FeedItem, feed_item,
  feed_item_from_candidate, feed_loop, feed_page, feed_from, get_feed,
}
use tinder_like_back.Service.Feed.Refinement.{feed_repository}
use tinder_like_back.Service.Feed.Shown.{HoldsIfSome, Lists, Shows, feed_loop-Shows}

-- Another user's, in no exclusion with the viewer, and not liked yet.
abbrev pub IsProper : Db → ℕ → ℕ → Type 0
IsProper db viewer user =
    ((user == viewer) ≡ false)
    × (are_excluded db viewer user ≡ false)
    × (has_swipe db viewer user ≡ false)

candidate-IsProper :
    (fl : FloatOps) (env : Env) (db : Db) (q : CandidateQuery) (c : DiscoveryCandidate)
    → is_candidate fl env db q c ≡ true
    → IsProper db q.viewer_user_id c.profile.user_id
unfolding is_candidate
candidate-IsProper fl env db q c h = (ground arith, ground arith, ground arith)

filter-IsProper :
    (fl : FloatOps) (env : Env) (db : Db) (q : CandidateQuery) (cs : List DiscoveryCandidate)
    → All
        (λ c. IsProper db q.viewer_user_id c.profile.user_id)
        (filter (λ c. is_candidate fl env db q c && ltb q.after_profile_id (candidate_id c)) cs)
filter-IsProper fl env db q [] = tt
filter-IsProper fl env db q (c ∷ cs) =
    elim (Bool-cases (is_candidate fl env db q c && ltb q.after_profile_id (candidate_id c))) [
      | inl hit ↦
          rw hit (candidate-IsProper fl env db q c (ground arith), filter-IsProper fl env db q cs)
      | inr miss ↦ rw miss (filter-IsProper fl env db q cs)
    ]

scanned-IsProper :
    (db : Db) (viewer : ℕ) (cs : List DiscoveryCandidate)
    → All (λ c. IsProper db viewer c.profile.user_id) cs
    → All (λ c. IsProper db viewer c.profile.user_id) (map scanned cs)
scanned-IsProper db viewer [] a = tt
scanned-IsProper db viewer (c ∷ cs) a = (a.0, scanned-IsProper db viewer cs a.1)

rows-IsProper :
    (fl : FloatOps) (env : Env) (db : Db) (q : CandidateQuery)
    → All
        (λ c. IsProper db q.viewer_user_id c.profile.user_id)
        (map scanned (take q.limit (candidate_rows fl env q db)))
unfolding candidate_rows
rows-IsProper fl env db q = scanned-IsProper db q.viewer_user_id _ (
    All-take _ q.limit _ (
      order_by-All candidate_id _ _
        (filter-IsProper fl env db q (filter_map (with_user db) db.profiles))))

listed-IsProper :
    (fl : FloatOps) (env : Env) (db : Db) (q : CandidateQuery)
    → Lists db (λ c. IsProper db q.viewer_user_id c.profile.user_id) (list_candidates fl env q db)
unfolding list_candidates
listed-IsProper fl env db q = elim (Bool-cases (env.fails Stage.list_discovery_candidates)) [
  | inl fault ↦ rw fault tt
  | inr sound ↦ rw sound (refl, rows-IsProper fl env db q)
]

unfoldable pub ShowsPage : Db → ℕ → Result (Option (Page FeedItem)) × Db → Type 0
ShowsPage db viewer (ok page, after) =
    HoldsIfSome (λ shown. All (λ i. IsProper db viewer i.user_id) shown.items) page
ShowsPage db viewer (err e, after) = Unit

module _ (fl : FloatOps) (env : Env) (db : Db) (viewer : ℕ) where
  resume-ShowsPage :
      {A : Type 0} (f : A → Action (Option (Page FeedItem))) (r : Result A × Db)
      → r.1 ≡ db
      → ((a : A) → ShowsPage db viewer (f a db))
      → ShowsPage db viewer (resume f r)
  unfolding ShowsPage
  resume-ShowsPage f (ok a, after) e k = subst (λ d. ShowsPage db viewer (f a d)) (sym e) (k a)
  resume-ShowsPage f (err e', after) e k = tt

  returned-reads : {A : Type 0} (r : Result A) → (returned r db).1 ≡ db
  returned-reads (ok a) = refl
  returned-reads (err e) = refl

  get_filters-reads : (user : ℕ) → (get_filters env user db).1 ≡ db
  unfolding get_filters
  get_filters-reads user = ground arith

  get_by_user_id-reads : (user : ℕ) → (get_by_user_id env user db).1 ≡ db
  unfolding get_by_user_id
  get_by_user_id-reads user = ground arith

  feed_item-user :
      (latitude longitude : Float64) (max_distance_km : ℕ) (c : DiscoveryCandidate) (i : FeedItem)
      → feed_item fl latitude longitude max_distance_km c ≡ some i
      → i.user_id ≡ c.profile.user_id
  unfolding feed_item feed_item_from_candidate
  feed_item-user latitude longitude max_distance_km c i h = ground arith

  page-ShowsPage :
      (limit : ℕ) (r : Result (Option (List FeedItem)) × Db)
      → Shows (λ i. IsProper db viewer i.user_id) r
      → ShowsPage db viewer (resume (λ items. pure (feed_page limit items)) r)
  unfolding ShowsPage
  page-ShowsPage limit (ok none, after) a = tt
  page-ShowsPage limit (ok (some items), after) a = a
  page-ShowsPage limit (err e, after) a = tt

  -- The batches of the feed, and what stands behind each read of GetFeed.
  module _ (fuel : ℕ) where
    abbrev pub batches :
        ℕ → ℕ → DiscoveryPreferences → Float64 → Float64 → Bounds → Action (Option (List FeedItem))
    batches limit cursor filters latitude longitude bounds =
        feed_loop candidate_id (feed_item fl latitude longitude filters.max_distance_km) limit
          (limit * 3)
          (λ c. list_candidates fl env (record {
            viewer_user_id = viewer;
            filters = filters;
            bounds = bounds;
            after_profile_id = c;
            limit = limit * 3;
          }))
          fuel cursor []

    abbrev pub with_profile :
        ℕ → ℕ → DiscoveryPreferences → Profile → Action (Option (Page FeedItem))
    with_profile limit cursor filters profile =
        returned (coordinates profile.latitude profile.longitude)
        >>= feed_from fl (feed_repository fl env) fuel viewer limit cursor filters

    abbrev pub with_filters : ℕ → ℕ → DiscoveryPreferences → Action (Option (Page FeedItem))
    with_filters limit cursor filters =
        get_by_user_id env viewer >>= with_profile limit cursor filters

    abbrev pub with_cursor : ℕ → ℕ → Action (Option (Page FeedItem))
    with_cursor limit cursor = get_filters env viewer >>= with_filters limit cursor

    batches-Shows :
        (limit cursor : ℕ) (filters : DiscoveryPreferences) (latitude longitude : Float64)
        (bounds : Bounds)
        → Shows
            (λ i. IsProper db viewer i.user_id)
            (batches limit cursor filters latitude longitude bounds db)
    batches-Shows limit cursor filters latitude longitude bounds =
        feed_loop-Shows candidate_id (feed_item fl latitude longitude filters.max_distance_km) limit
          (limit * 3) _ db (λ c. IsProper db viewer c.profile.user_id)
          (λ i. IsProper db viewer i.user_id)
          (λ c i q e.
            subst (IsProper db viewer)
              (sym (feed_item-user latitude longitude filters.max_distance_km c i e)) q)
          (λ c. listed-IsProper fl env db _) fuel cursor [] tt

    feed_from-ShowsPage :
        (limit cursor : ℕ) (filters : DiscoveryPreferences) (here : Float64 × Float64)
        → ShowsPage db viewer
            (feed_from fl (feed_repository fl env) fuel viewer limit cursor filters here db)
    unfolding feed_from
    feed_from-ShowsPage limit cursor filters (latitude, longitude) =
        resume-ShowsPage
          (λ bounds. batches limit cursor filters latitude longitude bounds >>= λ items.
            pure (feed_page limit items))
          (returned
            (new_bounds fl latitude longitude
              (search_radius fl (feed_repository fl env) fuel filters.max_distance_km))
            db)
          (returned-reads (
            new_bounds fl latitude longitude
              (search_radius fl (feed_repository fl env) fuel filters.max_distance_km)))
          (λ bounds.
            page-ShowsPage limit (batches limit cursor filters latitude longitude bounds db)
              (batches-Shows limit cursor filters latitude longitude bounds))

    with_profile-ShowsPage :
        (limit cursor : ℕ) (filters : DiscoveryPreferences) (profile : Profile)
        → ShowsPage db viewer (with_profile limit cursor filters profile db)
    with_profile-ShowsPage limit cursor filters profile =
        resume-ShowsPage (feed_from fl (feed_repository fl env) fuel viewer limit cursor filters)
          (returned (coordinates profile.latitude profile.longitude) db)
          (returned-reads (coordinates profile.latitude profile.longitude))
          (feed_from-ShowsPage limit cursor filters)

    with_cursor-ShowsPage : (limit cursor : ℕ) → ShowsPage db viewer (with_cursor limit cursor db)
    with_cursor-ShowsPage limit cursor =
        resume-ShowsPage (with_filters limit cursor) (get_filters env viewer db)
          (get_filters-reads viewer)
          (λ filters.
            resume-ShowsPage (with_profile limit cursor filters) (get_by_user_id env viewer db)
              (get_by_user_id-reads viewer) (with_profile-ShowsPage limit cursor filters))

  -- Whatever the fuel, the faults of the driver and the data, no feed that GetFeed returns shows
  -- the viewer, a user whom the viewer excludes or who excludes the viewer, or one whom the viewer
  -- has liked already.
  pub get_feed-ShowsPage :
      (fuel : ℕ) (input : FeedInput)
      → ShowsPage db viewer (get_feed fl (feed_repository fl env) fuel viewer input db)
  unfolding get_feed
  get_feed-ShowsPage fuel input =
      resume-ShowsPage (λ limit. returned (parse_cursor input.cursor) >>= with_cursor fuel limit)
        (returned (normalize_feed_limit input.limit) db)
        (returned-reads (normalize_feed_limit input.limit))
        (λ limit.
          resume-ShowsPage (with_cursor fuel limit) (returned (parse_cursor input.cursor) db)
            (returned-reads (parse_cursor input.cursor)) (with_cursor-ShowsPage fuel limit))

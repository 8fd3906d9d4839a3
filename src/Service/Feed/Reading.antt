-- ===== src/Service/Feed/Reading.antt =====
-- What GetFeed and GetIncomingLikes do to the tables.
use tinder_like_back.Base.{ℕ, zero, suc, ◌*◌, ◌≡◌, refl, arith, inl, inr, Option, List, []}
use tinder_like_back.Geo.{FloatOps, Bounds, new_bounds}
use tinder_like_back.Models.{Float64, DiscoveryPreferences, DiscoveryCandidate}
use tinder_like_back.Errors.{Result, ok, err}
use tinder_like_back.Database.{Db, Env, Action, pure}
use tinder_like_back.Database.Failures.{IsReader, resumed_reader, Result-cases}
use tinder_like_back.Repository.Discovery.{
  CandidateQuery, candidate_id, get_filters, list_candidates, list_incoming_likes,
}
use tinder_like_back.Repository.Profiles.{get_by_user_id}
use tinder_like_back.Service.Chat.{returned}
use tinder_like_back.Service.Feed.{
  FeedInput, feed_item, parse_cursor, coordinates, feed_page, search_radius, scan_batch, feed_loop,
  feed_from, get_feed, get_incoming_likes,
}
use tinder_like_back.Service.Ribbon.{normalize_feed_limit}
use tinder_like_back.Service.Feed.Refinement.{feed_repository}

pub returned-IsReader : {A : Type 0} (r : Result A) → IsReader (returned r)
returned-IsReader (ok a) db = refl
returned-IsReader (err e) db = refl

-- The queries behind a scan.
pub get_filters-IsReader : (env : Env) (user : ℕ) → IsReader (get_filters env user)
unfolding get_filters
get_filters-IsReader env user db = ground arith

pub get_profile-IsReader : (env : Env) (user : ℕ) → IsReader (get_by_user_id env user)
unfolding get_by_user_id
get_profile-IsReader env user db = ground arith

list_candidates-IsReader :
    (fl : FloatOps) (env : Env) (q : CandidateQuery) → IsReader (list_candidates fl env q)
unfolding list_candidates
list_candidates-IsReader fl env q db = refl

-- One round, by what the store returns.
round_reader :
    {C I : Type 0} (id : C → ℕ) (item : C → Option I) (limit batch_size : ℕ)
    (list_after : ℕ → Action (List C)) (fuel cursor : ℕ) (items : List I) (db : Db)
    (r : Result (List C) × Db)
    → list_after cursor db ≡ r
    → r.1 ≡ db
    → ((c : ℕ) (is : List I) → IsReader (feed_loop id item limit batch_size list_after fuel c is))
    → (feed_loop id item limit batch_size list_after (suc fuel) cursor items db).1 ≡ db
unfolding feed_loop
round_reader id item limit batch_size list_after fuel cursor items db (err e, after) l same next =
    ground arith
round_reader id item limit batch_size list_after fuel cursor items db (ok cs, after) l same next =
    let batch = scan_batch id item limit cursor items cs in
    ground (arith, next batch.0 batch.1 after)

feed_loop-IsReader :
    {C I : Type 0} (id : C → ℕ) (item : C → Option I) (limit batch_size : ℕ)
    (list_after : ℕ → Action (List C)) (fuel cursor : ℕ) (items : List I)
    → ((c : ℕ) → IsReader (list_after c))
    → IsReader (feed_loop id item limit batch_size list_after fuel cursor items)
unfolding feed_loop
feed_loop-IsReader id item limit batch_size list_after zero cursor items h db = refl
feed_loop-IsReader id item limit batch_size list_after (suc fuel) cursor items h db =
    round_reader id item limit batch_size list_after fuel cursor items db _ refl (h cursor db)
      (λ c is. feed_loop-IsReader id item limit batch_size list_after fuel c is h)

module _ (fl : FloatOps) (env : Env) (fuel user : ℕ) where
  abbrev candidates_after : ℕ → DiscoveryPreferences → Bounds → ℕ → Action (List DiscoveryCandidate)
  candidates_after limit filters bounds scan_cursor = list_candidates fl env (record {
    viewer_user_id = user;
    filters = filters;
    bounds = bounds;
    after_profile_id = scan_cursor;
    limit = limit * 3;
  })

  feed_from-IsReader :
      (limit cursor : ℕ) (filters : DiscoveryPreferences) (here : Float64 × Float64)
      → IsReader (feed_from fl (feed_repository fl env) fuel user limit cursor filters here)
  unfolding feed_from
  feed_from-IsReader limit cursor filters (latitude, longitude) db =
      elim (Result-cases (new_bounds fl latitude longitude radius)) [
        | inl (bounds, e) ↦
            let item = feed_item fl latitude longitude filters.max_distance_km in
            let listed = candidates_after limit filters bounds in
            rw e (
              resumed_reader (λ items. pure (feed_page limit items)) db
                (feed_loop candidate_id item limit (limit * 3) listed fuel cursor [] db)
                (feed_loop-IsReader candidate_id item limit (limit * 3) listed fuel cursor []
                  (λ c. list_candidates-IsReader fl env _) db)
                (λ items db'. refl))
        | inr (bad, e) ↦ rw e refl
      ]
    where
      radius : Float64
      radius = search_radius fl (feed_repository fl env) fuel filters.max_distance_km

  pub get_feed-IsReader :
      (input : FeedInput) → IsReader (get_feed fl (feed_repository fl env) fuel user input)
  unfolding get_feed
  get_feed-IsReader input db =
      resumed_reader _ db (returned (normalize_feed_limit input.limit) db)
        (returned-IsReader (normalize_feed_limit input.limit) db)
        (λ limit db1.
          resumed_reader _ db1 (returned (parse_cursor input.cursor) db1)
            (returned-IsReader (parse_cursor input.cursor) db1)
            (λ cursor db2.
              resumed_reader _ db2 (get_filters env user db2) (get_filters-IsReader env user db2)
                (λ filters db3.
                  resumed_reader _ db3 (get_by_user_id env user db3)
                    (get_profile-IsReader env user db3)
                    (λ viewer db4.
                      resumed_reader _ db4
                        (returned (coordinates viewer.latitude viewer.longitude) db4)
                        (returned-IsReader (coordinates viewer.latitude viewer.longitude) db4)
                        (λ here. feed_from-IsReader limit cursor filters here)))))

  pub get_incoming_likes-IsReader :
      (input : FeedInput) → IsReader (get_incoming_likes fl (feed_repository fl env) user input)
  unfolding get_incoming_likes list_incoming_likes
  get_incoming_likes-IsReader input db =
      resumed_reader _ db (returned (normalize_feed_limit input.limit) db)
        (returned-IsReader (normalize_feed_limit input.limit) db)
        (λ limit db1.
          resumed_reader _ db1 (returned (parse_cursor input.cursor) db1)
            (returned-IsReader (parse_cursor input.cursor) db1)
            (λ cursor db2.
              resumed_reader _ db2 (list_incoming_likes env user cursor (suc limit) db2) refl
                (λ candidates db3. refl)))

-- ===== src/Service/Feed/Incoming.antt =====
-- A client that reads the incoming likes page by page.
use tinder_like_back.Base.{
  ◌∷◌, ◌++◌, ℕ, suc, ◌^◌, ◌<◌, ◌≡◌, refl, ◌∙◌, ap, false, ◌&&◌, Option, some, List, [], length,
  filter, map, take, All, All-filter, ltb, arith,
}
use tinder_like_back.Base.Int.{pos}
use tinder_like_back.Base.Tables.{order_by, after, SortedFrom, Unique-filter}
use tinder_like_back.Base.Tables.Maps.{map-take, map-after, map-SortedFrom, map-All}
use tinder_like_back.Base.Tables.Sorting.{order_by-after, order_by-SortedFrom, order_by-All}
use tinder_like_back.Geo.{FloatOps}
use tinder_like_back.Models.{Text, DiscoveryCandidate}
use tinder_like_back.Text.{format_int}
use tinder_like_back.Errors.{Stage, invalid_feed_cursor, ok}
use tinder_like_back.Database.{Db, Env}
use tinder_like_back.Repository.Discovery.{candidate_id, scanned, is_incoming, list_incoming_likes}
use tinder_like_back.Repository.Discovery.Eligible.{
  joined_profiles, joined-All, joined-Unique, ProfileKeys, scanned_id,
}
use tinder_like_back.Service.Page.{Page, fill_page}
use tinder_like_back.Service.Page.Walk.{page_at, walk, walk-after, after_all}
use tinder_like_back.Service.Chat.{read_cursor}
use tinder_like_back.Service.Chat.Paging.{page_of, read_cursor-format_int, read_cursor-empty}
use tinder_like_back.Service.Ribbon.{normalize_feed_limit}
use tinder_like_back.Service.Feed.{
  FeedInput, FeedItem, feed_item_from_candidate, get_incoming_likes,
}
use tinder_like_back.Service.Feed.Refinement.{feed_repository}

-- A page of items that are made one by one.
fill_page-map :
    {A B : Type 0} (item : A → B) (get_id : B → ℕ) (limit index : ℕ) (items : List B)
    (values : List A)
    → fill_page item get_id limit index items values
      ≡ fill_page (λ x. x) get_id limit index items (map item values)
unfolding fill_page
fill_page-map item get_id limit index items [] = refl
fill_page-map item get_id limit index items (v ∷ vs) =
    ground (arith, fill_page-map item get_id limit (suc index) (items ++ item v ∷ []) vs)

abbrev pub item_id : FeedItem → ℕ
item_id i = i.profile_id

module _ (fl : FloatOps) where
  -- An incoming like shows no distance.
  abbrev pub like_item : DiscoveryCandidate → FeedItem
  like_item c = feed_item_from_candidate fl c (fl.literal 0 0)

  like_item_id : (c : DiscoveryCandidate) → item_id (like_item c) ≡ candidate_id c
  unfolding feed_item_from_candidate candidate_id
  like_item_id c = refl

  -- All that have liked the user, in the order of their profiles' ids.
  unfoldable pub incoming : Db → ℕ → List FeedItem
  incoming db user =
      map like_item
        (map scanned (order_by candidate_id (filter (is_incoming db user) (joined_profiles db))))

  abbrev pub feed_input : ℕ → Text → FeedInput
  feed_input limit cursor = record { limit = pos limit; cursor = cursor }

  incoming_rows :
      (db : Db) (user n c : ℕ)
      → map like_item (
          map scanned (
            take n (
              order_by candidate_id (
                filter
                  (λ x. is_incoming db user x && ltb c (candidate_id x))
                  (joined_profiles db)))))
        ≡ take n (after item_id c (incoming db user))
  unfolding incoming
  incoming_rows db user n c =
      ap (λ xs. map like_item (map scanned (take n xs)))
        (order_by-after candidate_id (is_incoming db user) c (joined_profiles db))
      ∙ ap (map like_item) (map-take scanned n _)
      ∙ map-take like_item n _
      ∙ ap (λ xs. take n (map like_item xs))
          (map-after scanned candidate_id candidate_id scanned_id c _)
      ∙ ap (take n) (map-after like_item candidate_id item_id like_item_id c _)

  abbrev pub incoming_page : Env → Db → ℕ → ℕ → Text → Option (Page FeedItem)
  incoming_page env db user limit cursor =
      page_of (get_incoming_likes fl (feed_repository fl env) user (feed_input limit cursor) db).0

  incoming-page_at :
      (env : Env) (db : Db) (user m : ℕ) (cursor : Text) (c : ℕ)
      → env.fails Stage.list_incoming_likes ≡ false
      → m < 50
      → read_cursor invalid_feed_cursor cursor ≡ ok c
      → incoming_page env db user (suc m) cursor
        ≡ some (page_at item_id (suc m) (incoming db user) c)
  unfolding get_incoming_likes list_incoming_likes normalize_feed_limit
  incoming-page_at env db user m cursor c f h e = ground (
    arith,
    fill_page-map like_item item_id (suc m) 0 [] (
        map scanned (
          take (suc (suc m)) (
            order_by candidate_id (
              filter (λ x. is_incoming db user x && ltb c (candidate_id x))
                (joined_profiles db))))),
    incoming_rows db user (suc (suc m)) c,
  )

  -- A user who reads the incoming likes page by page, following the cursors, gets everyone who has
  -- liked the user, has an active profile and is excluded in neither direction, once and in the
  -- order of the profiles' ids, for every page size from 1 to 50. The profile ids are distinct
  -- int64 from 1 on, the reads do not fail, nothing is written in between, and the client may read
  -- more pages than there are such profiles.
  pub walk-incoming :
      (env : Env) (db : Db) (user m fuel : ℕ)
      → env.fails Stage.list_incoming_likes ≡ false
      → m < 50
      → ProfileKeys db
      → All (λ p. p.id < 2 ^ 63) db.profiles
      → length (incoming db user) < fuel
      → walk (incoming_page env db user (suc m)) fuel [] ≡ incoming db user
  unfolding incoming
  walk-incoming env db user m fuel f h keys bounded enough =
      walk-after item_id m rows (incoming_page env db user (suc m))
        (λ c below.
          incoming-page_at env db user m (format_int c) c f h
            (read_cursor-format_int invalid_feed_cursor c below))
        sorted
        (map-All like_item candidate_id item_id like_item_id (λ k. k < 2 ^ 63) _
          (map-All scanned candidate_id candidate_id scanned_id (λ k. k < 2 ^ 63) _
            (order_by-All candidate_id _ _
              (All-filter _ _ (joined_profiles db) (joined-All db (λ k. k < 2 ^ 63) bounded)))))
        fuel 0 [] (incoming-page_at env db user m [] 0 f h (read_cursor-empty invalid_feed_cursor))
        (rw all_rows enough)
      ∙ all_rows
    where
      rows : List FeedItem
      rows = incoming db user

      sorted : SortedFrom item_id 0 rows
      sorted = map-SortedFrom like_item candidate_id item_id like_item_id 0 _ (
          map-SortedFrom scanned candidate_id candidate_id scanned_id 0 _ (
            order_by-SortedFrom candidate_id 0 _
              (All-filter _ _ (joined_profiles db) (joined-All db (λ k. 0 < k) keys.0))
              (Unique-filter _ _ (joined_profiles db) (joined-Unique db keys.1))))

      all_rows : after item_id 0 rows ≡ rows
      all_rows = after_all item_id 0 0 rows sorted (omega arith)

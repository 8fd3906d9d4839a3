-- ===== src/Repository/Discovery/Eligible.antt =====
-- The candidates of a feed query as one list, of which ListCandidates reads a part at a time.
use tinder_like_back.Base.{
  ℕ, ◌<◌, ◌≡◌, refl, ◌∙◌, ap, false, some, List, map, filter, take, filter_map, arith, All,
  All-filter,
}
use tinder_like_back.Base.Tables.{order_by, after, SortedFrom, Unique, Unique-filter}
use tinder_like_back.Base.Tables.Maps.{map-take, map-after, map-SortedFrom}
use tinder_like_back.Base.Tables.Joins.{filter_map-All, filter_map-Unique}
use tinder_like_back.Base.Tables.Sorting.{order_by-after, order_by-SortedFrom, same_key}
use tinder_like_back.Geo.{FloatOps}
use tinder_like_back.Models.{Profile, DiscoveryCandidate}
use tinder_like_back.Errors.{Stage, ok}
use tinder_like_back.Database.{Db, Env}
use tinder_like_back.Repository.Discovery.{
  CandidateQuery, is_candidate, with_user, candidate_id, scanned, candidate_rows, list_candidates,
}

-- Joined with their users, in no order.
abbrev pub joined_profiles : Db → List DiscoveryCandidate
joined_profiles db = filter_map (with_user db) db.profiles

-- All that the query admits, whatever its cursor and its limit, in the order of the ids.
unfoldable pub eligible : FloatOps → Env → CandidateQuery → Db → List DiscoveryCandidate
eligible fl env q db =
    map scanned (order_by candidate_id (filter (is_candidate fl env db q) (joined_profiles db)))

pub scanned_id : (c : DiscoveryCandidate) → candidate_id (scanned c) ≡ candidate_id c
unfolding candidate_id
scanned_id c = refl

-- One read of the store.
pub candidate_rows-eligible :
    (fl : FloatOps) (env : Env) (q : CandidateQuery) (db : Db)
    → map scanned (take q.limit (candidate_rows fl env q db))
      ≡ take q.limit (after candidate_id q.after_profile_id (eligible fl env q db))
unfolding candidate_rows eligible
candidate_rows-eligible fl env q db =
    map-take scanned q.limit _
    ∙ ap (take q.limit) (
        ap (map scanned) (
          order_by-after candidate_id (is_candidate fl env db q) q.after_profile_id
            (joined_profiles db))
        ∙ map-after scanned candidate_id candidate_id scanned_id q.after_profile_id _)

-- The cursor and the limit do not bear on which candidates are eligible.
eligible-at :
    (fl : FloatOps) (env : Env) (q : CandidateQuery) (c b : ℕ) (db : Db)
    → eligible fl env (record q { after_profile_id = c; limit = b }) db ≡ eligible fl env q db
unfolding eligible is_candidate
eligible-at fl env q c b db = refl

pub list_candidates-eligible :
    (fl : FloatOps) (env : Env) (q : CandidateQuery) (c b : ℕ) (db : Db)
    → env.fails Stage.list_discovery_candidates ≡ false
    → list_candidates fl env (record q { after_profile_id = c; limit = b }) db
      ≡ (ok (take b (after candidate_id c (eligible fl env q db))), db)
unfolding list_candidates
list_candidates-eligible fl env q c b db listing = rw (listing) (
    ap (λ cs. (ok cs, db))
      (candidate_rows-eligible fl env (record q { after_profile_id = c; limit = b }) db
        ∙ ap (λ cs. take b (after candidate_id c cs)) (eligible-at fl env q c b db)))

joined_id :
    (db : Db) (p : Profile) (c : DiscoveryCandidate)
    → with_user db p ≡ some c
    → candidate_id c ≡ p.id
unfolding with_user candidate_id
joined_id db p c h = ground arith

-- Joined profiles keep the keys of their rows.
pub joined-All :
    (db : Db) (R : ℕ → Type 0)
    → All (λ p. R p.id) db.profiles
    → All (λ c. R (candidate_id c)) (joined_profiles db)
joined-All db R =
    filter_map-All (with_user db) (λ p. p.id) candidate_id (joined_id db) R db.profiles

pub joined-Unique :
    (db : Db)
    → Unique (same_key (λ p. p.id)) db.profiles
    → Unique (same_key candidate_id) (joined_profiles db)
joined-Unique db =
    filter_map-Unique (with_user db) (λ p. p.id) candidate_id (joined_id db) db.profiles

-- Profile ids are a primary key, from 1 on.
abbrev pub ProfileKeys : Db → Type 0
ProfileKeys db = All (λ p. 0 < p.id) db.profiles × Unique (same_key (λ p. p.id)) db.profiles

pub eligible-SortedFrom :
    (fl : FloatOps) (env : Env) (q : CandidateQuery) (db : Db)
    → ProfileKeys db
    → SortedFrom candidate_id 0 (eligible fl env q db)
unfolding eligible
eligible-SortedFrom fl env q db keys =
    map-SortedFrom scanned candidate_id candidate_id scanned_id 0 _ (
      order_by-SortedFrom candidate_id 0 _
        (All-filter _ _ (joined_profiles db) (joined-All db (λ k. 0 < k) keys.0))
        (Unique-filter _ _ (joined_profiles db) (joined-Unique db keys.1)))

-- ===== src/Repository/Ribbon/Likes.antt =====
-- CreateLike, on every path through its transaction.
use tinder_like_back.Base.{
  if◌then◌else◌, not, filter, List, [], ◌∷◌, any, head?, ℕ, ◌≡◌, refl, true, false, ◌&&◌, ◌||◌,
  ◌==◌, Option, none, some, is_some, arith,
}
use tinder_like_back.Models.{Chat}
use tinder_like_back.Errors.{
  Stage, Error, target_user_not_found, users_excluded, internal, Result, ok, err,
}
use tinder_like_back.Database.{Db, Env, user_exists}
use tinder_like_back.Repository.Ribbon.{
  has_swipe, are_excluded, has_active_profile, pair_allowed, insert_swipe, insert_chat, find_chat,
  create_like, is_chat_of,
}
use tinder_like_back.Repository.Ribbon.Pairs.{has_swipe-insert_swipe}

-- What the tests of CreateLike found when it went through.
abbrev pub MayLike : ℕ → ℕ → Db → Type 0
MayLike actor target db =
    (has_active_profile db target ≡ true)
    × (are_excluded db actor target ≡ false)
    × (pair_allowed actor target db ≡ true)

abbrev pub chat_id : Option Chat → Option ℕ
chat_id none = none
chat_id (some c) = some c.id

-- How CreateLike ends, with the writes that stay: none; the like; the like and the chat.
abbrev pub Writes : Env → ℕ → ℕ → Db → Result (Option ℕ) × Db → Type 0
Writes env actor target db (err e, after) = after ≡ db
Writes env actor target db (ok none, after) =
    MayLike actor target db
    × (has_swipe (insert_swipe env actor target db) target actor ≡ false)
    × (after ≡ insert_swipe env actor target db)
Writes env actor target db (ok (some id), after) =
    MayLike actor target db
    × (has_swipe (insert_swipe env actor target db) target actor ≡ true)
    × (after ≡ insert_chat env actor target (insert_swipe env actor target db))
    × (chat_id (find_chat after actor target) ≡ some id)

Writes-of :
    (env : Env) (actor target : ℕ) (db : Db) (r : Result (Option ℕ) × Db)
    → create_like env actor target db ≡ r
    → Writes env actor target db r
unfolding create_like
Writes-of env actor target db (err e, after) h = ground arith
Writes-of env actor target db (ok none, after) h = ground arith
Writes-of env actor target db (ok (some id), after) h = ground arith

pub create_like-Writes :
    (env : Env) (actor target : ℕ) (db : Db)
    → Writes env actor target db (create_like env actor target db)
create_like-Writes env actor target db = Writes-of env actor target db _ refl

-- What a caller of CreateLike sees.
abbrev pub Likes : ℕ → ℕ → Db → Result (Option ℕ) × Db → Type 0
Likes actor target db (err e, after) = after ≡ db
Likes actor target db (ok chat, after) =
    MayLike actor target db
    × ((a b : ℕ) → has_swipe after a b ≡ (has_swipe db a b || (actor == a && target == b)))
    × (is_some chat ≡ has_swipe db target actor)
    × (is_some chat ≡ true → chat ≡ chat_id (find_chat after actor target))

has_swipe-insert_chat :
    (env : Env) (actor target : ℕ) (db : Db) (a b : ℕ)
    → has_swipe (insert_chat env actor target db) a b ≡ has_swipe db a b
unfolding has_swipe insert_chat
has_swipe-insert_chat env actor target db a b = refl

-- The test of a mutual like reads what stood there before the like.
mutual_before :
    (env : Env) (actor target : ℕ) (db : Db)
    → pair_allowed actor target db ≡ true
    → has_swipe (insert_swipe env actor target db) target actor ≡ has_swipe db target actor
unfolding pair_allowed
mutual_before env actor target db h =
    ground (arith, has_swipe-insert_swipe env actor target db target actor)

Likes-of :
    (env : Env) (actor target : ℕ) (db : Db) (r : Result (Option ℕ) × Db)
    → Writes env actor target db r
    → Likes actor target db r
Likes-of env actor target db (err e, after) w = w
Likes-of env actor target db (ok none, after) w = (
  w.0,
  (λ a b. rw w.2 (has_swipe-insert_swipe env actor target db a b)),
  ground (arith, mutual_before env actor target db),
  (λ h. cc),
)
Likes-of env actor target db (ok (some id), after) w = (
  w.0,
  (λ a b. ground (
    arith,
    has_swipe-insert_chat env actor target (insert_swipe env actor target db) a b,
    has_swipe-insert_swipe env actor target db a b,
  )),
  ground (arith, mutual_before env actor target db),
  (λ h. ground arith),
)

-- CreateLike either fails, and then the database is as before, or it goes through: then the two
-- are different users with accounts, the target has an active profile, neither excludes the other,
-- the like of this pair and no other is added, a chat is returned exactly when the target had
-- liked the actor, and it is the pair's chat.
pub create_like-Likes :
    (env : Env) (actor target : ℕ) (db : Db)
    → Likes actor target db (create_like env actor target db)
create_like-Likes env actor target db =
    Likes-of env actor target db _ (create_like-Writes env actor target db)

-- No call of the database fails by itself.
abbrev pub NoFaults : Env → Type 0
NoFaults env = (s : Stage) → env.fails s ≡ false

abbrev pub error_of {ℓ} : {A : Type ℓ} → Result A → Option Error
error_of (ok a) = none
error_of (err e) = some e

-- The error that a like of this pair meets, or none.
abbrev pub like_error : Db → ℕ → ℕ → Option Error
like_error db actor target =
    if not (has_active_profile db target)
    then some target_user_not_found
    else if are_excluded db actor target
    then some users_excluded
    else if not (pair_allowed actor target db)
    then some (internal Stage.create_like)
    else none

find_chat_any :
    (a b : ℕ) (xs : List Chat)
    → any (is_chat_of a b) xs ≡ true
    → is_some (head? (filter (is_chat_of a b) xs)) ≡ true
find_chat_any a b [] h = cc
find_chat_any a b (c ∷ xs) h = ground (arith, find_chat_any a b xs)

-- The pair has a chat once one was inserted or was there already.
pub find_chat-insert_chat :
    (env : Env) (actor target : ℕ) (db : Db)
    → is_some (find_chat (insert_chat env actor target db) actor target) ≡ true
unfolding find_chat insert_chat
find_chat-insert_chat env actor target db = ground (arith, find_chat_any actor target db.chats)

same_allowed :
    (env : Env) (actor target : ℕ) (db : Db)
    → pair_allowed actor target (insert_swipe env actor target db) ≡ pair_allowed actor target db
unfolding insert_swipe pair_allowed user_exists
same_allowed env actor target db = refl

error_at :
    (env : Env) (actor target : ℕ) (db : Db) (r : Result (Option ℕ)) (after : Db)
    → NoFaults env
    → create_like env actor target db ≡ (r, after)
    → error_of r ≡ like_error db actor target
unfolding create_like
error_at env actor target db r after h e = ground (
  arith,
  h Stage.begin_create_like,
  h Stage.check_target_profile,
  h Stage.check_user_exclusions,
  h Stage.create_like,
  h Stage.check_mutual_like,
  h Stage.commit_like,
  h Stage.create_chat_for_match,
  h Stage.get_match_chat,
  h Stage.commit_match,
  find_chat-insert_chat env actor target (insert_swipe env actor target db),
  same_allowed env actor target db,
)

-- Without faults of the driver, a like fails exactly with the error of the first test that it
-- does not pass, and otherwise goes through.
pub create_like-error :
    (env : Env) (actor target : ℕ) (db : Db)
    → NoFaults env
    → error_of (create_like env actor target db).0 ≡ like_error db actor target
create_like-error env actor target db h = error_at env actor target db _ _ h refl

-- ===== src/Repository/Ribbon.antt =====
-- go-core/internal/repository/ribbon.go: likes and matches, exclusions, reports and preferences.
pub mod Pairs
pub mod Consistency
pub mod Blocks
pub mod Likes
pub mod Exclusions
pub mod History
pub mod Closed
use tinder_like_back.Base.{
  ℕ, suc, Bool, true, false, not, ◌&&◌, ◌||◌, Option, none, some, ◌∷◌, map, filter, any, head?,
  ◌==◌, if◌then◌else◌,
}
use tinder_like_back.Models.{Swipe, UserExclusion, Chat}
use tinder_like_back.Errors.{Stage, target_user_not_found, users_excluded, internal}
use tinder_like_back.Database.{
  Db, Env, Action, user_exists, pure, fail, ◌>>=◌, ◌>>◌, fail_if, query, exec, control, transaction,
}

-- The conditions of the WHERE clauses on a pair of users.
abbrev pub is_swipe : ℕ → ℕ → Swipe → Bool
is_swipe actor target s = s.actor_user_id == actor && s.target_user_id == target

abbrev pub is_exclusion : ℕ → ℕ → UserExclusion → Bool
is_exclusion action target e = e.action_user_id == action && e.target_user_id == target

abbrev pub is_chat_of : ℕ → ℕ → Chat → Bool
is_chat_of a b c = (c.user_1_id == a && c.user_2_id == b) || (c.user_1_id == b && c.user_2_id == a)

unfoldable pub has_swipe : Db → ℕ → ℕ → Bool
has_swipe db actor target = any (is_swipe actor target) db.swipes

-- An exclusion in either direction.
unfoldable pub are_excluded : Db → ℕ → ℕ → Bool
are_excluded db a b = any (λ e. is_exclusion a b e || is_exclusion b a e) db.exclusions

unfoldable pub has_active_profile : Db → ℕ → Bool
has_active_profile db user = any (λ p. p.user_id == user && p.is_active) db.profiles

-- INSERT INTO swipes … ON CONFLICT (actor_user_id, target_user_id) DO NOTHING; a conflict takes a
-- value of the sequence too.
unfoldable pub insert_swipe : Env → ℕ → ℕ → Db → Db
insert_swipe env actor target db = record db {
  swipes = if has_swipe db actor target then db.swipes else row ∷ db.swipes;
  next_swipe_id = suc db.next_swipe_id;
}
  where
    row : Swipe
    row = record {
      id = db.next_swipe_id;
      actor_user_id = actor;
      target_user_id = target;
      created_at = env.now;
    }

-- INSERT INTO chats … ON CONFLICT DO NOTHING, under the unique index on the unordered pair.
unfoldable pub insert_chat : Env → ℕ → ℕ → Db → Db
insert_chat env a b db = record db {
  chats = if any (is_chat_of a b) db.chats then db.chats else row ∷ db.chats;
  next_chat_id = suc db.next_chat_id;
}
  where
    row : Chat
    row = record {
      id = db.next_chat_id;
      user_1_id = a;
      user_2_id = b;
      is_active = true;
      created_at = env.now;
      deactivated_at = none;
    }

-- The CHECK and the foreign keys of swipes, user_exclusions, chats and reports.
unfoldable pub pair_allowed : ℕ → ℕ → Db → Bool
pair_allowed a b db = not (a == b) && user_exists db a && user_exists db b

-- SELECT id FROM chats WHERE … for the pair.
unfoldable pub find_chat : Db → ℕ → ℕ → Option Chat
find_chat db a b = head? (filter (is_chat_of a b) db.chats)

-- `Scan` on no row is an error.
abbrev pub scan_chat_id : Option Chat → Action ℕ
scan_chat_id none = fail (internal Stage.get_match_chat)
scan_chat_id (some c) = pure c.id

unfoldable pub ensure_active_profile : Env → ℕ → Action (Unit {0})
ensure_active_profile env user = do
  exists ← query env Stage.check_target_profile (λ db. has_active_profile db user)
  fail_if (not exists) target_user_not_found

unfoldable pub ensure_not_excluded : Env → ℕ → ℕ → Action (Unit {0})
ensure_not_excluded env actor target = do
  excluded ← query env Stage.check_user_exclusions (λ db. are_excluded db actor target)
  fail_if excluded users_excluded

unfoldable pub ensure_user_exists : Env → ℕ → Action (Unit {0})
ensure_user_exists env user = do
  exists ← query env Stage.check_target_user (λ db. user_exists db user)
  fail_if (not exists) target_user_not_found

-- The part of CreateLike behind the test of a mutual like.
unfoldable pub create_match : Env → ℕ → ℕ → Action (Option ℕ)
create_match env actor target = do
  exec env Stage.create_chat_for_match (pair_allowed actor target) (insert_chat env actor target)
  found ← query env Stage.get_match_chat (λ db. find_chat db actor target)
  chat_id ← scan_chat_id found
  control env Stage.commit_match
  pure (some chat_id)

unfoldable pub finish_like : Env → ℕ → ℕ → Bool → Action (Option ℕ)
unfolding create_match
finish_like env actor target true = create_match env actor target
finish_like env actor target false = control env Stage.commit_like >> pure none

-- The body of CreateLike's transaction.
unfoldable pub like_body : Env → ℕ → ℕ → Action (Option ℕ)
unfolding ensure_active_profile ensure_not_excluded finish_like
like_body env actor target = do
  control env Stage.begin_create_like
  ensure_active_profile env target
  ensure_not_excluded env actor target
  exec env Stage.create_like (pair_allowed actor target) (insert_swipe env actor target)
  mutual_like ← query env Stage.check_mutual_like (λ db. has_swipe db target actor)
  finish_like env actor target mutual_like

unfoldable pub create_like : Env → ℕ → ℕ → Action (Option ℕ)
unfolding like_body
create_like env actor target = transaction (like_body env actor target)

-- DO UPDATE on the row of the pair.
unfoldable pub update_ban : (Bool → Bool) → ℕ → ℕ → UserExclusion → UserExclusion
update_ban f action target e =
    if is_exclusion action target e then record e { is_permanent_ban = f e.is_permanent_ban } else e

-- INSERT INTO user_exclusions … ON CONFLICT (…) DO UPDATE SET is_permanent_ban = …
unfoldable pub upsert_exclusion : Env → Bool → (Bool → Bool) → ℕ → ℕ → Db → Db
upsert_exclusion env initial on_conflict action target db = record db {
  exclusions =
      if any (is_exclusion action target) db.exclusions
      then map (update_ban on_conflict action target) db.exclusions
      else row ∷ db.exclusions;
  next_exclusion_id = suc db.next_exclusion_id;
}
  where
    row : UserExclusion
    row = record {
      id = db.next_exclusion_id;
      action_user_id = action;
      target_user_id = target;
      is_permanent_ban = initial;
      created_at = env.now;
    }

-- SET is_permanent_ban = user_exclusions.is_permanent_ban keeps the old value.
abbrev pub keep_ban : Bool → Bool
keep_ban old = old

abbrev pub set_ban : Bool → Bool
set_ban old = true

unfoldable pub create_dislike : Env → ℕ → ℕ → Action (Unit {0})
unfolding ensure_user_exists
create_dislike env actor target = do
  ensure_user_exists env target
  exec env Stage.create_dislike (pair_allowed actor target)
      (upsert_exclusion env false keep_ban actor target)

-- UPDATE chats SET is_active = FALSE, deactivated_at = now() WHERE is_active = TRUE AND …
unfoldable pub deactivate : Env → ℕ → ℕ → Chat → Chat
deactivate env a b c =
    if c.is_active && is_chat_of a b c
    then record c { is_active = false; deactivated_at = some env.now }
    else c

unfoldable pub deactivate_chat : Env → ℕ → ℕ → Db → Db
deactivate_chat env a b db = record db { chats = map (deactivate env a b) db.chats }

unfoldable pub block_body : Env → ℕ → ℕ → Action (Unit {0})
unfolding ensure_user_exists
block_body env actor target = do
  control env Stage.begin_create_block
  ensure_user_exists env target
  exec env Stage.create_block (pair_allowed actor target)
      (upsert_exclusion env true set_ban actor target)
  exec env Stage.deactivate_blocked_chat (λ db. true) (deactivate_chat env actor target)
  control env Stage.commit_block

unfoldable pub create_block : Env → ℕ → ℕ → Action (Unit {0})
unfolding block_body
create_block env actor target = transaction (block_body env actor target)

-- DELETE FROM user_exclusions WHERE … AND is_permanent_ban = TRUE
unfoldable pub delete_ban : ℕ → ℕ → Db → Db
delete_ban actor target db = record db {
  exclusions = filter (λ e. not (is_exclusion actor target e && e.is_permanent_ban)) db.exclusions;
}

unfoldable pub remove_block : Env → ℕ → ℕ → Action (Unit {0})
remove_block env actor target = exec env Stage.remove_block (λ db. true) (delete_ban actor target)

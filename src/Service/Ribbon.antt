-- ===== src/Service/Ribbon.antt =====
-- go-core/internal/service/ribbon.go: validation, and likes, dislikes, blocks and reports with
-- their events.
pub mod Published
pub mod Requests
use Prim.Native.String.{String}
use tinder_like_back.Base.{
  ℕ, suc, Bool, true, false, not, ◌&&◌, ◌||◌, Option, none, some, List, [], ◌∷◌, is_some, leb, ltb,
  ◌==◌, if◌then◌else◌,
}
use tinder_like_back.Base.Int.{ℤ, pos, negsuc, pos_part, eqb_ℤ, ltb_ℤ, leb_ℤ}
use tinder_like_back.Models.{Text, DiscoveryPreferences, DiscoveryCandidate}
use tinder_like_back.Text.{trim_space, is_empty, byte_len}
use tinder_like_back.Errors.{
  Error, Result, ok, err, invalid_feed_limit, invalid_target_user, invalid_report_reason,
  report_comment_too_long, invalid_discovery_age, invalid_discovery_gender,
  invalid_discovery_distance,
}
use tinder_like_back.Database.{Db, Env, Action}
use tinder_like_back.Events.{Value, flag, number, time, Payload, insert, Event, Publisher, publish}
use tinder_like_back.Repository.Ribbon
use tinder_like_back.Repository.Discovery.{create_report}

abbrev pub default_feed_limit : ℕ
default_feed_limit = 20

abbrev pub maximum_feed_limit : ℕ
maximum_feed_limit = 50

unfoldable pub normalize_feed_limit : ℤ → Result ℕ
normalize_feed_limit limit =
    if eqb_ℤ limit (pos 0)
    then ok default_feed_limit
    else if ltb_ℤ limit (pos 0) || ltb_ℤ (pos maximum_feed_limit) limit
    then err invalid_feed_limit
    else ok (pos_part limit)

-- The user is the one of the token, with a positive id.
unfoldable pub target_error : ℕ → ℤ → Bool
target_error user target = leb_ℤ target (pos 0) || eqb_ℤ target (pos user)

-- The part of the interface ribbonStore that writes. The service has checked the ids.
pub record RibbonStore : Type 0 where
  pub create_like : ℕ → ℕ → Action (Option ℕ)
  pub create_dislike : ℕ → ℕ → Action (Unit {0})
  pub create_block : ℕ → ℕ → Action (Unit {0})
  pub remove_block : ℕ → ℕ → Action (Unit {0})
  pub create_report : ℕ → ℕ → ℕ → Option Text → Action (Unit {0})

-- NewRibbonRepository(pool)
abbrev pub ribbon_repository : Env → RibbonStore
ribbon_repository env = record {
  create_like = Ribbon.create_like env;
  create_dislike = Ribbon.create_dislike env;
  create_block = Ribbon.create_block env;
  remove_block = Ribbon.remove_block env;
  create_report = create_report env;
}

-- The database and the publisher; a service may have no publisher.
pub record World : Type 0 where
  pub db : Db
  pub publisher : Option Publisher

abbrev pub Call : Type 0 → Type 0
Call A = World → Result A × World

abbrev pub finish : {A B : Type 0} → (A → Call B) → World → Result A × Db → Result B × World
finish k w (ok a, db) = k a (record w { db = db })
finish k w (err e, db) = (err e, record w { db = db })

-- A call of the store, and what follows if it succeeds.
abbrev pub then_call : {A B : Type 0} → Action A → (A → Call B) → Call B
then_call act k w = finish k w (act w.db)

abbrev pub done : {A : Type 0} → A → Call A
done a w = (ok a, w)

abbrev pub publish_to : Event → Option Publisher → Option Publisher
publish_to ev none = none
publish_to ev (some p) = some (publish ev p)

-- publish: user_id, target_user_id and occurred_at are added to the payload.
unfoldable pub event_of : Env → String → ℕ → ℕ → Payload → Event
unfolding insert
event_of env event_type user target payload = record {
  type = event_type;
  payload =
      insert "occurred_at" (time env.now)
        (insert "target_user_id" (number target) (insert "user_id" (number user) payload));
}

unfoldable pub emit : Env → String → ℕ → ℕ → Payload → World → World
unfolding event_of
emit env event_type user target payload w = record w {
  publisher = publish_to (event_of env event_type user target payload) w.publisher;
}

pub record LikeOutput : Type 0 where
  pub matched : Bool
  pub chat_id : Option ℕ

-- `if chatID != nil { s.publish("match", …) }`
unfoldable pub emit_match : Env → ℕ → ℕ → Option ℕ → World → World
unfolding emit
emit_match env user target none w = w
emit_match env user target (some id) w =
    emit env "match" user target (("chat_id", number id) ∷ []) w

-- An empty comment is stored as NULL.
abbrev pub comment_pointer : Text → Option Text
comment_pointer comment = if is_empty comment then none else some comment

module _ (env : Env) (store : RibbonStore) where
  unfoldable pub like : ℕ → ℤ → Call LikeOutput
  unfolding target_error emit emit_match
  like user target w =
      if target_error user target
      then (err invalid_target_user, w)
      else then_call (store.create_like user (pos_part target))
          (λ chat w'.
            done (record { matched = is_some chat; chat_id = chat })
              (emit_match env user (pos_part target) chat
                (emit env "swipe" user (pos_part target) (("liked", flag true) ∷ []) w')))
          w

  unfoldable pub dislike : ℕ → ℤ → Call (Unit {0})
  unfolding target_error emit
  dislike user target w =
      if target_error user target
      then (err invalid_target_user, w)
      else then_call (store.create_dislike user (pos_part target))
          (λ u w'.
            done tt (emit env "swipe" user (pos_part target) (("liked", flag false) ∷ []) w'))
          w

  unfoldable pub block : ℕ → ℤ → Call (Unit {0})
  unfolding target_error emit
  block user target w =
      if target_error user target
      then (err invalid_target_user, w)
      else then_call (store.create_block user (pos_part target))
          (λ u w'. done tt (emit env "block" user (pos_part target) [] w')) w

  unfoldable pub unblock : ℕ → ℤ → Call (Unit {0})
  unfolding target_error
  unblock user target w =
      if target_error user target
      then (err invalid_target_user, w)
      else then_call (store.remove_block user (pos_part target)) (λ u. done tt) w

  unfoldable pub report : ℕ → ℤ → ℤ → Text → Call (Unit {0})
  unfolding target_error emit
  report user target reason raw w =
      let comment = trim_space raw in
      if target_error user target
      then (err invalid_target_user, w)
      else if ltb_ℤ reason (pos 1) || ltb_ℤ (pos 5) reason
      then (err invalid_report_reason, w)
      else if ltb 2000 (byte_len comment)
      then (err report_comment_too_long, w)
      else then_call
          (store.create_report user (pos_part target) (pos_part reason) (comment_pointer comment))
          (λ u w'. done tt (
            emit env "report" user (pos_part target) (("reason", number (pos_part reason)) ∷ [])
              w'))
          w

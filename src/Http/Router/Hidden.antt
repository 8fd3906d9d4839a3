-- ===== src/Http/Router/Hidden.antt =====
-- Chats of other users, and chats that are not there.
use tinder_like_back.Base.{
  ℕ, suc, ◌≡◌, refl, Bool, true, false, ◌&&◌, ◌||◌, ◌==◌, ltb, arith, Bool-cases, inl, inr, Option,
  none, some, List, [], ◌∷◌, any,
}
use tinder_like_back.Base.Int.{pos, leb_ℤ}
use tinder_like_back.Geo.{FloatOps}
use tinder_like_back.Models.{Text, Chat}
use tinder_like_back.Text.{parse_int, trim_space, is_empty, byte_len}
use tinder_like_back.Errors.{Stage}
use tinder_like_back.Database.{Db, Env}
use tinder_like_back.Database.Failures.{Result-cases}
use tinder_like_back.Repository.Chats
use tinder_like_back.Repository.Chats.{is_participant, is_chat_participant, may_write}
use tinder_like_back.Service.Photos.{ObjectStore}
use tinder_like_back.Service.Chat as ChatService
use tinder_like_back.Service.Chat.{ChatPageInput, chat_repository, normalize_chat_page}
use tinder_like_back.Http.{Request, Gateway, Server}
use tinder_like_back.Http.Chats as ChatHandler
use tinder_like_back.Http.Query.{chat_page_input, query_limit}
use tinder_like_back.Http.Router.{UserRoute, messages, send, mark_read, user_handler}

may_write-participant :
    (user chat : ℕ) (xs : List Chat)
    → any (λ c. c.id == chat && is_participant user c) xs ≡ false
    → any (λ c. (c.id == chat && c.is_active) && is_participant user c) xs ≡ false
may_write-participant user chat [] h = refl
may_write-participant user chat (c ∷ xs) h = ground (arith, may_write-participant user chat xs)

-- The store, for two chats in which the user takes no part.
module _ (env : Env) (user a b : ℕ) (db : Db) (foreign : is_chat_participant db user a ≡ false)
    (foreign' : is_chat_participant db user b ≡ false) where
  same_list :
      (cursor limit : ℕ)
      → Chats.list_messages env user a cursor limit db
        ≡ Chats.list_messages env user b cursor limit db
  unfolding Chats.list_messages
  same_list cursor limit = elim (Bool-cases (env.fails Stage.check_chat_participant)) [
    | inl bad ↦ rw bad refl
    | inr good ↦ rw (good, foreign, foreign') refl
  ]

  same_read : Chats.mark_read env user a db ≡ Chats.mark_read env user b db
  unfolding Chats.mark_read
  same_read = elim (Bool-cases (env.fails Stage.check_chat_participant)) [
    | inl bad ↦ rw bad refl
    | inr good ↦ rw (good, foreign, foreign') refl
  ]

  same_create :
      (body : Text)
      → Chats.create_message env user a body db ≡ Chats.create_message env user b body db
  unfolding Chats.create_message is_chat_participant
  same_create body =
      let closed = may_write-participant user a db.chats foreign in
      let closed' = may_write-participant user b db.chats foreign' in
      elim (Bool-cases (env.fails Stage.create_message)) [
        | inl bad ↦ rw bad refl
        | inr good ↦ rw (good, closed, closed') refl
      ]

positive : (n : ℕ) → leb_ℤ (pos (suc n)) (pos 0) ≡ false
positive n = ground arith

module _ (env : Env) (user a b : ℕ) (db : Db)
    (foreign : is_chat_participant db user (suc a) ≡ false)
    (foreign' : is_chat_participant db user (suc b) ≡ false) where
  same_messages :
      (input : ChatPageInput)
      → ChatService.messages (chat_repository env) user (pos (suc a)) input db
        ≡ ChatService.messages (chat_repository env) user (pos (suc b)) input db
  unfolding ChatService.messages
  same_messages input = elim (Result-cases (normalize_chat_page input)) [
    | inr (bad, e) ↦ rw (positive a, positive b, e) refl
    | inl ((limit, cursor), e) ↦
        rw
          (
            positive a,
            positive b,
            e,
            same_list env user (suc a) (suc b) db foreign foreign' cursor (suc limit),
          )
          refl
  ]

  same_send :
      (body : Text)
      → ChatService.send (chat_repository env) user (pos (suc a)) body db
        ≡ ChatService.send (chat_repository env) user (pos (suc b)) body db
  unfolding ChatService.send
  same_send body =
      elim (Bool-cases (is_empty (trim_space body) || ltb 4000 (byte_len (trim_space body)))) [
        | inl bad ↦ rw (positive a, positive b, bad) refl
        | inr good ↦
            rw
              (
                positive a,
                positive b,
                good,
                same_create env user (suc a) (suc b) db foreign foreign' (trim_space body),
              )
              refl
      ]

  same_mark :
      ChatService.mark_read (chat_repository env) user (pos (suc a)) db
      ≡ ChatService.mark_read (chat_repository env) user (pos (suc b)) db
  unfolding ChatService.mark_read
  same_mark = rw (positive a, positive b) (same_read env user (suc a) (suc b) db foreign foreign')

-- The routes that name a chat.
abbrev pub names_chat : UserRoute → Bool
names_chat messages = true
names_chat send = true
names_chat mark_read = true
names_chat _ = false

module _ (gateway : Gateway) (env : Env) (fl : FloatOps) (fuel : ℕ) {S : Type 0}
    (storage : ObjectStore S) where
  -- Two requests that differ only in the chat that they name are answered alike, and have the same
  -- effect, if the user takes part in neither chat: whether the chat is another pair's or is not
  -- there makes no difference to reading, sending and marking as read, whatever the driver does.
  pub user_handler-hidden :
      (route : UserRoute) (user : ℕ) (email : Text) (req : Request) (p q : Text) (a b : ℕ)
      (s : Server S)
      → names_chat route ≡ true
      → parse_int p ≡ some (pos (suc a))
      → parse_int q ≡ some (pos (suc b))
      → is_chat_participant s.world.db user (suc a) ≡ false
      → is_chat_participant s.world.db user (suc b) ≡ false
      → user_handler gateway env fl fuel storage route user email (record req { param = p }) s
        ≡ user_handler gateway env fl fuel storage route user email (record req { param = q }) s
  unfolding user_handler ChatHandler.messages ChatHandler.send ChatHandler.mark_read chat_page_input
      query_limit
  user_handler-hidden messages user email req p q a b s n h k f g =
      rw (h, k, same_messages env user a b s.world.db f g (chat_page_input req)) refl
  user_handler-hidden send user email req p q a b s n h k f g =
      rw (h, k) (sent (gateway.bind_message req.body))
    where
      sent :
          (body : Option Text)
          → ChatHandler.send_bound gateway (chat_repository env) user (pos (suc a)) body s
            ≡ ChatHandler.send_bound gateway (chat_repository env) user (pos (suc b)) body s
      sent none = refl
      sent (some body) = rw (same_send env user a b s.world.db f g body) refl
  user_handler-hidden mark_read user email req p q a b s n h k f g =
      rw (h, k, same_mark env user a b s.world.db f g) refl
  user_handler-hidden _ user email req p q a b s n h k f g = absurd cc

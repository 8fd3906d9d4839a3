-- ===== src/Service/Chat.antt =====
-- go-core/internal/service/chat.go: ChatService over its store.
pub mod Paging
pub mod Access
pub mod Sending
pub mod Listing
use tinder_like_back.Base.{
  ℕ, suc, Bool, true, false, ◌||◌, Option, none, some, List, [], ltb, if◌then◌else◌,
}
use tinder_like_back.Base.Int.{ℤ, pos, negsuc, pos_part, eqb_ℤ, ltb_ℤ, leb_ℤ}
use tinder_like_back.Models.{Text, ChatPreview, Message}
use tinder_like_back.Text.{trim_space, is_empty, byte_len, parse_int}
use tinder_like_back.Errors.{
  Error, Result, ok, err, invalid_chat_id, invalid_message_body, invalid_chat_cursor,
}
use tinder_like_back.Database.{Env, Action, pure, fail, ◌>>=◌, ◌>>◌, fail_if}
use tinder_like_back.Repository.Chats
use tinder_like_back.Service.Page.{Page, fill_page}

-- interface chatStore. The service has checked the ids, which are positive.
pub record ChatStore : Type 0 where
  pub list_active : ℕ → ℕ → ℕ → Action (List ChatPreview)
  pub list_messages : ℕ → ℕ → ℕ → ℕ → Action (List Message)
  pub create_message : ℕ → ℕ → Text → Action Message
  pub mark_read : ℕ → ℕ → Action (Unit {0})

-- NewChatService(chatRepository)
abbrev pub chat_repository : Env → ChatStore
chat_repository env = record {
  list_active = Chats.list_active env;
  list_messages = Chats.list_messages env;
  create_message = Chats.create_message env;
  mark_read = Chats.mark_read env;
}

abbrev pub default_chat_page_limit : ℕ
default_chat_page_limit = 20

abbrev pub maximum_chat_page_limit : ℕ
maximum_chat_page_limit = 50

pub record ChatPageInput : Type 0 where
  pub limit : ℤ
  pub cursor : Text

-- A cursor is blank, or a decimal int64 that is not negative.
abbrev pub cursor_value : Error → Option ℤ → Result ℕ
cursor_value e none = err e
cursor_value e (some (pos n)) = ok n
cursor_value e (some (negsuc n)) = err e

unfoldable pub read_cursor : Error → Text → Result ℕ
read_cursor e cursor =
    if is_empty (trim_space cursor) then ok 0 else cursor_value e (parse_int cursor)

abbrev pub with_limit : ℕ → Result ℕ → Result (ℕ × ℕ)
with_limit limit (ok cursor) = ok (limit, cursor)
with_limit limit (err e) = err e

-- `limit == 0` stands for the default.
abbrev pub chat_limit : ℤ → ℤ
chat_limit limit = if eqb_ℤ limit (pos 0) then pos default_chat_page_limit else limit

unfoldable pub normalize_chat_page : ChatPageInput → Result (ℕ × ℕ)
unfolding read_cursor
normalize_chat_page input =
    let limit = chat_limit input.limit in
    if ltb_ℤ limit (pos 1) || ltb_ℤ (pos maximum_chat_page_limit) limit
    then err invalid_chat_cursor
    else with_limit (pos_part limit) (read_cursor invalid_chat_cursor input.cursor)

abbrev pub returned : {A : Type 0} → Result A → Action A
returned (ok a) = pure a
returned (err e) = fail e

abbrev pub make_chat_page : {T : Type 0} → List T → ℕ → (T → ℕ) → Page T
make_chat_page values limit get_id = fill_page (λ x. x) get_id limit 0 [] values

module _ (store : ChatStore) where
  unfoldable pub list : ℕ → ChatPageInput → Action (Page ChatPreview)
  list user input = do
    (limit, cursor) ← returned (normalize_chat_page input)
    chats ← store.list_active user cursor (suc limit)
    pure (make_chat_page chats limit (λ c. c.chat.id))

  unfoldable pub messages : ℕ → ℤ → ChatPageInput → Action (Page Message)
  messages user chat input = do
    fail_if (leb_ℤ chat (pos 0)) invalid_chat_id
    (limit, cursor) ← returned (normalize_chat_page input)
    rows ← store.list_messages user (pos_part chat) cursor (suc limit)
    pure (make_chat_page rows limit (λ m. m.id))

  unfoldable pub send : ℕ → ℤ → Text → Action Message
  send user chat raw = do
    fail_if (leb_ℤ chat (pos 0)) invalid_chat_id
    let body = trim_space raw
    fail_if (is_empty body || ltb 4000 (byte_len body)) invalid_message_body
    store.create_message user (pos_part chat) body

  unfoldable pub mark_read : ℕ → ℤ → Action (Unit {0})
  mark_read user chat = do
    fail_if (leb_ℤ chat (pos 0)) invalid_chat_id
    store.mark_read user (pos_part chat)

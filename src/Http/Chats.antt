-- ===== src/Http/Chats.antt =====
-- handlers/chat.go.
use tinder_like_back.Base.{ℕ, zero, suc, Option, none, some}
use tinder_like_back.Base.Int.{ℤ, pos, negsuc}
use tinder_like_back.Models.{Text}
use tinder_like_back.Text.{parse_int}
use tinder_like_back.Errors.{
  Error, invalid_chat_id, invalid_message_body, invalid_chat_cursor, chat_not_found, orphaned,
}
use tinder_like_back.Service.Chat
use tinder_like_back.Service.Chat.{ChatStore}
use tinder_like_back.Http.{
  error_literal, error_text, chats_page, messages_page, message, Response, Request, Gateway, Server,
  UserHandler, json, json_of, no_content_of, run_action,
}
use tinder_like_back.Http.Query.{chat_page_input}

unfoldable pub chat_error : Error → Response
chat_error invalid_chat_id = json 400 (error_text invalid_chat_id)
chat_error invalid_message_body = json 400 (error_text invalid_message_body)
chat_error invalid_chat_cursor = json 400 (error_text invalid_chat_cursor)
-- The same for a missing chat and for a chat of other users.
chat_error chat_not_found = json 404 (error_literal "chat not found")
chat_error (orphaned e) = chat_error e
chat_error _ = json 500 (error_literal "chat operation failed")

-- `err != nil || chatID <= 0`
abbrev pub chat_id_of : Option ℤ → Option ℤ
chat_id_of none = none
chat_id_of (some (pos zero)) = none
chat_id_of (some (pos (suc n))) = some (pos (suc n))
chat_id_of (some (negsuc n)) = none

unfoldable pub parse_chat_id : Request → Option ℤ
parse_chat_id req = chat_id_of (parse_int req.param)

-- `chatID, ok := parseChatID(c); if !ok { return }`
abbrev pub with_chat_id :
    {S : Type 0} → Option ℤ → (ℤ → Server S → Response × Server S) → Server S → Response × Server S
with_chat_id none next s = (json 400 (error_text invalid_chat_id), s)
with_chat_id (some chat) next s = next chat s

module _ (gateway : Gateway) (store : ChatStore) {S : Type 0} where
  unfoldable pub list : UserHandler S
  unfolding chat_error
  list user email req =
      run_action chat_error (json_of 200 chats_page) (Chat.list store user (chat_page_input req))

  unfoldable pub messages : UserHandler S
  unfolding chat_error parse_chat_id
  messages user email req = with_chat_id (parse_chat_id req) (λ chat.
      run_action chat_error (json_of 200 messages_page)
        (Chat.messages store user chat (chat_page_input req)))

  abbrev pub send_bound : ℕ → ℤ → Option Text → Server S → Response × Server S
  send_bound user chat none s = (json 400 (error_literal "invalid message body"), s)
  send_bound user chat (some body) s =
      run_action chat_error (json_of 201 message) (Chat.send store user chat body) s

  unfoldable pub send : UserHandler S
  unfolding chat_error parse_chat_id
  send user email req =
      with_chat_id (parse_chat_id req)
        (λ chat. send_bound user chat (gateway.bind_message req.body))

  unfoldable pub mark_read : UserHandler S
  unfolding chat_error parse_chat_id
  mark_read user email req =
      with_chat_id (parse_chat_id req)
        (λ chat. run_action chat_error no_content_of (Chat.mark_read store user chat))

-- ===== src/Service/Chat/Access.antt =====
-- Who may read a chat, and who may mark it as read.
use tinder_like_back.Base.{ℕ, ◌≡◌, refl, not, Option, none, some, arith, if◌then◌else◌}
use tinder_like_back.Base.Int.{ℤ, pos, pos_part, leb_ℤ}
use tinder_like_back.Errors.{
  Error, Stage, internal, chat_not_found, invalid_chat_id, Result, ok, err,
}
use tinder_like_back.Database.{Db, Env}
use tinder_like_back.Repository.Ribbon.Likes.{NoFaults, error_of}
use tinder_like_back.Repository.Chats
use tinder_like_back.Repository.Chats.{is_chat_participant, list_messages, read_allowed}
use tinder_like_back.Service.Chat.{
  ChatPageInput, normalize_chat_page, chat_repository, messages, mark_read,
}

-- The error of a page request, or else what follows.
abbrev pub page_error : Result (ℕ × ℕ) → Option Error → Option Error
page_error (err e) rest = some e
page_error (ok page) rest = rest

abbrev pub access_error : Db → ℕ → ℕ → Option Error → Option Error
access_error db user chat rest =
    if not (is_chat_participant db user chat) then some chat_not_found else rest

abbrev pub messages_error : Db → ℕ → ℤ → ChatPageInput → Option Error
messages_error db user chat input =
    if leb_ℤ chat (pos 0)
    then some invalid_chat_id
    else page_error (normalize_chat_page input) (access_error db user (pos_part chat) none)

abbrev pub read_error : Env → Db → ℕ → ℤ → Option Error
read_error env db user chat =
    if leb_ℤ chat (pos 0)
    then some invalid_chat_id
    else access_error db user (pos_part chat) (
        if read_allowed env user (pos_part chat) db
        then none
        else some (internal Stage.mark_messages_read))

messages_of :
    (env : Env) (user : ℕ) (chat : ℤ) (input : ChatPageInput) (db : Db) (page : Result (ℕ × ℕ))
    → NoFaults env
    → normalize_chat_page input ≡ page
    → error_of (messages (chat_repository env) user chat input db).0 ≡ (
        if leb_ℤ chat (pos 0)
        then some invalid_chat_id
        else page_error page (access_error db user (pos_part chat) none))
unfolding messages list_messages
messages_of env user chat input db (err e) f h =
    ground (arith, h, f Stage.check_chat_participant, f Stage.list_messages)
messages_of env user chat input db (ok page) f h =
    ground (arith, h, f Stage.check_chat_participant, f Stage.list_messages)

read_of :
    (env : Env) (user : ℕ) (chat : ℤ) (db : Db)
    → NoFaults env
    → error_of (mark_read (chat_repository env) user chat db).0 ≡ read_error env db user chat
unfolding mark_read Chats.mark_read
read_of env user chat db f =
    ground (arith, f Stage.check_chat_participant, f Stage.mark_messages_read)

-- Without faults of the driver, Messages and MarkRead fail exactly with the error of the first test
-- that the request does not pass. For Messages these are the chat's id, the page's limit and cursor,
-- and that the user takes part in the chat; for MarkRead the chat's id, that the user takes part, and
-- that no message to be marked is dated later than the call. A chat of others and one that is not
-- there give the same error.
pub messages-mark_read-error :
    (env : Env) (user : ℕ) (chat : ℤ) (input : ChatPageInput) (db : Db)
    → NoFaults env
    → (error_of (messages (chat_repository env) user chat input db).0
        ≡ messages_error db user chat input)
      × (error_of (mark_read (chat_repository env) user chat db).0 ≡ read_error env db user chat)
messages-mark_read-error env user chat input db f =
    (messages_of env user chat input db _ f refl, read_of env user chat db f)

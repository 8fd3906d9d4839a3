-- ===== src/Service/Chat/Sending.antt =====
-- Send: which messages are taken, and what is stored.
use tinder_like_back.Base.{
  ℕ, ◌≤◌, ◌≡◌, refl, ◌∙◌, false, not, ◌||◌, Option, none, some, ltb, arith, Bool-cases, inl, inr,
  if◌then◌else◌,
}
use tinder_like_back.Base.Int.{ℤ, pos, pos_part, leb_ℤ}
use tinder_like_back.Models.{Text, Message}
use tinder_like_back.Text.Blank.{trim_space-visible}
use tinder_like_back.Text.{trim_space, is_empty, byte_len}
use tinder_like_back.Errors.{
  Error, Stage, internal, chat_not_found, invalid_chat_id, invalid_message_body, Result, ok, err,
}
use tinder_like_back.Database.{Db, Env, user_exists}
use tinder_like_back.Repository.Ribbon.Likes.{NoFaults, error_of}
use tinder_like_back.Repository.Chats.{may_write, message_allowed}
use tinder_like_back.Repository.Chats.Writes.{
  Stored, create_message-Stored, message_error, create_message-error,
}
use tinder_like_back.Service.Chat.{chat_repository, send}

-- The error that a message to send meets, or none.
abbrev pub send_error : Db → ℕ → ℤ → Text → Option Error
send_error db user chat raw =
    if leb_ℤ chat (pos 0)
    then some invalid_chat_id
    else if is_empty (trim_space raw) || ltb 4000 (byte_len (trim_space raw))
    then some invalid_message_body
    else if not (may_write db user (pos_part chat))
    then some chat_not_found
    else if not (user_exists db user)
    then some (internal Stage.create_message)
    else none

sent_error :
    (db : Db) (user chat : ℕ) (raw : Text)
    → (is_empty (trim_space raw) || ltb 4000 (byte_len (trim_space raw))) ≡ false
    → message_error db user chat (trim_space raw) ≡ (
        if not (may_write db user chat)
        then some chat_not_found
        else if not (user_exists db user)
        then some (internal Stage.create_message)
        else none)
unfolding message_allowed
sent_error db user chat raw h = ground (arith, trim_space-visible raw)

-- Without faults of the driver, Send fails exactly with the error of the first test that the request
-- does not pass: the chat's id, the body without the white space around it, which is to be neither
-- empty nor over 4000 bytes, an active chat of the user with this id, the user's account. Otherwise
-- it succeeds; no constraint of the table refuses a body that the service takes.
pub send-error :
    (env : Env) (user : ℕ) (chat : ℤ) (raw : Text) (db : Db)
    → NoFaults env
    → error_of (send (chat_repository env) user chat raw db).0 ≡ send_error db user chat raw
unfolding send
send-error env user chat raw db f = elim (Bool-cases (leb_ℤ chat (pos 0))) [
  | inl bad ↦ rw bad refl
  | inr good ↦
      elim (Bool-cases (is_empty (trim_space raw) || ltb 4000 (byte_len (trim_space raw)))) [
        | inl bad ↦ rw (good, bad) refl
        | inr body ↦
            rw (good, body)
              (create_message-error env user (pos_part chat) (trim_space raw) db f
                ∙ sent_error db user (pos_part chat) raw body)
      ]
]

abbrev pub Sent : Env → ℕ → ℤ → Text → Db → Result Message × Db → Type 0
Sent env user chat raw db (err e, after) = after ≡ db
Sent env user chat raw db (ok m, after) =
    (leb_ℤ chat (pos 0) ≡ false)
    × (is_empty (trim_space raw) ≡ false)
    × (byte_len (trim_space raw) ≤ 4000)
    × Stored env user (pos_part chat) (trim_space raw) db (ok m, after)

Sent-of :
    (env : Env) (user : ℕ) (chat : ℤ) (raw : Text) (db : Db) (r : Result Message × Db)
    → leb_ℤ chat (pos 0) ≡ false
    → (is_empty (trim_space raw) || ltb 4000 (byte_len (trim_space raw))) ≡ false
    → Stored env user (pos_part chat) (trim_space raw) db r
    → Sent env user chat raw db r
Sent-of env user chat raw db (err e, after) c b s = s
Sent-of env user chat raw db (ok m, after) c b s = (c, ground arith, ground arith, s)

pub send-Sent :
    (env : Env) (user : ℕ) (chat : ℤ) (raw : Text) (db : Db)
    → Sent env user chat raw db (send (chat_repository env) user chat raw db)
unfolding send
send-Sent env user chat raw db = elim (Bool-cases (leb_ℤ chat (pos 0))) [
  | inl bad ↦ rw bad refl
  | inr good ↦
      elim (Bool-cases (is_empty (trim_space raw) || ltb 4000 (byte_len (trim_space raw)))) [
        | inl bad ↦ rw (good, bad) refl
        | inr body ↦
            rw (good, body)
              (Sent-of env user chat raw db _ good body
                (create_message-Stored env user (pos_part chat) (trim_space raw) db))
      ]
]

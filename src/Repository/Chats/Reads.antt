-- ===== src/Repository/Chats/Reads.antt =====
-- MarkRead: what it changes.
use tinder_like_back.Base.{
  ℕ, ◌≡◌, refl, ap, true, false, not, ◌&&◌, ◌==◌, List, [], ◌∷◌, map, filter, any, arith,
}
use tinder_like_back.Models.{Text, Message}
use tinder_like_back.Errors.{Result, ok, err}
use tinder_like_back.Database.{Db, Env}
use tinder_like_back.Repository.Chats.{
  is_chat_participant, is_shown, is_unread_for, set_read, mark_read,
}

-- The messages that a call for this user and chat does not concern.
abbrev pub other_messages : ℕ → ℕ → List Message → List Message
other_messages user chat = filter (λ m. not (is_shown chat m && not (m.sender_id == user)))

-- A message without its state.
abbrev pub text_of : Message → ℕ × Text
text_of m = (m.id, m.body)

abbrev pub Reads : ℕ → ℕ → Db → Result (Unit {0}) × Db → Type 0
Reads user chat db (err e, after) = after ≡ db
Reads user chat db (ok u, after) =
    (is_chat_participant db user chat ≡ true)
    × (any (is_unread_for user chat) after.messages ≡ false)
    × (other_messages user chat after.messages ≡ other_messages user chat db.messages)
    × (map text_of after.messages ≡ map text_of db.messages)
    × (after.chats ≡ db.chats)

none_unread :
    (env : Env) (user chat : ℕ) (ms : List Message)
    → any (is_unread_for user chat) (map (set_read env user chat) ms) ≡ false
unfolding set_read
none_unread env user chat [] = refl
none_unread env user chat (m ∷ ms) = ground (arith, none_unread env user chat ms)

others_kept :
    (env : Env) (user chat : ℕ) (ms : List Message)
    → other_messages user chat (map (set_read env user chat) ms) ≡ other_messages user chat ms
unfolding set_read
others_kept env user chat [] = refl
others_kept env user chat (m ∷ ms) = ground (arith, others_kept env user chat ms)

bodies_kept :
    (env : Env) (user chat : ℕ) (ms : List Message)
    → map text_of (map (set_read env user chat) ms) ≡ map text_of ms
unfolding set_read
bodies_kept env user chat [] = refl
bodies_kept env user chat (m ∷ ms) = ground (arith, bodies_kept env user chat ms)

abbrev pub EndsRead : Env → ℕ → ℕ → Db → Result (Unit {0}) × Db → Type 0
EndsRead env user chat db (err e, after) = after ≡ db
EndsRead env user chat db (ok u, after) =
    (is_chat_participant db user chat ≡ true)
    × (after ≡ record db { messages = map (set_read env user chat) db.messages })

read_ends :
    (env : Env) (user chat : ℕ) (db : Db) (r : Result (Unit {0}) × Db)
    → mark_read env user chat db ≡ r
    → EndsRead env user chat db r
unfolding mark_read
read_ends env user chat db (err e, after) h = ground arith
read_ends env user chat db (ok u, after) h = ground arith

Reads-of :
    (env : Env) (user chat : ℕ) (db : Db) (r : Result (Unit {0}) × Db)
    → EndsRead env user chat db r
    → Reads user chat db r
Reads-of env user chat db (err e, after) h = h
Reads-of env user chat db (ok u, after) h = (
  h.0,
  rw (h.1) (none_unread env user chat db.messages),
  rw (h.1) (others_kept env user chat db.messages),
  rw (h.1) (bodies_kept env user chat db.messages),
  ap (λ d. d.chats) h.1,
)

-- MarkRead either fails and changes nothing, or the user takes part in the chat: then no message of
-- the other user is left unread there, the user's own messages, deleted ones and those of other
-- chats are as before, and no message is lost, added or edited.
pub mark_read-Reads :
    (env : Env) (user chat : ℕ) (db : Db) → Reads user chat db (mark_read env user chat db)
mark_read-Reads env user chat db = Reads-of env user chat db _ (read_ends env user chat db _ refl)

-- ===== src/Repository/Chats/Writes.antt =====
-- CreateMessage: when a message is stored, and what is stored.
use tinder_like_back.Base.{
  ℕ, suc, ◌≡◌, refl, true, not, Option, none, some, ◌∷◌, arith, if◌then◌else◌,
}
use tinder_like_back.Models.{Text, Message}
use tinder_like_back.Errors.{Error, Stage, internal, chat_not_found, Result, ok, err}
use tinder_like_back.Database.{Db, Env}
use tinder_like_back.Repository.Ribbon.Likes.{NoFaults, error_of}
use tinder_like_back.Repository.Chats.{may_write, message_allowed, new_message, create_message}

abbrev pub Stored : Env → ℕ → ℕ → Text → Db → Result Message × Db → Type 0
Stored env user chat body db (err e, after) = after ≡ db
Stored env user chat body db (ok m, after) =
    (may_write db user chat ≡ true)
    × (m ≡ new_message env user chat body db)
    × (after ≡ record db { messages = m ∷ db.messages; next_message_id = suc db.next_message_id })

Stored-of :
    (env : Env) (user chat : ℕ) (body : Text) (db : Db) (r : Result Message × Db)
    → create_message env user chat body db ≡ r
    → Stored env user chat body db r
unfolding create_message
Stored-of env user chat body db (err e, after) h = ground arith
Stored-of env user chat body db (ok m, after) h = ground arith

pub create_message-Stored :
    (env : Env) (user chat : ℕ) (body : Text) (db : Db)
    → Stored env user chat body db (create_message env user chat body db)
create_message-Stored env user chat body db = Stored-of env user chat body db _ refl

-- The error that a message meets, or none.
abbrev pub message_error : Db → ℕ → ℕ → Text → Option Error
message_error db user chat body =
    if not (may_write db user chat)
    then some chat_not_found
    else if not (message_allowed user body db)
    then some (internal Stage.create_message)
    else none

message_error_of :
    (env : Env) (user chat : ℕ) (body : Text) (db : Db) (r : Result Message) (after : Db)
    → NoFaults env
    → create_message env user chat body db ≡ (r, after)
    → error_of r ≡ message_error db user chat body
unfolding create_message
message_error_of env user chat body db r after f h = ground (arith, f Stage.create_message)

pub create_message-error :
    (env : Env) (user chat : ℕ) (body : Text) (db : Db)
    → NoFaults env
    → error_of (create_message env user chat body db).0 ≡ message_error db user chat body
create_message-error env user chat body db f = message_error_of env user chat body db _ _ f refl

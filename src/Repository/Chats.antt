-- ===== src/Repository/Chats.antt =====
-- go-core/internal/repository/chat_repository.go: chats and their messages.
pub mod Reads
pub mod Writes
use tinder_like_back.Base.{
  ℕ, suc, Bool, true, false, not, ◌&&◌, ◌||◌, Option, none, some, List, [], ◌∷◌, map, filter, any,
  take, ltb, leb, ◌==◌, if◌then◌else◌, is_some, find?, filter_map,
}
use tinder_like_back.Base.Tables.{order_by}
use tinder_like_back.Models.{Text, Profile, Chat, ChatPreview, Message}
use tinder_like_back.Errors.{Stage, internal, chat_not_found}
use tinder_like_back.Database.{
  Db, Env, Action, user_exists, pure, ◌>>=◌, ◌>>◌, fail_if, query, exec, control,
}

-- user_1_id = $user OR user_2_id = $user
abbrev pub is_participant : ℕ → Chat → Bool
is_participant user c = c.user_1_id == user || c.user_2_id == user

-- CASE WHEN c.user_1_id = $1 THEN c.user_2_id ELSE c.user_1_id END
abbrev pub partner : ℕ → Chat → ℕ
partner user c = if c.user_1_id == user then c.user_2_id else c.user_1_id

-- JOIN profiles ON p.user_id = …, a unique column.
unfoldable pub find_profile : Db → ℕ → Option Profile
find_profile db user = find? (λ p. p.user_id == user) db.profiles

abbrev pub joined : Chat → Option Profile → Option ChatPreview
joined c none = none
joined c (some p) =
    some (record { chat = c; partner_user_id = p.user_id; partner_full_name = p.full_name })

unfoldable pub chat_preview : Db → ℕ → Chat → Option ChatPreview
chat_preview db user c = joined c (find_profile db (partner user c))

unfoldable pub active_chats : Db → ℕ → ℕ → List ChatPreview
active_chats db user cursor =
    order_by (λ p. p.chat.id)
      (filter_map (chat_preview db user)
        (filter (λ c. (is_participant user c && c.is_active) && ltb cursor c.id) db.chats))

unfoldable pub list_active : Env → ℕ → ℕ → ℕ → Action (List ChatPreview)
list_active env user cursor limit =
    query env Stage.list_active_chats (λ db. take limit (active_chats db user cursor))

unfoldable pub is_chat_participant : Db → ℕ → ℕ → Bool
is_chat_participant db user chat = any (λ c. c.id == chat && is_participant user c) db.chats

unfoldable pub ensure_participant : Env → ℕ → ℕ → Action (Unit {0})
ensure_participant env user chat = do
  exists ← query env Stage.check_chat_participant (λ db. is_chat_participant db user chat)
  fail_if (not exists) chat_not_found

-- chat_id = $1 AND deleted_at IS NULL
abbrev pub is_shown : ℕ → Message → Bool
is_shown chat m = m.chat_id == chat && not (is_some m.deleted_at)

unfoldable pub shown_messages : Db → ℕ → ℕ → List Message
shown_messages db chat cursor =
    order_by (λ m. m.id) (filter (λ m. is_shown chat m && ltb cursor m.id) db.messages)

unfoldable pub list_messages : Env → ℕ → ℕ → ℕ → ℕ → Action (List Message)
unfolding ensure_participant
list_messages env user chat cursor limit = do
  ensure_participant env user chat
  query env Stage.list_messages (λ db. take limit (shown_messages db chat cursor))

-- The chat is there, active, and the user's.
unfoldable pub may_write : Db → ℕ → ℕ → Bool
may_write db user chat = any (λ c. (c.id == chat && c.is_active) && is_participant user c) db.chats

-- CHECK (length(trim(body)) > 0), where SQL's trim takes spaces only, and the sender's foreign key.
unfoldable pub message_allowed : ℕ → Text → Db → Bool
message_allowed user body db = any (λ c. not (c == 32)) body && user_exists db user

unfoldable pub new_message : Env → ℕ → ℕ → Text → Db → Message
new_message env user chat body db = record {
  id = db.next_message_id;
  chat_id = chat;
  sender_id = user;
  body = body;
  is_read = false;
  created_at = env.now;
  updated_at = env.now;
  deleted_at = none;
}

abbrev pub insert_message : Message → Action Message
insert_message m db =
    pure m (record db { messages = m ∷ db.messages; next_message_id = suc db.next_message_id })

-- INSERT INTO messages … SELECT … WHERE EXISTS … RETURNING …; `Scan` on no row is ErrNoRows.
unfoldable pub create_message : Env → ℕ → ℕ → Text → Action Message
unfolding may_write message_allowed new_message
create_message env user chat body = do
  exists ← query env Stage.create_message (λ db. may_write db user chat)
  fail_if (not exists) chat_not_found
  allowed ← (λ db. pure (message_allowed user body db) db)
  fail_if (not allowed) (internal Stage.create_message)
  row ← (λ db. pure (new_message env user chat body db) db)
  insert_message row

-- The rows that MarkRead updates.
abbrev pub is_unread_for : ℕ → ℕ → Message → Bool
is_unread_for user chat m = (is_shown chat m && not (m.sender_id == user)) && not m.is_read

unfoldable pub set_read : Env → ℕ → ℕ → Message → Message
set_read env user chat m =
    if is_unread_for user chat m then record m { is_read = true; updated_at = env.now } else m

-- CHECK (updated_at >= created_at) of the rows that are updated.
unfoldable pub read_allowed : Env → ℕ → ℕ → Db → Bool
read_allowed env user chat db =
    not (any (λ m. is_unread_for user chat m && ltb env.now m.created_at) db.messages)

unfoldable pub mark_read : Env → ℕ → ℕ → Action (Unit {0})
unfolding ensure_participant
mark_read env user chat = do
  ensure_participant env user chat
  exec env Stage.mark_messages_read (read_allowed env user chat)
      (λ db. record db { messages = map (set_read env user chat) db.messages })

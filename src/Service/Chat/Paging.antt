-- ===== src/Service/Chat/Paging.antt =====
-- The limits and cursors that ChatService takes, and a client that reads all pages.
use tinder_like_back.Base.{
  ℕ, suc, ◌<◌, ◌^◌, ◌≡◌, refl, ◌∙◌, true, false, Option, none, some, List, [], arith, All,
  All-filter, filter, length,
}
use tinder_like_back.Base.Int.{pos}
use tinder_like_back.Base.Tables.{order_by, after, SortedFrom, Unique, Unique-filter}
use tinder_like_back.Base.Tables.Sorting.{
  order_by-after, order_by-SortedFrom, order_by-All, same_key,
}
use tinder_like_back.Models.{Text, Message}
use tinder_like_back.Text.{trim_space, format_int}
use tinder_like_back.Text.Cursor.{parse_int-format_int, format_int-not_blank}
use tinder_like_back.Errors.{Error, Stage, Result, ok, err, invalid_chat_cursor}
use tinder_like_back.Database.{Db, Env}
use tinder_like_back.Repository.Chats.{is_chat_participant, is_shown, shown_messages, list_messages}
use tinder_like_back.Service.Page.{Page}
use tinder_like_back.Service.Page.Walk.{page_at, walk, walk-after, after_all}
use tinder_like_back.Service.Chat.{
  ChatPageInput, chat_repository, read_cursor, normalize_chat_page, messages,
}

-- A cursor that was made by FormatInt is read as its number.
pub read_cursor-format_int : (e : Error) (n : ℕ) → n < 2 ^ 63 → read_cursor e (format_int n) ≡ ok n
unfolding read_cursor
read_cursor-format_int e n h = rw (format_int-not_blank n, parse_int-format_int n h)

pub read_cursor-empty : (e : Error) → read_cursor e [] ≡ ok 0
unfolding read_cursor trim_space
read_cursor-empty e = refl

-- The request of a page of `suc m` messages from a cursor.
abbrev pub page_input : ℕ → Text → ChatPageInput
page_input limit cursor = record { limit = pos limit; cursor = cursor }

abbrev pub page_of : {A : Type 0} → Result A → Option A
page_of (ok a) = some a
page_of (err e) = none

unfoldable pub conversation : Db → ℕ → List Message
conversation db chat = order_by (λ m. m.id) (filter (is_shown chat) db.messages)

messages-page_at :
    (env : Env) (db : Db) (user chat m : ℕ) (cursor : Text) (c : ℕ)
    → env.fails Stage.check_chat_participant ≡ false
    → env.fails Stage.list_messages ≡ false
    → is_chat_participant db user (suc chat) ≡ true
    → m < 50
    → read_cursor invalid_chat_cursor cursor ≡ ok c
    → page_of
        (messages (chat_repository env) user (pos (suc chat)) (page_input (suc m) cursor) db).0
      ≡ some (page_at (λ r. r.id) (suc m) (conversation db (suc chat)) c)
unfolding messages list_messages normalize_chat_page shown_messages conversation
messages-page_at env db user chat m cursor c f g p h e =
    ground (arith, order_by-after (λ r. r.id) (is_shown (suc chat)) c db.messages)

-- A participant who reads the messages of a chat page by page, following the cursors, gets every
-- shown message of the chat once, in the order of their ids, for every page size from 1 to 50. The
-- ids are distinct int64 from 1 on, the reads do not fail, nothing is written in between, and the
-- client may read more pages than there are messages.
pub walk-messages :
    (env : Env) (db : Db) (user chat m fuel : ℕ)
    → env.fails Stage.check_chat_participant ≡ false
    → env.fails Stage.list_messages ≡ false
    → is_chat_participant db user (suc chat) ≡ true
    → m < 50
    → All (λ r. 0 < r.id) db.messages
    → All (λ r. r.id < 2 ^ 63) db.messages
    → Unique (same_key (λ r. r.id)) db.messages
    → length (conversation db (suc chat)) < fuel
    → walk
        (λ cursor.
          page_of
            (messages (chat_repository env) user (pos (suc chat)) (page_input (suc m) cursor) db).0)
        fuel
        []
      ≡ conversation db (suc chat)
unfolding conversation
walk-messages env db user chat m fuel f g p h positive bounded unique enough =
    walk-after (λ r. r.id) m rows load
      (λ c below.
        messages-page_at env db user chat m (format_int c) c f g p h
          (read_cursor-format_int invalid_chat_cursor c below))
      sorted (order_by-All (λ r. r.id) _ shown (All-filter _ _ db.messages bounded)) fuel 0 []
      (messages-page_at env db user chat m [] 0 f g p h (read_cursor-empty invalid_chat_cursor))
      (rw all_rows enough)
    ∙ all_rows
  where
    shown : List Message
    shown = filter (is_shown (suc chat)) db.messages

    rows : List Message
    rows = conversation db (suc chat)

    load : Text → Option (Page Message)
    load cursor =
        page_of
          (messages (chat_repository env) user (pos (suc chat)) (page_input (suc m) cursor) db).0

    sorted : SortedFrom (λ r. r.id) 0 rows
    sorted =
        order_by-SortedFrom (λ r. r.id) 0 shown (All-filter _ _ db.messages positive)
          (Unique-filter _ _ db.messages unique)

    all_rows : after (λ r. r.id) 0 rows ≡ rows
    all_rows = after_all (λ r. r.id) 0 0 rows sorted (omega arith)

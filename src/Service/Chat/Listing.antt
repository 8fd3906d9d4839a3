-- ===== src/Service/Chat/Listing.antt =====
-- A client that reads the active chats page by page.
use tinder_like_back.Base.{
  ◌∷◌, ℕ, suc, ◌^◌, ◌<◌, ◌≡◌, refl, ◌∙◌, ap, Bool, true, false, ◌&&◌, Option, some, List, [],
  length, filter, filter_map, All, All-filter, ltb, arith,
}
use tinder_like_back.Base.Tables.{order_by, after, SortedFrom, Unique, Unique-filter}
use tinder_like_back.Base.Tables.Joins.{filter_map-All, filter_map-Unique, filter_map-after}
use tinder_like_back.Base.Tables.Sorting.{
  order_by-after, order_by-SortedFrom, order_by-All, same_key,
}
use tinder_like_back.Models.{Text, Chat, ChatPreview}
use tinder_like_back.Text.{format_int}
use tinder_like_back.Errors.{Stage, invalid_chat_cursor, ok}
use tinder_like_back.Database.{Db, Env}
use tinder_like_back.Repository.Chats.{is_participant, chat_preview, active_chats, list_active}
use tinder_like_back.Service.Page.{Page}
use tinder_like_back.Service.Page.Walk.{page_at, walk, walk-after, after_all}
use tinder_like_back.Service.Chat.{chat_repository, read_cursor, normalize_chat_page, list}
use tinder_like_back.Service.Chat.Paging.{
  page_of, page_input, read_cursor-format_int, read_cursor-empty,
}

abbrev pub preview_id : ChatPreview → ℕ
preview_id p = p.chat.id

abbrev pub is_open_for : ℕ → Chat → Bool
is_open_for user c = is_participant user c && c.is_active

-- The user's active chats with the partners' names, in the order of the chats' ids.
unfoldable pub open_chats : Db → ℕ → List ChatPreview
open_chats db user =
    order_by preview_id (filter_map (chat_preview db user) (filter (is_open_for user) db.chats))

preview_of :
    (db : Db) (user : ℕ) (c : Chat) (p : ChatPreview)
    → chat_preview db user c ≡ some p
    → preview_id p ≡ c.id
unfolding chat_preview
preview_of db user c p h = ground arith

filter_both :
    (user cursor : ℕ) (cs : List Chat)
    → filter (λ c. is_open_for user c && ltb cursor c.id) cs
      ≡ after (λ c. c.id) cursor (filter (is_open_for user) cs)
filter_both user cursor [] = refl
filter_both user cursor (c ∷ cs) = ground (arith, filter_both user cursor cs)

filter-true : (xs : List ChatPreview) → filter (λ p. true) xs ≡ xs
filter-true [] = refl
filter-true (x ∷ xs) = ap (◌∷◌ x) (filter-true xs)

active_chats-open_chats :
    (db : Db) (user cursor : ℕ)
    → active_chats db user cursor ≡ after preview_id cursor (open_chats db user)
unfolding active_chats open_chats
active_chats-open_chats db user cursor =
    ap (λ cs. order_by preview_id (filter_map (chat_preview db user) cs))
      (filter_both user cursor db.chats)
    ∙ ap (order_by preview_id) (
        filter_map-after (chat_preview db user) (λ c. c.id) preview_id (preview_of db user) cursor
          (filter (is_open_for user) db.chats))
    ∙ order_by-after preview_id (λ p. true) cursor _
    ∙ ap (λ ps. after preview_id cursor (order_by preview_id ps)) (filter-true _)

list-page_at :
    (env : Env) (db : Db) (user m : ℕ) (cursor : Text) (c : ℕ)
    → env.fails Stage.list_active_chats ≡ false
    → m < 50
    → read_cursor invalid_chat_cursor cursor ≡ ok c
    → page_of (list (chat_repository env) user (page_input (suc m) cursor) db).0
      ≡ some (page_at preview_id (suc m) (open_chats db user) c)
unfolding list list_active normalize_chat_page
list-page_at env db user m cursor c f h e = ground (arith, active_chats-open_chats db user c)

-- A user who reads the list of chats page by page, following the cursors, gets every active chat
-- of the user whose partner has a profile, once and in the order of the ids, for every page size
-- from 1 to 50. The chats' ids are distinct int64 from 1 on, the reads do not fail, nothing is
-- written in between, and the client may read more pages than there are chats.
pub walk-list :
    (env : Env) (db : Db) (user m fuel : ℕ)
    → env.fails Stage.list_active_chats ≡ false
    → m < 50
    → All (λ c. 0 < c.id) db.chats
    → All (λ c. c.id < 2 ^ 63) db.chats
    → Unique (same_key (λ c. c.id)) db.chats
    → length (open_chats db user) < fuel
    → walk
        (λ cursor. page_of (list (chat_repository env) user (page_input (suc m) cursor) db).0)
        fuel
        []
      ≡ open_chats db user
unfolding open_chats
walk-list env db user m fuel f h positive bounded unique enough =
    walk-after preview_id m rows load
      (λ c below.
        list-page_at env db user m (format_int c) c f h
          (read_cursor-format_int invalid_chat_cursor c below))
      sorted
      (order_by-All preview_id _ _ (
        filter_map-All (chat_preview db user) (λ c. c.id) preview_id (preview_of db user)
          (λ k. k < 2 ^ 63) mine (All-filter _ _ db.chats bounded)))
      fuel 0 [] (list-page_at env db user m [] 0 f h (read_cursor-empty invalid_chat_cursor))
      (rw all_rows enough)
    ∙ all_rows
  where
    mine : List Chat
    mine = filter (is_open_for user) db.chats

    rows : List ChatPreview
    rows = open_chats db user

    load : Text → Option (Page ChatPreview)
    load cursor = page_of (list (chat_repository env) user (page_input (suc m) cursor) db).0

    sorted : SortedFrom preview_id 0 rows
    sorted =
        order_by-SortedFrom preview_id 0 _
          (filter_map-All (chat_preview db user) (λ c. c.id) preview_id (preview_of db user)
            (λ k. 0 < k) mine (All-filter _ _ db.chats positive))
          (filter_map-Unique (chat_preview db user) (λ c. c.id) preview_id (preview_of db user) mine
            (Unique-filter _ _ db.chats unique))

    all_rows : after preview_id 0 rows ≡ rows
    all_rows = after_all preview_id 0 0 rows sorted (omega arith)

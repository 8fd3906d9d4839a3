-- ===== src/Tests/Chats.antt =====
-- The theorems on chats and messages, and on the queue of events, applied.
use tinder_like_back.Base.{◌≡◌, refl, Bool, some, [], ◌∷◌, arith}
use tinder_like_back.Base.Int.{pos}
use tinder_like_back.Base.Tables.{order_by}
use tinder_like_back.Text.{parse_int, format_int}
use tinder_like_back.Text.Cursor.{parse_int-format_int}
use tinder_like_back.Repository.Chats
use tinder_like_back.Repository.Chats.{chat_preview, find_profile, is_chat_participant}
use tinder_like_back.Repository.Chats.Reads.{Reads, mark_read-Reads}
use tinder_like_back.Repository.Ribbon.Likes.{error_of}
use tinder_like_back.Service.Page.Walk.{walk}
use tinder_like_back.Service.Chat.Listing.{open_chats, walk-list}
use tinder_like_back.Service.Chat.Access.{messages_error, read_error, messages-mark_read-error}
use tinder_like_back.Service.Chat.{mark_read, list, ChatPageInput, chat_repository, messages, send}
use tinder_like_back.Service.Chat.Paging.{page_of, page_input, conversation, walk-messages}
use tinder_like_back.Service.Chat.Sending.{send_error, send-error}
use tinder_like_back.Events.{Event, new_publisher, publish}
use tinder_like_back.Events.Delivery.{
  start, later, publishes, IsBounded, count, count_all, Reach-accounted,
}
use tinder_like_back.Tests.{calm, matched}

walk-messages_example :
    walk
      (λ cursor.
        page_of (messages (chat_repository calm) 1 (pos 1) (page_input 1 cursor) matched).0)
      3
      []
    ≡ conversation matched 1
unfolding is_chat_participant conversation order_by
walk-messages_example =
    walk-messages calm matched 1 0 0 3 refl refl refl (omega arith) (omega arith, (omega arith, tt))
      (omega arith, (omega arith, tt)) (refl, (refl, tt)) (omega arith)

abbrev pub ten : ChatPageInput
ten = record { limit = pos 10; cursor = [] }

send-error_example :
    error_of (send (chat_repository calm) 1 (pos 1) (32 ∷ 104 ∷ []) matched).0
    ≡ send_error matched 1 (pos 1) (32 ∷ 104 ∷ [])
send-error_example = send-error calm 1 (pos 1) (32 ∷ 104 ∷ []) matched (λ s. refl)

mark_read-Reads_example : Reads 1 1 matched (Chats.mark_read calm 1 1 matched)
mark_read-Reads_example = mark_read-Reads calm 1 1 matched

parse_int-format_int_example : parse_int (format_int 1203) ≡ some (pos 1203)
parse_int-format_int_example = parse_int-format_int 1203 (omega arith)

abbrev pub swipe_event : Event
swipe_event = record { type = "swipe"; payload = [] }

Reach-accounted_example :
    IsBounded 2 1 (publish swipe_event (publish swipe_event (new_publisher 1)))
    × ((t : Event → Bool)
        → count_all t (publish swipe_event (publish swipe_event (new_publisher 1)))
          ≡ count t (swipe_event ∷ swipe_event ∷ []))
Reach-accounted_example =
    Reach-accounted (later (later start (publishes swipe_event)) (publishes swipe_event))

walk-list_example :
    walk (λ cursor. page_of (list (chat_repository calm) 1 (page_input 1 cursor) matched).0) 2 []
    ≡ open_chats matched 1
unfolding open_chats chat_preview find_profile order_by
walk-list_example =
    walk-list calm matched 1 0 2 refl (omega arith) (omega arith, tt) (omega arith, tt) (refl, tt)
      (omega arith)

messages-mark_read-error_example :
    (error_of (messages (chat_repository calm) 3 (pos 1) ten matched).0
      ≡ messages_error matched 3 (pos 1) ten)
    × (error_of (mark_read (chat_repository calm) 3 (pos 1) matched).0
        ≡ read_error calm matched 3 (pos 1))
messages-mark_read-error_example = messages-mark_read-error calm 3 (pos 1) ten matched (λ s. refl)

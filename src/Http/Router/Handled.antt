-- ===== src/Http/Router/Handled.antt =====
-- What each handler behind RequireJWT does to the tables: after an error, and to the likes, exclusions
-- and chats.
pub mod Ribbons
pub mod Resources
use tinder_like_back.Base.{ℕ, ◌<◌, refl, arith, Option, none, some}
use tinder_like_back.Base.Int.{ℤ}
use tinder_like_back.Geo.{FloatOps}
use tinder_like_back.Models.{Text}
use tinder_like_back.Text.{parse_int}
use tinder_like_back.Database.{Db, Env, Action}
use tinder_like_back.Database.Failures.{reader-IsAtomic, IsAtomic, IsReader}
use tinder_like_back.Repository.Discovery.{get_filters}
use tinder_like_back.Repository.Profiles.{get_by_user_id}
use tinder_like_back.Service.Photos.{ObjectStore, photo_repository}
use tinder_like_back.Service.Photos as PhotoService
use tinder_like_back.Service.Chat as ChatService
use tinder_like_back.Service.Chat.{chat_repository}
use tinder_like_back.Service.Feed.{get_feed, get_incoming_likes}
use tinder_like_back.Service.Feed.Refinement.{feed_repository}
use tinder_like_back.Service.Preferences.{preferences_repository, get_preferences, save_preferences}
use tinder_like_back.Service.Profiles.{SaveProfileInput, profile_repository, get, save, deactivate}
use tinder_like_back.Service.Feed.Reading.{
  get_feed-IsReader, get_incoming_likes-IsReader, get_filters-IsReader, get_profile-IsReader,
}
use tinder_like_back.Service.Failures.{
  save_preferences-IsAtomic, save_profile-IsAtomic, deactivate-IsAtomic, list-IsReader,
  messages-IsReader, send-IsAtomic, mark_read-IsAtomic,
}
use tinder_like_back.Service.Ribbon as RibbonService
use tinder_like_back.Service.Ribbon.{ribbon_repository}
use tinder_like_back.Service.Ribbon.Requests.{
  Request as Command, dislikes, blocks, unblocks, reports, serve,
}
use tinder_like_back.Http.{
  feed_page, likes_page, preferences, like_output, chats_page, messages_page, message, profile,
  photo_items, photo, json_of, no_content_of, run_action, run_call, run_stored, Response, Request,
  FormFile, Gateway, Server,
}
use tinder_like_back.Http.Query.{feed_input, chat_page_input}
use tinder_like_back.Http.Auth.{require_jwt, with_identity, identity, unauthorized, health}
use tinder_like_back.Http.Auth
use tinder_like_back.Http.Ribbon
use tinder_like_back.Http.Profiles
use tinder_like_back.Http.Photos
use tinder_like_back.Http.Photos.{content_type_of}
use tinder_like_back.Http.Chats
use tinder_like_back.Http.Chats.{parse_chat_id, with_chat_id}
use tinder_like_back.Http.Failing.{
  Unchanged, run_action-Unchanged, run_call-Unchanged, run_stored-Unchanged, CallFails, StoredFails,
  like-CallFails, serve-CallFails, list_photos-StoredFails, upload-StoredFails,
  delete_photo-StoredFails,
}
use tinder_like_back.Http.Router.{
  UserRoute, auth_me, feed, incoming_likes, show_preferences, put_preferences, like, dislike, block,
  unblock, report, profile_me, save_profile, delete_profile, list_photos, upload_photo,
  delete_photo, list_chats, messages, send, mark_read, user_handler,
}
use tinder_like_back.Errors.{Error, Result}
use tinder_like_back.Repository.Ribbon.Consistency.{IsConsistent}
use tinder_like_back.Service.Ribbon.{Call}
use tinder_like_back.Service.Related.{
  Same, Same-IsConsistent, Leaves, reader-Leaves, save_preferences-Leaves, save_profile-Leaves,
  deactivate-Leaves, send-Leaves, mark_read-Leaves,
}
use tinder_like_back.Service.Related.Calls.{
  Preserves, like-Preserves, serve-Preserves, list_photos-Same, upload-Same, delete_photo-Same,
}

-- The tables of likes, exclusions and chats stay consistent.
abbrev pub Stays : {S : Type 0} → Server S → Response × Server S → Type 0
Stays s r = IsConsistent s.world.db → IsConsistent r.1.world.db

abbrev pub Handled : {S : Type 0} → Server S → Response × Server S → Type 0
Handled s r = Unchanged s r × Stays s r

module _ {S A : Type 0} (failed : Error → Response) (done : A → Response)
    (succeeds : (a : A) → (done a).status < 400) (s : Server S) where
  pub run_action-Handled :
      (act : Action A) → IsAtomic act → Leaves act → Handled s (run_action failed done act s)
  run_action-Handled act h l = (
    run_action-Unchanged failed done succeeds s act h,
    Same-IsConsistent s.world.db _ (l s.world.db),
  )

  pub run_reader-Handled :
      (act : Action A) → IsReader act → Handled s (run_action failed done act s)
  run_reader-Handled act h = run_action-Handled act (reader-IsAtomic act h) (reader-Leaves act h)

  pub run_call-Handled :
      (call : Call A)
      → CallFails s.world (call s.world)
      → Preserves s.world (call s.world)
      → Handled s (run_call failed done call s)
  run_call-Handled call h l = (run_call-Unchanged failed done succeeds s call h, l)

  pub run_stored-Handled :
      (call : Db × S → Result A × (Db × S))
      → StoredFails s.world.db (call (s.world.db, s.objects))
      → Same s.world.db (call (s.world.db, s.objects)).1.0
      → Handled s (run_stored failed done call s)
  run_stored-Handled call h l =
      (run_stored-Unchanged failed done succeeds s call h, Same-IsConsistent s.world.db _ l)

module _ {S : Type 0} (s : Server S) where
  pub bind_json-Handled :
      {A : Type 0} (input : Option A) (next : A → Server S → Response × Server S)
      → ((a : A) → Handled s (next a s))
      → Handled s (Ribbon.bind_json input next s)
  unfolding Ribbon.bind_error
  bind_json-Handled none next h = ((λ bad. (refl, refl)), λ v. v)
  bind_json-Handled (some a) next h = h a

  pub with_chat_id-Handled :
      (chat : Option ℤ) (next : ℤ → Server S → Response × Server S)
      → ((a : ℤ) → Handled s (next a s))
      → Handled s (with_chat_id chat next s)
  with_chat_id-Handled none next h = ((λ bad. (refl, refl)), λ v. v)
  with_chat_id-Handled (some a) next h = h a

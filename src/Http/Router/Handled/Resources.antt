-- ===== src/Http/Router/Handled/Resources.antt =====
-- The handlers of /profiles and /chats.
use tinder_like_back.Base.{ℕ, refl, arith, Option, none, some}
use tinder_like_back.Base.Int.{ℤ}
use tinder_like_back.Geo.{FloatOps}
use tinder_like_back.Models.{Text}
use tinder_like_back.Text.{parse_int}
use tinder_like_back.Database.{Env}
use tinder_like_back.Repository.Profiles.{get_by_user_id}
use tinder_like_back.Service.Photos.{ObjectStore, photo_repository}
use tinder_like_back.Service.Photos as PhotoService
use tinder_like_back.Service.Chat as ChatService
use tinder_like_back.Service.Chat.{chat_repository}
use tinder_like_back.Service.Profiles.{SaveProfileInput, profile_repository, get, save, deactivate}
use tinder_like_back.Service.Feed.Reading.{get_profile-IsReader}
use tinder_like_back.Service.Failures.{
  save_profile-IsAtomic, deactivate-IsAtomic, list-IsReader, messages-IsReader, send-IsAtomic,
  mark_read-IsAtomic,
}
use tinder_like_back.Http.{
  chats_page, messages_page, message, profile, photo_items, photo, json_of, no_content_of, Response,
  Request, FormFile, Gateway, Server,
}
use tinder_like_back.Http.Query.{chat_page_input}
use tinder_like_back.Http.Profiles
use tinder_like_back.Http.Photos
use tinder_like_back.Http.Photos.{content_type_of}
use tinder_like_back.Http.Chats
use tinder_like_back.Http.Chats.{parse_chat_id, with_chat_id}
use tinder_like_back.Http.Failing.{
  list_photos-StoredFails, upload-StoredFails, delete_photo-StoredFails,
}
use tinder_like_back.Http.Router.{
  UserRoute, profile_me, save_profile, delete_profile, list_photos, upload_photo, delete_photo,
  list_chats, messages, send, mark_read, user_handler,
}
use tinder_like_back.Service.Related.{
  save_profile-Leaves, deactivate-Leaves, send-Leaves, mark_read-Leaves,
}
use tinder_like_back.Service.Related.Calls.{list_photos-Same, upload-Same, delete_photo-Same}
use tinder_like_back.Http.Router.Handled.{
  Handled, run_action-Handled, run_reader-Handled, run_stored-Handled, with_chat_id-Handled,
}

module _ (gateway : Gateway) (env : Env) (fl : FloatOps) (fuel : ℕ) {S : Type 0}
    (storage : ObjectStore S) (user : ℕ) (email : Text) (req : Request) (s : Server S) where
  -- The response and the state of a route's handler.
  abbrev at : UserRoute → Response × Server S
  at route = user_handler gateway env fl fuel storage route user email req s

  save_bound-Handled :
      (input : Option SaveProfileInput)
      → Handled s
          (Profiles.save_bound gateway fl env.today (profile_repository fl env) user input s)
  save_bound-Handled none = ((λ bad. (refl, refl)), λ v. v)
  save_bound-Handled (some input) =
      run_action-Handled Profiles.profile_error (json_of 200 profile) (λ a. omega arith) s
        (save fl (profile_repository fl env) env.today user input)
        (save_profile-IsAtomic env user fl env.today input)
        (save_profile-Leaves env user fl env.today input)

  pub profiles-Handled :
      Handled s (at profile_me) × Handled s (at save_profile) × Handled s (at delete_profile)
  unfolding user_handler Profiles.me Profiles.save_me Profiles.delete_me get
  profiles-Handled = (
    run_reader-Handled Profiles.profile_error (json_of 200 profile) (λ a. omega arith) s
        (get_by_user_id env user) (get_profile-IsReader env user),
    save_bound-Handled (gateway.bind_profile req.body),
    run_action-Handled Profiles.profile_error no_content_of (λ a. omega arith) s
        (deactivate fl (profile_repository fl env) user) (deactivate-IsAtomic env user fl)
        (deactivate-Leaves env user fl),
  )

  upload_form-Handled :
      (file : Option FormFile)
      → Handled s (Photos.upload_form gateway storage (photo_repository env) user file s)
  upload_form-Handled none = ((λ bad. (refl, refl)), λ v. v)
  upload_form-Handled (some file) = opened file.content
    where
      opened :
          (content : Option Text)
          → Handled s
              (Photos.upload_opened gateway storage (photo_repository env) user file content s)
      opened none = ((λ bad. (refl, refl)), λ v. v)
      opened (some content) =
          run_stored-Handled Photos.photo_error (json_of 201 photo) (λ a. omega arith) s
            (PhotoService.upload storage (photo_repository env) user (content_type_of gateway file)
              file.size content gateway.new_key)
            (upload-StoredFails storage env user (content_type_of gateway file) file.size content
              gateway.new_key s.world.db s.objects)
            (upload-Same storage env user s.world.db s.objects (content_type_of gateway file)
              file.size content gateway.new_key)

  delete_parsed-Handled :
      (id : Option ℤ)
      → Handled s (Photos.delete_parsed gateway storage (photo_repository env) user id s)
  delete_parsed-Handled none = ((λ bad. (refl, refl)), λ v. v)
  delete_parsed-Handled (some id) =
      run_stored-Handled Photos.photo_error no_content_of (λ a. omega arith) s
        (PhotoService.delete_photo storage (photo_repository env) user id)
        (delete_photo-StoredFails storage env user id s.world.db s.objects)
        (delete_photo-Same storage env user s.world.db s.objects id)

  pub photos-Handled :
      Handled s (at list_photos) × Handled s (at upload_photo) × Handled s (at delete_photo)
  unfolding user_handler Photos.list_me Photos.upload_me Photos.delete_me
  photos-Handled = (
    run_stored-Handled Photos.photo_error (json_of 200 photo_items) (λ a. omega arith) s
        (PhotoService.list_photos storage (photo_repository env) user)
        (list_photos-StoredFails storage env user s.world.db s.objects)
        (list_photos-Same storage env user s.world.db s.objects),
    upload_form-Handled (gateway.form_file req.body),
    delete_parsed-Handled (parse_int req.param),
  )

  send_bound-Handled :
      (chat : ℤ) (body : Option Text)
      → Handled s (Chats.send_bound gateway (chat_repository env) user chat body s)
  send_bound-Handled chat none = ((λ bad. (refl, refl)), λ v. v)
  send_bound-Handled chat (some body) =
      run_action-Handled Chats.chat_error (json_of 201 message) (λ a. omega arith) s
        (ChatService.send (chat_repository env) user chat body) (send-IsAtomic env user chat body)
        (send-Leaves env user chat body)

  pub chats-Handled :
      Handled s (at list_chats)
      × Handled s (at messages)
      × Handled s (at send)
      × Handled s (at mark_read)
  unfolding user_handler Chats.list Chats.messages Chats.send Chats.mark_read
  chats-Handled = (
    run_reader-Handled Chats.chat_error (json_of 200 chats_page) (λ a. omega arith) s
        (ChatService.list (chat_repository env) user (chat_page_input req))
        (list-IsReader env user (chat_page_input req)),
    with_chat_id-Handled s (parse_chat_id req) _ (λ chat.
        run_reader-Handled Chats.chat_error (json_of 200 messages_page) (λ a. omega arith) s
          (ChatService.messages (chat_repository env) user chat (chat_page_input req))
          (messages-IsReader env user chat (chat_page_input req))),
    with_chat_id-Handled s (parse_chat_id req) _
        (λ chat. send_bound-Handled chat (gateway.bind_message req.body)),
    with_chat_id-Handled s (parse_chat_id req) _ (λ chat.
        run_action-Handled Chats.chat_error no_content_of (λ u. omega arith) s
          (ChatService.mark_read (chat_repository env) user chat) (mark_read-IsAtomic env user chat)
          (mark_read-Leaves env user chat)),
  )

-- ===== src/Http/Router/Handlers.antt =====
-- All handlers behind RequireJWT.
use tinder_like_back.Base.{ℕ, arith}
use tinder_like_back.Geo.{FloatOps}
use tinder_like_back.Models.{Text}
use tinder_like_back.Database.{Env}
use tinder_like_back.Service.Photos.{ObjectStore}
use tinder_like_back.Http.{Request, Gateway, Server}
use tinder_like_back.Http.Auth.{require_jwt, with_identity, identity, unauthorized, health}
use tinder_like_back.Http.Auth
use tinder_like_back.Http.Router.{
  UserRoute, auth_me, feed, incoming_likes, show_preferences, put_preferences, like, dislike, block,
  unblock, report, profile_me, save_profile, delete_profile, list_photos, upload_photo,
  delete_photo, list_chats, messages, send, mark_read, user_handler,
}
use tinder_like_back.Http.Router.Handled.{Handled}
use tinder_like_back.Http.Router.Handled.Ribbons.{
  like-Handled, ribbon-Handled, feeds-Handled, preferences-Handled,
}
use tinder_like_back.Http.Router.Handled.Resources.{profiles-Handled, photos-Handled, chats-Handled}

module _ (gateway : Gateway) (env : Env) (fl : FloatOps) (fuel : ℕ) {S : Type 0}
    (storage : ObjectStore S) (user : ℕ) (email : Text) (req : Request) (s : Server S) where
  pub user_handler-Handled :
      (route : UserRoute)
      → Handled s (user_handler gateway env fl fuel storage route user email req s)
  unfolding user_handler Auth.me
  user_handler-Handled auth_me = ((λ bad. absurd (omega arith)), λ v. v)
  user_handler-Handled feed = (feeds-Handled gateway env fl fuel storage user email req s).0
  user_handler-Handled incoming_likes =
      (feeds-Handled gateway env fl fuel storage user email req s).1
  user_handler-Handled show_preferences =
      (preferences-Handled gateway env fl fuel storage user email req s).0
  user_handler-Handled put_preferences =
      (preferences-Handled gateway env fl fuel storage user email req s).1
  user_handler-Handled like = like-Handled gateway env fl fuel storage user email req s
  user_handler-Handled dislike = (ribbon-Handled gateway env fl fuel storage user email req s).0
  user_handler-Handled block = (ribbon-Handled gateway env fl fuel storage user email req s).1
  user_handler-Handled unblock = (ribbon-Handled gateway env fl fuel storage user email req s).2
  user_handler-Handled report = (ribbon-Handled gateway env fl fuel storage user email req s).3
  user_handler-Handled profile_me =
      (profiles-Handled gateway env fl fuel storage user email req s).0
  user_handler-Handled save_profile =
      (profiles-Handled gateway env fl fuel storage user email req s).1
  user_handler-Handled delete_profile =
      (profiles-Handled gateway env fl fuel storage user email req s).2
  user_handler-Handled list_photos = (photos-Handled gateway env fl fuel storage user email req s).0
  user_handler-Handled upload_photo =
      (photos-Handled gateway env fl fuel storage user email req s).1
  user_handler-Handled delete_photo =
      (photos-Handled gateway env fl fuel storage user email req s).2
  user_handler-Handled list_chats = (chats-Handled gateway env fl fuel storage user email req s).0
  user_handler-Handled messages = (chats-Handled gateway env fl fuel storage user email req s).1
  user_handler-Handled send = (chats-Handled gateway env fl fuel storage user email req s).2
  user_handler-Handled mark_read = (chats-Handled gateway env fl fuel storage user email req s).3

-- ===== src/Http/Router.antt =====
-- router.go: the routes, and the server over the repositories.
pub mod Guarded
pub mod Handled
pub mod Handlers
pub mod Unchanged
pub mod Consistent
pub mod Statuses
pub mod Hidden
use Prim.Native.String.{String}
use text.Mathlib.Text.{◌==◌ as str_eq}
use tinder_like_back.Base.{
  ℕ, Bool, true, false, ◌&&◌, Option, none, some, List, [], ◌∷◌, ◌++◌, map, find?,
}
use tinder_like_back.Models.{Date}
use tinder_like_back.Geo.{FloatOps}
use tinder_like_back.Database.{Env}
use tinder_like_back.Service.Ribbon.{ribbon_repository}
use tinder_like_back.Service.Feed.Refinement.{feed_repository}
use tinder_like_back.Service.Preferences.{preferences_repository}
use tinder_like_back.Service.Profiles.{profile_repository}
use tinder_like_back.Service.Photos.{ObjectStore, photo_repository}
use tinder_like_back.Service.Chat.{chat_repository}
use tinder_like_back.Http.{
  error_literal, Response, Request, Gateway, Server, Handler, UserHandler, json,
}
use tinder_like_back.Http.Auth.{health, require_jwt}
use tinder_like_back.Http.Auth
use tinder_like_back.Http.Ribbon
use tinder_like_back.Http.Profiles
use tinder_like_back.Http.Photos
use tinder_like_back.Http.Chats

-- The handlers behind RequireJWT.
pub data UserRoute : Type 0 where
  auth_me : UserRoute
  feed incoming_likes show_preferences put_preferences : UserRoute
  like dislike block unblock report : UserRoute
  profile_me save_profile delete_profile : UserRoute
  list_photos upload_photo delete_photo : UserRoute
  list_chats messages send mark_read : UserRoute

pub data Route : Type 0 where
  health_check register login : Route
  protected : UserRoute → Route

-- A method, the segments of a pattern, and the handler.
pub record Registration : Type 0 where
  pub method : String
  pub pattern : List String
  pub route : Route

abbrev on : String → List String → Route → Registration
on method pattern route = record { method = method; pattern = pattern; route = route }

-- A group adds its prefix.
abbrev prefixed : List String → Registration → Registration
prefixed prefix r = record r { pattern = prefix ++ r.pattern }

abbrev group : List String → List Registration → List Registration
group prefix = map (prefixed prefix)

abbrev guarded : String → List String → UserRoute → Registration
guarded method pattern route = on method pattern (protected route)

abbrev ribbon_routes : List Registration
ribbon_routes = group ("ribbon" ∷ []) (
    guarded "GET" [] feed
    ∷ guarded "GET" ("likes" ∷ []) incoming_likes
    ∷ guarded "GET" ("preferences" ∷ []) show_preferences
    ∷ guarded "PUT" ("preferences" ∷ []) put_preferences
    ∷ guarded "POST" ("likes" ∷ []) like
    ∷ guarded "POST" ("dislikes" ∷ []) dislike
    ∷ guarded "POST" ("blocks" ∷ []) block
    ∷ guarded "DELETE" ("blocks" ∷ []) unblock
    ∷ guarded "POST" ("reports" ∷ []) report
    ∷ [])

abbrev profile_routes : List Registration
profile_routes = group ("profiles" ∷ []) (
    guarded "GET" ("me" ∷ []) profile_me
    ∷ guarded "PUT" ("me" ∷ []) save_profile
    ∷ guarded "DELETE" ("me" ∷ []) delete_profile
    ∷ guarded "GET" ("me" ∷ "photos" ∷ []) list_photos
    ∷ guarded "POST" ("me" ∷ "photos" ∷ []) upload_photo
    ∷ guarded "DELETE" ("me" ∷ "photos" ∷ ":photo_id" ∷ []) delete_photo
    ∷ [])

abbrev chat_routes : List Registration
chat_routes = group ("chats" ∷ []) (
    guarded "GET" [] list_chats
    ∷ guarded "GET" (":chat_id" ∷ "messages" ∷ []) messages
    ∷ guarded "POST" (":chat_id" ∷ "messages" ∷ []) send
    ∷ guarded "POST" (":chat_id" ∷ "read" ∷ []) mark_read
    ∷ [])

abbrev auth_routes : List Registration
auth_routes = group ("auth" ∷ []) (
    on "POST" ("register" ∷ []) register
    ∷ on "POST" ("login" ∷ []) login
    ∷ guarded "GET" ("me" ∷ []) auth_me
    ∷ [])

-- NewRouter. No two patterns of a method take the same path, so the order does not matter.
unfoldable pub routes : List Registration
routes =
    on "GET" ("health" ∷ []) health_check
    ∷ group ("api" ∷ "v1" ∷ []) (auth_routes ++ ribbon_routes ++ profile_routes ++ chat_routes)

module _ (gateway : Gateway) (env : Env) (fl : FloatOps) (fuel : ℕ) {S : Type 0}
    (storage : ObjectStore S) where
  unfoldable pub user_handler : UserRoute → UserHandler S
  user_handler auth_me = Auth.me gateway
  user_handler feed = Ribbon.feed gateway env fl fuel (feed_repository fl env)
  user_handler incoming_likes = Ribbon.incoming_likes gateway env fl fuel (feed_repository fl env)
  user_handler show_preferences =
      Ribbon.show_preferences gateway env fl fuel (preferences_repository env)
  user_handler put_preferences =
      Ribbon.put_preferences gateway env fl fuel (preferences_repository env)
  user_handler like = Ribbon.like gateway env fl fuel (ribbon_repository env)
  user_handler dislike = Ribbon.dislike gateway env fl fuel (ribbon_repository env)
  user_handler block = Ribbon.block gateway env fl fuel (ribbon_repository env)
  user_handler unblock = Ribbon.unblock gateway env fl fuel (ribbon_repository env)
  user_handler report = Ribbon.report gateway env fl fuel (ribbon_repository env)
  user_handler profile_me = Profiles.me gateway fl env.today (profile_repository fl env)
  user_handler save_profile = Profiles.save_me gateway fl env.today (profile_repository fl env)
  user_handler delete_profile = Profiles.delete_me gateway fl env.today (profile_repository fl env)
  user_handler list_photos = Photos.list_me gateway storage (photo_repository env)
  user_handler upload_photo = Photos.upload_me gateway storage (photo_repository env)
  user_handler delete_photo = Photos.delete_me gateway storage (photo_repository env)
  user_handler list_chats = Chats.list gateway (chat_repository env)
  user_handler messages = Chats.messages gateway (chat_repository env)
  user_handler send = Chats.send gateway (chat_repository env)
  user_handler mark_read = Chats.mark_read gateway (chat_repository env)

  unfoldable pub handle : Route → Handler S
  unfolding user_handler
  handle health_check = health
  handle register = Auth.register gateway
  handle login = Auth.login gateway
  handle (protected route) = require_jwt gateway (user_handler route)

  abbrev pub handle_found : Option Registration → Handler S
  handle_found none req s = (gateway.no_route req, s)
  handle_found (some r) req s = handle r.route req s

  -- The registration whose method and pattern take the request.
  abbrev pub takes : Request → Registration → Bool
  takes req r = str_eq r.method req.method && gateway.matches r.pattern req.path

  unfoldable pub dispatch : Handler S
  unfolding routes handle
  dispatch req s = handle_found (find? (takes req) routes) req s

-- ===== src/Http.antt =====
-- go-core/internal/transport/http: requests, responses, and what the handlers need of the libraries.
-- Gin's encoding and decoding of JSON and of forms, its matching of paths, and go-auth are
-- parameters: the fields of `Gateway`.
pub mod Query
pub mod Auth
pub mod Ribbon
pub mod Chats
pub mod Profiles
pub mod Photos
pub mod Failing
pub mod Router
use Prim.Native.String.{String}
use tinder_like_back.Base.{ℕ, Bool, Option, none, some, List}
use tinder_like_back.Base.Int.{ℤ}
use tinder_like_back.Models.{Text, DiscoveryPreferences, ChatPreview, Message, Profile, UserPhoto}
use tinder_like_back.Errors.{Error, Result, ok, err}
use tinder_like_back.Database.{Db, Action}
use tinder_like_back.Platform.Accounts.{StorageUser}
use tinder_like_back.Service.Page.{Page}
use tinder_like_back.Service.Feed.{FeedItem}
use tinder_like_back.Service.Preferences.{SavePreferencesInput}
use tinder_like_back.Service.Profiles.{SaveProfileInput}
use tinder_like_back.Service.Ribbon.{World, Call, LikeOutput}

-- What c.JSON is given. A feed is `none` if the fuel of its loop ran out.
pub data Body : Type 0 where
  no_body : Body
  error_literal : String → Body
  -- err.Error()
  error_text : Error → Body
  health_status : String → Body
  access_token : Text → String → StorageUser → Body
  user_dto : Text → Text → Body
  feed_page : Option (Page FeedItem) → Body
  likes_page : Page FeedItem → Body
  preferences : DiscoveryPreferences → Body
  like_output : LikeOutput → Body
  chats_page : Page ChatPreview → Body
  messages_page : Page Message → Body
  message : Message → Body
  profile : Profile → Body
  photo_items : List UserPhoto → Body
  photo : UserPhoto → Body

pub record Response : Type 0 where
  pub status : ℕ
  pub body : Body

-- `param` is the one parameter of the path, if the route has one.
pub record Request : Type 0 where
  pub method : String
  pub path : Text
  pub authorization : Text
  pub query : String → Option Text
  pub param : Text
  pub body : Text

-- The claims of an access token.
pub record Claims : Type 0 where
  pub user_id : Text
  pub email : Text

pub record Credentials : Type 0 where
  pub email : Text
  pub password : Text

pub record ReportInput : Type 0 where
  pub target_user_id : ℤ
  pub reason : ℤ
  pub comment : Text

-- A file of a form; `content` is `none` if it cannot be opened.
pub record FormFile : Type 0 where
  pub content_type : Text
  pub filename : Text
  pub size : ℤ
  pub content : Option Text

-- The errors of basic.Authenticator that the handlers tell apart.
pub data AuthError : Type 0 where
  user_exists already_exists weak_password invalid_credentials other : AuthError

pub data AuthResult : Type 0 where
  authenticated : StorageUser → AuthResult
  refused : AuthError → AuthResult

pub record Gateway : Type 0 where
  -- go-auth: the claims of an Authorization header, a new token, and the accounts.
  pub claims : Text → Option Claims
  pub generate : StorageUser → Option Text
  pub register : Text → Text → Db → AuthResult × Db
  pub authenticate : Text → Text → Db → AuthResult × Db
  -- strings.ToLower, by the tables of Unicode.
  pub to_lower : Text → Text
  -- ShouldBindJSON
  pub bind_register : Text → Option Credentials
  pub bind_login : Text → Option Credentials
  pub bind_target : Text → Option ℤ
  pub bind_report : Text → Option ReportInput
  pub bind_preferences : Text → Option SavePreferencesInput
  pub bind_profile : Text → Option SaveProfileInput
  pub bind_message : Text → Option Text
  -- FormFile("photo"), and the media type of a file name's extension.
  pub form_file : Text → Option FormFile
  pub extension_type : Text → Text
  -- What randomPhotoKey returns.
  pub new_key : Option Text
  -- Whether gin takes a path for a pattern, which is the list of its segments.
  pub matches : List String → Text → Bool
  -- gin's answer to a request that no route takes: 404, or a redirect to the path with or without its
  -- last slash.
  pub no_route : Request → Response

-- The state of the services, and that of the object store.
pub record Server (S : Type 0) : Type 0 where
  pub world : World
  pub objects : S

abbrev pub Handler : Type 0 → Type 0
Handler S = Request → Server S → Response × Server S

-- The handler of a user whom the token names.
abbrev pub UserHandler : Type 0 → Type 0
UserHandler S = ℕ → Text → Handler S

abbrev pub json : ℕ → Body → Response
json status body = record { status = status; body = body }

-- c.Status(http.StatusNoContent)
abbrev pub no_content : Response
no_content = json 204 no_body

abbrev pub json_of : {A : Type 0} → ℕ → (A → Body) → A → Response
json_of status body a = json status (body a)

abbrev pub no_content_of : Unit {0} → Response
no_content_of u = no_content

abbrev pub answer : {A : Type 0} → (Error → Response) → (A → Response) → Result A → Response
answer failed done (ok a) = done a
answer failed done (err e) = failed e

module _ {S A : Type 0} (failed : Error → Response) (done : A → Response) where
  -- A call of a service, and the response to its result.
  abbrev pub run_action : Action A → Server S → Response × Server S
  run_action act s =
      let r = act s.world.db in
      (answer failed done r.0, record s { world = record (s.world) { db = r.1 } })

  abbrev pub run_call : Call A → Server S → Response × Server S
  run_call call s = let r = call s.world in (answer failed done r.0, record s { world = r.1 })

  abbrev pub run_stored : (Db × S → Result A × (Db × S)) → Server S → Response × Server S
  run_stored call s =
      let r = call (s.world.db, s.objects) in
      (
        answer failed done r.0,
        record s { world = record (s.world) { db = r.1.0 }; objects = r.1.1 },
      )

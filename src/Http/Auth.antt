-- ===== src/Http/Auth.antt =====
-- handlers/auth.go, handlers/health.go and middleware/auth.go.
use tinder_like_back.Base.{ℕ, zero, suc, Option, none, some}
use tinder_like_back.Base.Int.{ℤ, pos, negsuc}
use tinder_like_back.Models.{Text}
use tinder_like_back.Text.{trim_space, parse_int, format_int}
use tinder_like_back.Database.{Db}
use tinder_like_back.Platform.Accounts.{StorageUser}
use tinder_like_back.Http.{
  error_literal, health_status, access_token, user_dto, Response, Request, Claims, Credentials,
  AuthError, user_exists, already_exists, weak_password, invalid_credentials, other, AuthResult,
  authenticated, refused, Gateway, Server, Handler, UserHandler, json,
}

unfoldable pub health : {S : Type 0} → Handler S
health req s = (json 200 (health_status "ok"), s)

-- jsonAuthError
unfoldable pub unauthorized : Response
unauthorized = json 401 (error_literal "unauthorized")

-- `err != nil || userID < 1`
abbrev pub checked_id : Text → Option ℤ → Option (ℕ × Text)
checked_id email none = none
checked_id email (some (pos zero)) = none
checked_id email (some (pos (suc n))) = some (suc n, email)
checked_id email (some (negsuc n)) = none

abbrev pub checked_claims : Option Claims → Option (ℕ × Text)
checked_claims none = none
checked_claims (some c) = checked_id c.email (parse_int c.user_id)

unfoldable pub register_error : AuthError → Response
register_error user_exists = json 409 (error_literal "email is already registered")
register_error already_exists = json 409 (error_literal "email is already registered")
register_error weak_password =
    json 400 (error_literal "password must contain at least 8 characters")
register_error invalid_credentials = json 500 (error_literal "could not register user")
register_error other = json 500 (error_literal "could not register user")

unfoldable pub login_error : AuthError → Response
login_error invalid_credentials = json 401 (error_literal "invalid email or password")
login_error _ = json 500 (error_literal "could not authenticate user")

module _ (gateway : Gateway) where
  abbrev pub token_response : ℕ → StorageUser → Option Text → Response
  token_response status user none = json 500 (error_literal "could not create access token")
  token_response status user (some token) = json status (access_token token "Bearer" user)

  unfoldable pub respond_with_access_token : ℕ → StorageUser → Response
  respond_with_access_token status user = token_response status user (gateway.generate user)

  -- What the token of a request says of the user, once it is trusted.
  unfoldable pub identity : Request → Option (ℕ × Text)
  identity req = checked_claims (gateway.claims req.authorization)

  module _ {S : Type 0} where
    abbrev pub with_identity : UserHandler S → Option (ℕ × Text) → Handler S
    with_identity next none req s = (unauthorized, s)
    with_identity next (some (user, email)) req s = next user email req s

    unfoldable pub require_jwt : UserHandler S → Handler S
    unfolding identity
    require_jwt next req s = with_identity next (identity req) req s

    abbrev pub set_db : Server S → Db → Server S
    set_db s db = record s { world = record (s.world) { db = db } }

    abbrev pub accounts_response :
        ℕ → (AuthError → Response) → Server S → AuthResult × Db → Response × Server S
    accounts_response status failed s (authenticated user, db) =
        (respond_with_access_token status user, set_db s db)
    accounts_response status failed s (refused e, db) = (failed e, set_db s db)

    abbrev pub register_bound : Option Credentials → Server S → Response × Server S
    register_bound none s =
        (json 400 (error_literal "email and password (minimum 8 characters) are required"), s)
    register_bound (some c) s =
        accounts_response 201 register_error s
          (gateway.register (gateway.to_lower (trim_space c.email)) c.password s.world.db)

    unfoldable pub register : Handler S
    unfolding register_error respond_with_access_token
    register req s = register_bound (gateway.bind_register req.body) s

    abbrev pub login_bound : Option Credentials → Server S → Response × Server S
    login_bound none s = (json 400 (error_literal "email and password are required"), s)
    login_bound (some c) s =
        accounts_response 200 login_error s
          (gateway.authenticate (gateway.to_lower (trim_space c.email)) c.password s.world.db)

    unfoldable pub login : Handler S
    unfolding login_error respond_with_access_token
    login req s = login_bound (gateway.bind_login req.body) s

    unfoldable pub me : UserHandler S
    me user email req s = (json 200 (user_dto (format_int user) email), s)

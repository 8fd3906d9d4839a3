-- ===== src/Http/Router/Unchanged.antt =====
-- Requests that are answered with an error.
use tinder_like_back.Base.{ℕ, ◌≡◌, refl, Bool, true, false, Option, none, some, find?}
use tinder_like_back.Geo.{FloatOps}
use tinder_like_back.Models.{Text}
use tinder_like_back.Database.{Env}
use tinder_like_back.Service.Photos.{ObjectStore}
use tinder_like_back.Http.{Request, Gateway, Server}
use tinder_like_back.Http.Auth.{identity, require_jwt, with_identity, health}
use tinder_like_back.Http.Failing.{Unchanged}
use tinder_like_back.Http.Router.{
  UserRoute, Route, health_check, register, login, protected, Registration, user_handler, handle,
  handle_found, takes, routes, dispatch,
}
use tinder_like_back.Http.Router.Handlers.{user_handler-Handled}

-- Registration and login leave the tables to go-auth.
abbrev pub is_account_route : Route → Bool
is_account_route register = true
is_account_route login = true
is_account_route health_check = false
is_account_route (protected route) = false

abbrev pub is_account_call : Option Registration → Bool
is_account_call none = false
is_account_call (some r) = is_account_route r.route

module _ (gateway : Gateway) (env : Env) (fl : FloatOps) (fuel : ℕ) {S : Type 0}
    (storage : ObjectStore S) (req : Request) (s : Server S) where
  identified-Unchanged :
      (route : UserRoute) (who : Option (ℕ × Text))
      → Unchanged s
          (with_identity gateway (user_handler gateway env fl fuel storage route) who req s)
  identified-Unchanged route none = λ bad. (refl, refl)
  identified-Unchanged route (some (user, email)) =
      (user_handler-Handled gateway env fl fuel storage user email req s route).0

  handle-Unchanged :
      (route : Route)
      → is_account_route route ≡ false
      → Unchanged s (handle gateway env fl fuel storage route req s)
  unfolding handle require_jwt health
  handle-Unchanged health_check h = λ bad. (refl, refl)
  handle-Unchanged register h = absurd cc
  handle-Unchanged login h = absurd cc
  handle-Unchanged (protected route) h = identified-Unchanged route (identity gateway req)

  found-Unchanged :
      (r : Option Registration)
      → is_account_call r ≡ false
      → Unchanged s (handle_found gateway env fl fuel storage r req s)
  found-Unchanged none h = λ bad. (refl, refl)
  found-Unchanged (some r) h = handle-Unchanged r.route h

  -- A request that is answered with a status of 400 or more, other than a registration and a login,
  -- changes no table and publishes nothing.
  pub dispatch-Unchanged :
      is_account_call (find? (takes gateway env fl fuel storage req) routes) ≡ false
      → Unchanged s (dispatch gateway env fl fuel storage req s)
  unfolding dispatch
  dispatch-Unchanged h = found-Unchanged (find? (takes gateway env fl fuel storage req) routes) h

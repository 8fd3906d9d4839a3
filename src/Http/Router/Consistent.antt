-- ===== src/Http/Router/Consistent.antt =====
-- Requests one after another, and the tables of likes, exclusions and chats.
use tinder_like_back.Base.{ℕ, ◌≡◌, false, Option, none, some, List, [], ◌∷◌, find?, All}
use tinder_like_back.Geo.{FloatOps}
use tinder_like_back.Models.{Text}
use tinder_like_back.Database.{Env}
use tinder_like_back.Repository.Ribbon.Consistency.{IsConsistent}
use tinder_like_back.Service.Photos.{ObjectStore}
use tinder_like_back.Http.{Request, Gateway, Server}
use tinder_like_back.Http.Auth.{identity, require_jwt, with_identity, health}
use tinder_like_back.Http.Router.{
  UserRoute, Route, health_check, register, login, protected, Registration, user_handler, handle,
  handle_found, takes, routes, dispatch,
}
use tinder_like_back.Http.Router.Handled.{Stays}
use tinder_like_back.Http.Router.Handlers.{user_handler-Handled}
use tinder_like_back.Http.Router.Unchanged.{is_account_route, is_account_call}

module _ (gateway : Gateway) (fl : FloatOps) (fuel : ℕ) {S : Type 0} (storage : ObjectStore S) where
  identified-Stays :
      (env : Env) (req : Request) (s : Server S) (route : UserRoute) (who : Option (ℕ × Text))
      → Stays s (with_identity gateway (user_handler gateway env fl fuel storage route) who req s)
  identified-Stays env req s route none v = v
  identified-Stays env req s route (some (user, email)) v =
      (user_handler-Handled gateway env fl fuel storage user email req s route).1 v

  handle-Stays :
      (env : Env) (req : Request) (s : Server S) (route : Route)
      → is_account_route route ≡ false
      → Stays s (handle gateway env fl fuel storage route req s)
  unfolding handle require_jwt health
  handle-Stays env req s health_check h v = v
  handle-Stays env req s register h v = absurd cc
  handle-Stays env req s login h v = absurd cc
  handle-Stays env req s (protected route) h v =
      identified-Stays env req s route (identity gateway req) v

  found-Stays :
      (env : Env) (req : Request) (s : Server S) (r : Option Registration)
      → is_account_call r ≡ false
      → Stays s (handle_found gateway env fl fuel storage r req s)
  found-Stays env req s none h v = v
  found-Stays env req s (some r) h v = handle-Stays env req s r.route h v

  -- Requests, each with the clock and the faults that it meets.
  unfoldable pub serve_all : List (Env × Request) → Server S → Server S
  serve_all [] s = s
  serve_all ((env, req) ∷ rest) s = serve_all rest (dispatch gateway env fl fuel storage req s).1

  abbrev pub NoAccounts : Env × Request → Type 0
  NoAccounts (env, req) =
      is_account_call (find? (takes gateway env fl fuel storage req) routes) ≡ false

  -- From consistent tables, any sequence of requests other than registrations and logins, by any
  -- users, with any tokens, bodies and faults, ends in consistent tables: no like, exclusion or chat
  -- is stored twice for a pair, a chat joins two users who have liked each other, and no chat is active
  -- between two users of whom one blocks the other. Each request runs alone.
  pub serve_all-IsConsistent :
      (calls : List (Env × Request)) (s : Server S)
      → All NoAccounts calls
      → IsConsistent s.world.db
      → IsConsistent (serve_all calls s).world.db
  unfolding serve_all dispatch
  serve_all-IsConsistent [] s h v = v
  serve_all-IsConsistent ((env, req) ∷ rest) s (h, hs) v =
      serve_all-IsConsistent rest _ hs
        (found-Stays env req s (find? (takes gateway env fl fuel storage req) routes) h v)

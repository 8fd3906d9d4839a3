-- ===== src/Http/Router/Guarded.antt =====
-- Requests without a trusted identity.
use tinder_like_back.Base.{ℕ, zero, suc, arith, ◌≡◌, refl, ◌⊎◌, inl, inr, Option, none, some, find?}
use tinder_like_back.Geo.{FloatOps}
use tinder_like_back.Base.Int.{ℤ, pos, negsuc}
use tinder_like_back.Models.{Text}
use tinder_like_back.Text.{parse_int}
use tinder_like_back.Database.{Env}
use tinder_like_back.Service.Photos.{ObjectStore}
use tinder_like_back.Http.{Response, Request, Claims, Gateway, Server, health_status, json}
use tinder_like_back.Http.Auth.{
  identity, checked_id, checked_claims, health, unauthorized, require_jwt,
}
use tinder_like_back.Http.Auth
use tinder_like_back.Http.Router.{
  Route, health_check, register, login, protected, Registration, handle, handle_found, takes,
  routes, dispatch,
}

module _ (gateway : Gateway) (env : Env) (fl : FloatOps) (fuel : ℕ) {S : Type 0}
    (storage : ObjectStore S) where
  -- What is left to a request that no token vouches for.
  abbrev pub Guarded : Request → Server S → Response × Server S → Type 0
  Guarded req s r =
      (r ≡ (gateway.no_route req, s))
      ⊎ (r ≡ (json 200 (health_status "ok"), s))
      ⊎ (r ≡ (unauthorized, s))
      ⊎ (r ≡ Auth.register gateway req s)
      ⊎ (r ≡ Auth.login gateway req s)

  -- No claims of the header name a user: the user id is no decimal int64 above 0.
  abbrev pub NamesNobody : Request → Type 0
  NamesNobody req =
      (c : Claims) (n : ℕ)
      → gateway.claims req.authorization ≡ some c
      → parse_int c.user_id ≡ some (pos n)
      → n ≡ 0

  checked_none :
      (email : Text) (id : Option ℤ)
      → ((n : ℕ) → id ≡ some (pos n) → n ≡ 0)
      → checked_id email id ≡ none
  checked_none email none h = refl
  checked_none email (some (pos zero)) h = refl
  checked_none email (some (pos (suc n))) h = absurd (omega (arith, h (suc n) refl))
  checked_none email (some (negsuc n)) h = refl

  identity-none : (req : Request) → NamesNobody req → identity gateway req ≡ none
  unfolding identity
  identity-none req h = claimed (gateway.claims req.authorization) refl
    where
      claimed : (c : Option Claims) → gateway.claims req.authorization ≡ c → checked_claims c ≡ none
      claimed none e = refl
      claimed (some c) e = checked_none c.email (parse_int c.user_id) (λ n k. h c n e k)

  handle-Guarded :
      (route : Route) (req : Request) (s : Server S)
      → identity gateway req ≡ none
      → Guarded req s (handle gateway env fl fuel storage route req s)
  unfolding handle health require_jwt
  handle-Guarded health_check req s h = inr (inl refl)
  handle-Guarded register req s h = inr (inr (inr (inl refl)))
  handle-Guarded login req s h = inr (inr (inr (inr refl)))
  handle-Guarded (protected route) req s h = inr (inr (inl (rw h refl)))

  found-Guarded :
      (r : Option Registration) (req : Request) (s : Server S)
      → identity gateway req ≡ none
      → Guarded req s (handle_found gateway env fl fuel storage r req s)
  found-Guarded none req s h = inl refl
  found-Guarded (some r) req s h = handle-Guarded r.route req s h

  -- A request whose header carries no valid token, or one whose user id is no decimal int64 above 0,
  -- gets 401, or the health check's answer, or gin's own answer where no route takes it, and changes
  -- nothing of the server; or it registers or logs in.
  pub dispatch-Guarded :
      (req : Request) (s : Server S)
      → NamesNobody req
      → Guarded req s (dispatch gateway env fl fuel storage req s)
  unfolding dispatch
  dispatch-Guarded req s h =
      found-Guarded (find? (takes gateway env fl fuel storage req) routes) req s
        (identity-none req h)

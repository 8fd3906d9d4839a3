-- ===== src/Http/Router/Statuses.antt =====
-- The status of a like.
use tinder_like_back.Base.{
  ℕ, ◌≡◌, ◌≢◌, refl, not, arith, Bool-cases, inl, inr, Option, none, some, if◌then◌else◌,
}
use tinder_like_back.Base.Int.{ℤ, pos_part}
use tinder_like_back.Geo.{FloatOps}
use tinder_like_back.Models.{Text}
use tinder_like_back.Errors.{Error, Result, ok, err, orphaned}
use tinder_like_back.Database.{Db, Env}
use tinder_like_back.Repository.Ribbon.{
  has_active_profile, are_excluded, has_swipe, pair_allowed, create_like,
}
use tinder_like_back.Repository.Ribbon.Likes.{NoFaults, error_of, create_like-error}
use tinder_like_back.Service.Photos.{ObjectStore}
use tinder_like_back.Service.Ribbon.{World, LikeOutput, ribbon_repository, target_error, finish}
use tinder_like_back.Service.Ribbon as RibbonService
use tinder_like_back.Service.Ribbon.Published.{Liked, like-Liked, after_like}
use tinder_like_back.Http.{like_output, Response, Request, Gateway, Server, answer}
use tinder_like_back.Http.Ribbon.{
  ribbon_error, respond, respond_failure, respond_with, bind_error, bind_json,
}
use tinder_like_back.Http.Ribbon as RibbonHandler
use tinder_like_back.Http.Router.{like, user_handler}

-- What the tables say of a like before it is made.
abbrev pub like_status : Db → ℕ → ℤ → ℕ
like_status db user target =
    if target_error user target
    then 400
    else if not (has_active_profile db (pos_part target))
    then 404
    else if are_excluded db user (pos_part target)
    then 409
    else if not (pair_allowed user (pos_part target) db)
    then 500
    else 200

abbrev status_for : Option Error → ℕ
status_for none = 200
status_for (some e) = (ribbon_error e).status

answer_status :
    (r : Result LikeOutput)
    → (answer respond_failure (respond_with like_output) r).status ≡ status_for (error_of r)
unfolding respond
answer_status (ok out) = refl
answer_status (err e) = refl

finished :
    (env : Env) (user : ℕ) (target : ℤ) (w : World) (r : Result (Option ℕ) × Db)
    → error_of (finish (after_like env user target) w r).0 ≡ error_of r.0
finished env user target w (ok chat, db) = refl
finished env user target w (err e, db) = refl

like-status :
    (env : Env) (user : ℕ) (target : ℤ) (w : World)
    → NoFaults env
    → status_for (error_of (RibbonService.like env (ribbon_repository env) user target w).0)
      ≡ like_status w.db user target
unfolding RibbonService.like ribbon_error
like-status env user target w f = elim (Bool-cases (target_error user target)) [
  | inl bad ↦ rw bad refl
  | inr good ↦
      rw
        (
          good,
          finished env user target w (create_like env user (pos_part target) w.db),
          create_like-error env user (pos_part target) w.db f,
        )
        (ground arith)
]

refused_status : (e : Error) → (ribbon_error e).status ≢ 200
unfolding ribbon_error
refused_status (orphaned e) h = refused_status e h
refused_status _ h = absurd (omega arith)

-- The answer to a like of a target: the status, and what a body of 200 says of a match.
abbrev pub LikeAnswer : Db → ℕ → ℤ → Response → Type 0
LikeAnswer db user target r =
    (r.status ≡ like_status db user target)
    × (r.status ≡ 200
        → (out : LikeOutput) × (r.body ≡ like_output out)
          × (out.matched ≡ has_swipe db (pos_part target) user))

answered :
    (env : Env) (user : ℕ) (target : ℤ) (w : World) (r : Result LikeOutput × World)
    → Liked env user target w r
    → status_for (error_of r.0) ≡ like_status w.db user target
    → LikeAnswer w.db user target (answer respond_failure (respond_with like_output) r.0)
unfolding respond
answered env user target w (ok out, after) l e = (e, (λ h. (out, refl, l.2)))
answered env user target w (err bad, after) l e = (e, (λ h. absurd (refused_status bad h)))

-- What POST /api/v1/ribbon/likes answers to a body with a target, and to any other body.
abbrev pub LikeAnswers : Db → ℕ → Option ℤ → Response → Type 0
LikeAnswers db user none r = r ≡ bind_error
LikeAnswers db user (some target) r = LikeAnswer db user target r

module _ (gateway : Gateway) (env : Env) (fl : FloatOps) (fuel : ℕ) {S : Type 0}
    (storage : ObjectStore S) where
  bound-LikeAnswers :
      (user : ℕ) (email : Text) (req : Request) (s : Server S) (input : Option ℤ)
      → NoFaults env
      → gateway.bind_target req.body ≡ input
      → LikeAnswers s.world.db user input
          (user_handler gateway env fl fuel storage like user email req s).0
  unfolding user_handler RibbonHandler.like respond bind_error
  bound-LikeAnswers user email req s none f h = rw h refl
  bound-LikeAnswers user email req s (some target) f h = rw h (
      answered env user target s.world _ (like-Liked env user target s.world)
        (like-status env user target s.world f))

  -- Without faults of the driver, a like is answered with 400 if the body cannot be read or names no
  -- other user, with 404 if the target has no active profile, with 409 if one of the two has
  -- excluded the other, with 500 if one of the two has no account, and otherwise with 200 and a body
  -- that says `matched` exactly if the target had liked the user.
  pub like-LikeAnswers :
      (user : ℕ) (email : Text) (req : Request) (s : Server S)
      → NoFaults env
      → LikeAnswers s.world.db user
          (gateway.bind_target req.body)
          (user_handler gateway env fl fuel storage like user email req s).0
  like-LikeAnswers user email req s f = bound-LikeAnswers user email req s _ f refl

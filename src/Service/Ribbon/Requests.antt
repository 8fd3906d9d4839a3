-- ===== src/Service/Ribbon/Requests.antt =====
-- What Dislike, Block, Unblock and Report change and publish, over the database.
use tinder_like_back.Base.{
  ℕ, ◌≡◌, refl, ap, true, false, ◌||◌, Option, List, [], ◌∷◌, ltb, arith, Bool-cases, inl, inr,
}
use tinder_like_back.Base.Int.{ℤ, pos, pos_part, ltb_ℤ}
use tinder_like_back.Models.{Text}
use tinder_like_back.Text.{trim_space, byte_len}
use tinder_like_back.Errors.{Result, ok, err, invalid_target_user}
use tinder_like_back.Database.{Db, Env}
use tinder_like_back.Events.{Event, flag, number}
use tinder_like_back.Repository.Ribbon.Exclusions.{
  Ends, Dislikes, Blocks, Unblocks, create_dislike-Dislikes, create_block-Blocks,
  remove_block-Unblocks,
}
use tinder_like_back.Repository.Discovery.{create_report, insert_report}
use tinder_like_back.Service.Ribbon.{
  World, Call, finish, done, ribbon_repository, target_error, event_of, emit, comment_pointer,
  dislike, block, unblock, report,
}
use tinder_like_back.Service.Ribbon.Published.{publish_all}

-- The requests, beside likes, of a user to whom the handlers have given an id.
pub data Request : Type 0 where
  dislikes blocks unblocks : ℤ → Request
  reports : ℤ → ℤ → Text → Request

unfoldable pub serve : Env → ℕ → Request → Call (Unit {0})
serve env user (dislikes target) w = dislike env (ribbon_repository env) user target w
serve env user (blocks target) w = block env (ribbon_repository env) user target w
serve env user (unblocks target) w = unblock env (ribbon_repository env) user target w
serve env user (reports target reason comment) w =
    report env (ribbon_repository env) user target reason comment w

-- What is published by a request that goes through.
abbrev pub request_events : Env → ℕ → Request → List Event
request_events env user (dislikes target) =
    event_of env "swipe" user (pos_part target) (("liked", flag false) ∷ []) ∷ []
request_events env user (blocks target) = event_of env "block" user (pos_part target) [] ∷ []
request_events env user (unblocks target) = []
request_events env user (reports target reason comment) =
    event_of env "report" user (pos_part target) (("reason", number (pos_part reason)) ∷ []) ∷ []

-- What the database is to look like after it.
abbrev pub Stores : Env → ℕ → Request → Db → Db → Type 0
Stores env user (dislikes target) db after = Dislikes user (pos_part target) db (ok tt, after)
Stores env user (blocks target) db after = Blocks user (pos_part target) db (ok tt, after)
Stores env user (unblocks target) db after = Unblocks user (pos_part target) db (ok tt, after)
Stores env user (reports target reason comment) db after =
    after
    ≡ insert_report env user (pos_part target) (pos_part reason)
        (comment_pointer (trim_space comment)) db

abbrev pub request_target : Request → ℤ
request_target (dislikes target) = target
request_target (blocks target) = target
request_target (unblocks target) = target
request_target (reports target reason comment) = target

abbrev pub Served : Env → ℕ → Request → World → Result (Unit {0}) × World → Type 0
Served env user q w (err e, after) = after ≡ w
Served env user q w (ok u, after) =
    (target_error user (request_target q) ≡ false)
    × Stores env user q w.db after.db
    × (after.publisher ≡ publish_all (request_events env user q) w.publisher)

report-Ends :
    (env : Env) (user target reason : ℕ) (comment : Option Text) (db : Db)
    (r : Result (Unit {0}) × Db)
    → create_report env user target reason comment db ≡ r
    → Ends (insert_report env user target reason comment db) db r
unfolding create_report
report-Ends env user target reason comment db (err e, after) h = ground arith
report-Ends env user target reason comment db (ok u, after) h = ground arith

refused_request :
    (env : Env) (user : ℕ) (q : Request) (w : World)
    → target_error user (request_target q) ≡ true
    → serve env user q w ≡ (err invalid_target_user, w)
unfolding serve dislike block unblock report
refused_request env user (dislikes target) w h = ground arith
refused_request env user (blocks target) w h = ground arith
refused_request env user (unblocks target) w h = ground arith
refused_request env user (reports target reason comment) w h = ground arith

abbrev pub publish_then : (World → World) → Unit {0} → Call (Unit {0})
publish_then f u w = done tt (f w)

-- A write and the event behind it.
finish_dislike :
    (env : Env) (user : ℕ) (target : ℤ) (w : World) (r : Result (Unit {0}) × Db)
    → target_error user target ≡ false
    → Dislikes user (pos_part target) w.db r
    → Served env user (dislikes target) w (
        finish
          (publish_then (emit env "swipe" user (pos_part target) (("liked", flag false) ∷ [])))
          w
          r)
unfolding emit publish_all
finish_dislike env user target w (err e, db) t h = ap (λ d. record w { db = d }) h
finish_dislike env user target w (ok u, db) t h = (t, h, refl)

finish_block :
    (env : Env) (user : ℕ) (target : ℤ) (w : World) (r : Result (Unit {0}) × Db)
    → target_error user target ≡ false
    → Blocks user (pos_part target) w.db r
    → Served env user
        (blocks target)
        w
        (finish (publish_then (emit env "block" user (pos_part target) [])) w r)
unfolding emit publish_all
finish_block env user target w (err e, db) t h = ap (λ d. record w { db = d }) h
finish_block env user target w (ok u, db) t h = (t, h, refl)

finish_unblock :
    (env : Env) (user : ℕ) (target : ℤ) (w : World) (r : Result (Unit {0}) × Db)
    → target_error user target ≡ false
    → Unblocks user (pos_part target) w.db r
    → Served env user (unblocks target) w (finish (λ u. done tt) w r)
unfolding publish_all
finish_unblock env user target w (err e, db) t h = ap (λ d. record w { db = d }) h
finish_unblock env user target w (ok u, db) t h = (t, h, refl)

finish_report :
    (env : Env) (user : ℕ) (target reason : ℤ) (comment : Text) (w : World)
    (r : Result (Unit {0}) × Db)
    → target_error user target ≡ false
    → Ends
        (insert_report env user
          (pos_part target)
          (pos_part reason)
          (comment_pointer (trim_space comment))
          w.db)
        w.db
        r
    → Served env user (reports target reason comment) w (
        finish
          (publish_then
            (emit env "report" user (pos_part target) (("reason", number (pos_part reason)) ∷ [])))
          w
          r)
unfolding emit publish_all
finish_report env user target reason comment w (err e, db) t h = ap (λ d. record w { db = d }) h
finish_report env user target reason comment w (ok u, db) t h = (t, h, refl)

sound_report :
    (env : Env) (user : ℕ) (target reason : ℤ) (comment : Text) (w : World)
    → target_error user target ≡ false
    → Served env user
        (reports target reason comment)
        w
        (report env (ribbon_repository env) user target reason comment w)
unfolding report
sound_report env user target reason comment w t =
    elim (Bool-cases (ltb_ℤ reason (pos 1) || ltb_ℤ (pos 5) reason)) [
      | inl bad ↦ rw (t, bad) refl
      | inr good ↦ elim (Bool-cases (ltb 2000 (byte_len (trim_space comment)))) [
        | inl long ↦ rw (t, good, long) refl
        | inr short ↦
            rw (t, good, short)
              (finish_report env user target reason comment w _ t (
                report-Ends env user (pos_part target) (pos_part reason)
                  (comment_pointer (trim_space comment)) w.db _ refl))
      ]
    ]

sound_request :
    (env : Env) (user : ℕ) (q : Request) (w : World)
    → target_error user (request_target q) ≡ false
    → Served env user q w (serve env user q w)
unfolding serve dislike block unblock
sound_request env user (dislikes target) w t =
    rw (t) (
      finish_dislike env user target w _ t
        (create_dislike-Dislikes env user (pos_part target) w.db))
sound_request env user (blocks target) w t =
    rw (t)
      (finish_block env user target w _ t (create_block-Blocks env user (pos_part target) w.db))
sound_request env user (unblocks target) w t =
    rw (t)
      (finish_unblock env user target w _ t (remove_block-Unblocks env user (pos_part target) w.db))
sound_request env user (reports target reason comment) w t =
    sound_report env user target reason comment w t

-- Dislike, Block, Unblock and Report either fail, and then the database is as before and nothing is
-- published, or they go through: then the target is another user, the store has done what the
-- request asks, and the events of the request, and no others, are published.
pub serve-Served :
    (env : Env) (user : ℕ) (q : Request) (w : World) → Served env user q w (serve env user q w)
serve-Served env user q w = elim (Bool-cases (target_error user (request_target q))) [
  | inl refused ↦ rw (refused_request env user q w refused) refl
  | inr sound ↦ sound_request env user q w sound
]

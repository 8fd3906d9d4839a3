-- ===== src/Service/Ribbon/Published.antt =====
-- What Like changes and publishes, over the database.
use tinder_like_back.Base.{
  ℕ, ◌≡◌, refl, ap, true, false, Option, none, some, List, [], ◌∷◌, is_some, Bool-cases, inl, inr,
}
use tinder_like_back.Base.Int.{ℤ, pos_part}
use tinder_like_back.Errors.{Result, ok, err}
use tinder_like_back.Database.{Db, Env}
use tinder_like_back.Events.{Event, Publisher, flag, number}
use tinder_like_back.Repository.Ribbon.{has_swipe}
use tinder_like_back.Repository.Ribbon.Likes.{Likes, create_like-Likes}
use tinder_like_back.Service.Ribbon.{
  World, Call, finish, done, ribbon_repository, target_error, event_of, emit, emit_match,
  publish_to, LikeOutput, like,
}

-- Events, one after the other.
unfoldable pub publish_all : List Event → Option Publisher → Option Publisher
publish_all [] p = p
publish_all (ev ∷ evs) p = publish_all evs (publish_to ev p)

-- The events of a like: the swipe, and then the match if there is one.
abbrev pub match_events : Env → ℕ → ℕ → Option ℕ → List Event
match_events env user target none = []
match_events env user target (some id) =
    event_of env "match" user target (("chat_id", number id) ∷ []) ∷ []

abbrev pub like_events : Env → ℕ → ℕ → Option ℕ → List Event
like_events env user target chat =
    event_of env "swipe" user target (("liked", flag true) ∷ []) ∷ match_events env user target chat

-- What a caller of Like sees.
abbrev pub Liked : Env → ℕ → ℤ → World → Result LikeOutput × World → Type 0
Liked env user target w (err e, after) = after ≡ w
Liked env user target w (ok out, after) =
    (target_error user target ≡ false)
    × Likes user (pos_part target) w.db (ok out.chat_id, after.db)
    × (out.matched ≡ has_swipe w.db (pos_part target) user)
    × (after.publisher
        ≡ publish_all (like_events env user (pos_part target) out.chat_id) w.publisher)

abbrev pub after_like : Env → ℕ → ℤ → Option ℕ → Call LikeOutput
after_like env user target chat w =
    done (record { matched = is_some chat; chat_id = chat })
      (emit_match env user (pos_part target) chat
        (emit env "swipe" user (pos_part target) (("liked", flag true) ∷ []) w))

finish-Liked :
    (env : Env) (user : ℕ) (target : ℤ) (w : World) (r : Result (Option ℕ) × Db)
    → target_error user target ≡ false
    → Likes user (pos_part target) w.db r
    → Liked env user target w (finish (after_like env user target) w r)
unfolding emit emit_match publish_all
finish-Liked env user target w (err e, db) t l = ap (λ d. record w { db = d }) l
finish-Liked env user target w (ok none, db) t l = (t, l, l.2, refl)
finish-Liked env user target w (ok (some id), db) t l = (t, l, l.2, refl)

-- Like either fails, and then the database is as before and nothing is published, or it goes
-- through: then CreateLike has stored the like, the answer says that there is a match exactly when
-- the target had liked the user, and the swipe, and after it the match if there is one, are what
-- is published.
pub like-Liked :
    (env : Env) (user : ℕ) (target : ℤ) (w : World)
    → Liked env user target w (like env (ribbon_repository env) user target w)
unfolding like
like-Liked env user target w = elim (Bool-cases (target_error user target)) [
  | inl refused ↦ rw refused refl
  | inr sound ↦
      rw (sound)
        (finish-Liked env user target w _ sound (create_like-Likes env user (pos_part target) w.db))
]

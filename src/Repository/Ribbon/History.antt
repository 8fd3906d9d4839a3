-- ===== src/Repository/Ribbon/History.antt =====
-- Any history of likes, dislikes, blocks and removals of blocks, by any users and under any faults
-- of the driver. Each call runs alone: see the header of the library on concurrent transactions.
use tinder_like_back.Base.{ℕ, ◌≡◌, sym, subst, false, List, [], ◌∷◌, arith, some, none, Option}
use tinder_like_back.Errors.{Result, ok, err}
use tinder_like_back.Database.{Db, Env}
use tinder_like_back.Repository.Ribbon.{
  are_excluded, insert_swipe, create_like, create_dislike, create_block, remove_block,
}
use tinder_like_back.Repository.Ribbon.Pairs.{has_swipe-insert_swipe}
use tinder_like_back.Repository.Ribbon.Consistency.{
  IsConsistent, insert_swipe-IsConsistent, insert_chat-IsConsistent, dislike-IsConsistent,
}
use tinder_like_back.Repository.Ribbon.Blocks.{block-IsConsistent, delete_ban-IsConsistent}
use tinder_like_back.Repository.Ribbon.Likes.{Writes, create_like-Writes}
use tinder_like_back.Repository.Ribbon.Exclusions.{
  Ends, create_dislike-Ends, create_block-Ends, remove_block-Ends,
}

pub data Command : Type 0 where
  like dislike block unblock : ℕ → ℕ → Command

unfoldable pub step : Env → Command → Db → Db
step env (like actor target) db = (create_like env actor target db).1
step env (dislike actor target) db = (create_dislike env actor target db).1
step env (block actor target) db = (create_block env actor target db).1
step env (unblock actor target) db = (remove_block env actor target db).1

unfoldable pub run : List (Env × Command) → Db → Db
run [] db = db
run ((env, c) ∷ cs) db = run cs (step env c db)

still_allowed :
    (env : Env) (actor target : ℕ) (db : Db)
    → are_excluded db actor target ≡ false
    → are_excluded (insert_swipe env actor target db) actor target ≡ false
unfolding insert_swipe are_excluded
still_allowed env actor target db h = h

like-IsConsistent :
    (env : Env) (actor target : ℕ) (db : Db) (r : Result (Option ℕ) × Db)
    → IsConsistent db
    → Writes env actor target db r
    → IsConsistent r.1
like-IsConsistent env actor target db (err e, after) v w = subst IsConsistent (sym w) v
like-IsConsistent env actor target db (ok none, after) v w =
    subst IsConsistent (sym w.2) (insert_swipe-IsConsistent env actor target db v)
like-IsConsistent env actor target db (ok (some id), after) v w = subst IsConsistent (sym w.2) (
    insert_chat-IsConsistent env actor target _ (insert_swipe-IsConsistent env actor target db v)
      (ground (arith, has_swipe-insert_swipe env actor target db actor target)) w.1
      (still_allowed env actor target db w.0.1))

-- The other calls end in two ways: nothing is written, or one set of writes.
Ends-IsConsistent :
    (written db : Db) (r : Result (Unit {0}) × Db)
    → IsConsistent db
    → IsConsistent written
    → Ends written db r
    → IsConsistent r.1
Ends-IsConsistent written db (err e, after) v w h = subst IsConsistent (sym h) v
Ends-IsConsistent written db (ok u, after) v w h = subst IsConsistent (sym h) w

-- Each call keeps the tables consistent, also when it fails.
pub step-IsConsistent :
    (env : Env) (c : Command) (db : Db) → IsConsistent db → IsConsistent (step env c db)
unfolding step
step-IsConsistent env (like actor target) db v =
    like-IsConsistent env actor target db _ v (create_like-Writes env actor target db)
step-IsConsistent env (dislike actor target) db v =
    Ends-IsConsistent _ db _ v (dislike-IsConsistent env actor target db v)
      (create_dislike-Ends env actor target db)
step-IsConsistent env (block actor target) db v =
    Ends-IsConsistent _ db _ v (block-IsConsistent env actor target db v)
      (create_block-Ends env actor target db)
step-IsConsistent env (unblock actor target) db v =
    Ends-IsConsistent _ db _ v (delete_ban-IsConsistent actor target db v)
      (remove_block-Ends env actor target db)

-- From consistent tables, any history of likes, dislikes, blocks and removals of blocks, by any
-- users and with any faults of the driver, ends in consistent tables: no like, exclusion or chat
-- is stored twice for a pair, a chat joins two users who have liked each other, no chat is active
-- between two users of whom one blocks the other, and a chat has a time of deactivation exactly if
-- it is not active, and an id that the sequence has given out.
pub run-IsConsistent :
    (cs : List (Env × Command)) (db : Db) → IsConsistent db → IsConsistent (run cs db)
unfolding run
run-IsConsistent [] db v = v
run-IsConsistent ((env, c) ∷ cs) db v =
    run-IsConsistent cs (step env c db) (step-IsConsistent env c db v)

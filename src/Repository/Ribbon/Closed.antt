-- ===== src/Repository/Ribbon/Closed.antt =====
-- Chats that a block has deactivated, under the operations of ribbon.go.
use tinder_like_back.Base.{
  ℕ, ◌≡◌, refl, sym, subst, ◌∙◌, true, ◌&&◌, ◌||◌, ◌==◌, Option, none, some, List, [], ◌∷◌, any,
  arith, All, All-map, Bool-cases, inl, inr,
}
use tinder_like_back.Models.{Chat}
use tinder_like_back.Errors.{Result, ok, err}
use tinder_like_back.Database.{Db, Env}
use tinder_like_back.Repository.Ribbon.{
  is_chat_of, insert_swipe, insert_chat, upsert_exclusion, delete_ban, deactivate, deactivate_chat,
}
use tinder_like_back.Repository.Ribbon.Pairs.{any-chat-deactivate}
use tinder_like_back.Repository.Ribbon.Blocks.{after_block}
use tinder_like_back.Repository.Ribbon.Likes.{Writes, create_like-Writes}
use tinder_like_back.Repository.Ribbon.Exclusions.{
  Ends, IsInactive, create_dislike-Ends, create_block-Ends, remove_block-Ends,
}
use tinder_like_back.Repository.Ribbon.History.{Command, like, dislike, block, unblock, step, run}

-- The pair has a chat, and none that is active.
abbrev pub IsClosed : ℕ → ℕ → Db → Type 0
IsClosed a b db = (any (is_chat_of a b) db.chats ≡ true) × All (IsInactive a b) db.chats

any-same_pair :
    (actor target a b : ℕ) (xs : List Chat)
    → ((actor == a && target == b) || (actor == b && target == a)) ≡ true
    → any (is_chat_of a b) xs ≡ any (is_chat_of actor target) xs
any-same_pair actor target a b [] h = refl
any-same_pair actor target a b (c ∷ xs) h = ground (arith, any-same_pair actor target a b xs h)

-- A new chat is another pair's, since this pair has one.
insert_chat-IsClosed :
    (env : Env) (actor target a b : ℕ) (db : Db)
    → IsClosed a b db
    → IsClosed a b (insert_chat env actor target db)
unfolding insert_chat
insert_chat-IsClosed env actor target a b db h =
    elim (Bool-cases (any (is_chat_of actor target) db.chats)) [
      | inl old ↦ rw old h
      | inr new ↦ rw new (
        ground (arith, h.0),
        ((λ same. ground (arith, any-same_pair actor target a b db.chats same)), h.1),
      )
    ]

deactivate-IsInactive_other :
    (env : Env) (actor target a b : ℕ) (c : Chat)
    → IsInactive a b c
    → IsInactive a b (deactivate env actor target c)
unfolding deactivate
deactivate-IsInactive_other env actor target a b c h same = ground (arith, h)

after_block-IsClosed :
    (env : Env) (actor target a b : ℕ) (db : Db)
    → IsClosed a b db
    → IsClosed a b (after_block env actor target db)
unfolding deactivate_chat upsert_exclusion
after_block-IsClosed env actor target a b db h = (
  any-chat-deactivate env actor target a b db.chats ∙ h.0,
  All-map (IsInactive a b) (IsInactive a b) _ db.chats
      (deactivate-IsInactive_other env actor target a b) h.1,
)

like-IsClosed :
    (env : Env) (actor target a b : ℕ) (db : Db) (r : Result (Option ℕ) × Db)
    → IsClosed a b db
    → Writes env actor target db r
    → IsClosed a b r.1
unfolding insert_swipe
like-IsClosed env actor target a b db (err e, after) h w = subst (IsClosed a b) (sym w) h
like-IsClosed env actor target a b db (ok none, after) h w = subst (IsClosed a b) (sym w.2) h
like-IsClosed env actor target a b db (ok (some id), after) h w =
    subst (IsClosed a b) (sym w.2)
      (insert_chat-IsClosed env actor target a b (insert_swipe env actor target db) h)

Ends-IsClosed :
    (a b : ℕ) (written db : Db) (r : Result (Unit {0}) × Db)
    → IsClosed a b db
    → IsClosed a b written
    → Ends written db r
    → IsClosed a b r.1
Ends-IsClosed a b written db (err e, after) h w e' = subst (IsClosed a b) (sym e') h
Ends-IsClosed a b written db (ok u, after) h w e' = subst (IsClosed a b) (sym e') w

step-IsClosed :
    (env : Env) (c : Command) (a b : ℕ) (db : Db) → IsClosed a b db → IsClosed a b (step env c db)
unfolding step upsert_exclusion delete_ban
step-IsClosed env (like actor target) a b db h =
    like-IsClosed env actor target a b db _ h (create_like-Writes env actor target db)
step-IsClosed env (dislike actor target) a b db h =
    Ends-IsClosed a b _ db _ h h (create_dislike-Ends env actor target db)
step-IsClosed env (block actor target) a b db h =
    Ends-IsClosed a b _ db _ h (after_block-IsClosed env actor target a b db h)
      (create_block-Ends env actor target db)
step-IsClosed env (unblock actor target) a b db h =
    Ends-IsClosed a b _ db _ h h (remove_block-Ends env actor target db)

-- Once a pair has a chat and no active one, no history of likes, dislikes, blocks and removals of
-- blocks gives the pair an active chat again, whoever acts.
pub run-IsClosed :
    (cs : List (Env × Command)) (a b : ℕ) (db : Db) → IsClosed a b db → IsClosed a b (run cs db)
unfolding run
run-IsClosed [] a b db h = h
run-IsClosed ((env, c) ∷ cs) a b db h =
    run-IsClosed cs a b (step env c db) (step-IsClosed env c a b db h)

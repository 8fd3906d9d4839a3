-- ===== src/Repository/Ribbon/Exclusions.antt =====
-- CreateDislike, CreateBlock and RemoveBlock, on every path.
use tinder_like_back.Base.{
  ℕ, ◌≡◌, refl, ap, true, false, not, ◌&&◌, ◌||◌, ◌==◌, List, [], ◌∷◌, map, filter, arith, All,
}
use tinder_like_back.Models.{Chat}
use tinder_like_back.Errors.{Result, ok, err}
use tinder_like_back.Database.{Db, Env}
use tinder_like_back.Repository.Ribbon.{
  is_chat_of, upsert_exclusion, keep_ban, set_ban, deactivate, deactivate_chat, delete_ban,
  create_dislike, create_block, remove_block,
}
use tinder_like_back.Repository.Ribbon.Pairs.{
  has_exclusion, has_ban, has_temporary, has_exclusion-upsert, has_ban-dislike, has_ban-delete,
  has_temporary-delete,
}
use tinder_like_back.Repository.Ribbon.Blocks.{after_block, has_ban-after_block}

-- How a call ends: nothing is written, or `written` is what stays.
abbrev pub Ends : Db → Db → Result (Unit {0}) × Db → Type 0
Ends written db (err e, after) = after ≡ db
Ends written db (ok u, after) = after ≡ written

dislike-Ends :
    (env : Env) (actor target : ℕ) (db : Db) (r : Result (Unit {0}) × Db)
    → create_dislike env actor target db ≡ r
    → Ends (upsert_exclusion env false keep_ban actor target db) db r
unfolding create_dislike
dislike-Ends env actor target db (err e, after) h = ground arith
dislike-Ends env actor target db (ok u, after) h = ground arith

pub create_dislike-Ends :
    (env : Env) (actor target : ℕ) (db : Db)
    → Ends
        (upsert_exclusion env false keep_ban actor target db)
        db
        (create_dislike env actor target db)
create_dislike-Ends env actor target db = dislike-Ends env actor target db _ refl

block-Ends :
    (env : Env) (actor target : ℕ) (db : Db) (r : Result (Unit {0}) × Db)
    → create_block env actor target db ≡ r
    → Ends (after_block env actor target db) db r
unfolding create_block
block-Ends env actor target db (err e, after) h = ground arith
block-Ends env actor target db (ok u, after) h = ground arith

pub create_block-Ends :
    (env : Env) (actor target : ℕ) (db : Db)
    → Ends (after_block env actor target db) db (create_block env actor target db)
create_block-Ends env actor target db = block-Ends env actor target db _ refl

unblock-Ends :
    (env : Env) (actor target : ℕ) (db : Db) (r : Result (Unit {0}) × Db)
    → remove_block env actor target db ≡ r
    → Ends (delete_ban actor target db) db r
unfolding remove_block
unblock-Ends env actor target db (err e, after) h = ground arith
unblock-Ends env actor target db (ok u, after) h = ground arith

pub remove_block-Ends :
    (env : Env) (actor target : ℕ) (db : Db)
    → Ends (delete_ban actor target db) db (remove_block env actor target db)
remove_block-Ends env actor target db = unblock-Ends env actor target db _ refl

-- What a dislike does: it excludes in its own direction, and changes no block, like or chat.
abbrev pub Dislikes : ℕ → ℕ → Db → Result (Unit {0}) × Db → Type 0
Dislikes actor target db (err e, after) = after ≡ db
Dislikes actor target db (ok u, after) =
    ((a b : ℕ) → has_exclusion after a b ≡ (has_exclusion db a b || (actor == a && target == b)))
    × ((a b : ℕ) → has_ban after a b ≡ has_ban db a b)
    × (after.swipes ≡ db.swipes)
    × (after.chats ≡ db.chats)

Dislikes-of :
    (env : Env) (actor target : ℕ) (db : Db) (r : Result (Unit {0}) × Db)
    → Ends (upsert_exclusion env false keep_ban actor target db) db r
    → Dislikes actor target db r
unfolding upsert_exclusion
Dislikes-of env actor target db (err e, after) h = h
Dislikes-of env actor target db (ok u, after) h = (
  (λ a b. rw h (has_exclusion-upsert env false keep_ban actor target db a b)),
  (λ a b. rw h (has_ban-dislike env actor target db a b)),
  ap (λ d. d.swipes) h,
  ap (λ d. d.chats) h,
)

-- CreateDislike either fails and changes nothing, or excludes the target for the actor and no other
-- pair: a block that is there stays a block, no block is made, and likes and chats are as before.
pub create_dislike-Dislikes :
    (env : Env) (actor target : ℕ) (db : Db)
    → Dislikes actor target db (create_dislike env actor target db)
create_dislike-Dislikes env actor target db =
    Dislikes-of env actor target db _ (create_dislike-Ends env actor target db)

-- The chats of the pair, and the others.
abbrev pub IsInactive : ℕ → ℕ → Chat → Type 0
IsInactive a b c = is_chat_of a b c ≡ true → c.is_active ≡ false

abbrev pub other_chats : ℕ → ℕ → List Chat → List Chat
other_chats a b = filter (λ c. not (is_chat_of a b c))

abbrev pub Blocks : ℕ → ℕ → Db → Result (Unit {0}) × Db → Type 0
Blocks actor target db (err e, after) = after ≡ db
Blocks actor target db (ok u, after) =
    ((a b : ℕ) → has_ban after a b ≡ (has_ban db a b || (actor == a && target == b)))
    × ((a b : ℕ) → has_exclusion after a b ≡ (has_exclusion db a b || (actor == a && target == b)))
    × All (IsInactive actor target) after.chats
    × (other_chats actor target after.chats ≡ other_chats actor target db.chats)
    × (after.swipes ≡ db.swipes)

deactivate-IsInactive :
    (env : Env) (actor target : ℕ) (xs : List Chat)
    → All (IsInactive actor target) (map (deactivate env actor target) xs)
unfolding deactivate
deactivate-IsInactive env actor target [] = tt
deactivate-IsInactive env actor target (c ∷ xs) =
    ((λ h. ground arith), deactivate-IsInactive env actor target xs)

other_chats-deactivate :
    (env : Env) (actor target : ℕ) (xs : List Chat)
    → other_chats actor target (map (deactivate env actor target) xs) ≡ other_chats actor target xs
unfolding deactivate
other_chats-deactivate env actor target [] = refl
other_chats-deactivate env actor target (c ∷ xs) =
    ground (arith, other_chats-deactivate env actor target xs)

Blocks-of :
    (env : Env) (actor target : ℕ) (db : Db) (r : Result (Unit {0}) × Db)
    → Ends (after_block env actor target db) db r
    → Blocks actor target db r
unfolding upsert_exclusion deactivate_chat has_exclusion
Blocks-of env actor target db (err e, after) h = h
Blocks-of env actor target db (ok u, after) h = (
  (λ a b. rw h (has_ban-after_block env actor target db a b)),
  (λ a b. rw h (has_exclusion-upsert env true set_ban actor target db a b)),
  rw h (deactivate-IsInactive env actor target db.chats),
  rw h (other_chats-deactivate env actor target db.chats),
  ap (λ d. d.swipes) h,
)

-- CreateBlock either fails and changes nothing, or bans the target for the actor and no other pair,
-- and leaves the pair no active chat; the chats of other pairs and the likes are as before.
pub create_block-Blocks :
    (env : Env) (actor target : ℕ) (db : Db)
    → Blocks actor target db (create_block env actor target db)
create_block-Blocks env actor target db =
    Blocks-of env actor target db _ (create_block-Ends env actor target db)

abbrev pub Unblocks : ℕ → ℕ → Db → Result (Unit {0}) × Db → Type 0
Unblocks actor target db (err e, after) = after ≡ db
Unblocks actor target db (ok u, after) =
    ((a b : ℕ) → has_ban after a b ≡ (has_ban db a b && not (actor == a && target == b)))
    × ((a b : ℕ) → has_temporary after a b ≡ has_temporary db a b)
    × (after.chats ≡ db.chats)
    × (after.swipes ≡ db.swipes)

Unblocks-of :
    (actor target : ℕ) (db : Db) (r : Result (Unit {0}) × Db)
    → Ends (delete_ban actor target db) db r
    → Unblocks actor target db r
unfolding delete_ban
Unblocks-of actor target db (err e, after) h = h
Unblocks-of actor target db (ok u, after) h = (
  (λ a b. rw h (has_ban-delete actor target db a b)),
  (λ a b. rw h (has_temporary-delete actor target db a b)),
  ap (λ d. d.chats) h,
  ap (λ d. d.swipes) h,
)

-- RemoveBlock either fails and changes nothing, or removes the ban that the actor set on the target
-- and no other; dislikes stay, and so do chats, active or not, and likes.
pub remove_block-Unblocks :
    (env : Env) (actor target : ℕ) (db : Db)
    → Unblocks actor target db (remove_block env actor target db)
remove_block-Unblocks env actor target db =
    Unblocks-of actor target db _ (remove_block-Ends env actor target db)

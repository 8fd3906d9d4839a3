-- ===== src/Repository/Ribbon/Pairs.antt =====
-- What each statement of ribbon.go does to the tests on a pair of users.
use tinder_like_back.Base.{
  ℕ, ◌≡◌, refl, Bool, true, false, not, ◌&&◌, ◌||◌, List, [], ◌∷◌, map, filter, any, ◌==◌, arith,
}
use tinder_like_back.Models.{Swipe, UserExclusion, Chat}
use tinder_like_back.Database.{Db, Env}
use tinder_like_back.Repository.Ribbon.{
  is_swipe, is_exclusion, is_chat_of, has_swipe, are_excluded, insert_swipe, update_ban,
  upsert_exclusion, keep_ban, set_ban, deactivate, delete_ban,
}

-- A permanent ban in the given direction.
abbrev pub is_ban : ℕ → ℕ → UserExclusion → Bool
is_ban a b e = is_exclusion a b e && e.is_permanent_ban

unfoldable pub has_exclusion : Db → ℕ → ℕ → Bool
has_exclusion db a b = any (is_exclusion a b) db.exclusions

unfoldable pub has_ban : Db → ℕ → ℕ → Bool
has_ban db a b = any (is_ban a b) db.exclusions

any-swipe_self :
    (actor target a b : ℕ) (xs : List Swipe)
    → any (is_swipe actor target) xs ≡ true
    → any (is_swipe a b) xs ≡ (any (is_swipe a b) xs || (actor == a && target == b))
any-swipe_self actor target a b [] h = ground arith
any-swipe_self actor target a b (s ∷ xs) h = ground (arith, any-swipe_self actor target a b xs)

-- A like adds its own pair and no other.
pub has_swipe-insert_swipe :
    (env : Env) (actor target : ℕ) (db : Db) (a b : ℕ)
    → has_swipe (insert_swipe env actor target db) a b
      ≡ (has_swipe db a b || (actor == a && target == b))
unfolding has_swipe insert_swipe
has_swipe-insert_swipe env actor target db a b =
    ground (arith, any-swipe_self actor target a b db.swipes)

are_excluded-split_list :
    (a b : ℕ) (xs : List UserExclusion)
    → any (λ e. is_exclusion a b e || is_exclusion b a e) xs
      ≡ (any (is_exclusion a b) xs || any (is_exclusion b a) xs)
are_excluded-split_list a b [] = refl
are_excluded-split_list a b (e ∷ xs) = ground (arith, are_excluded-split_list a b xs)

pub are_excluded-split :
    (db : Db) (a b : ℕ) → are_excluded db a b ≡ (has_exclusion db a b || has_exclusion db b a)
unfolding are_excluded has_exclusion
are_excluded-split db a b = are_excluded-split_list a b db.exclusions

any-exclusion_self :
    (actor target a b : ℕ) (xs : List UserExclusion)
    → any (is_exclusion actor target) xs ≡ true
    → any (is_exclusion a b) xs ≡ (any (is_exclusion a b) xs || (actor == a && target == b))
any-exclusion_self actor target a b [] h = ground arith
any-exclusion_self actor target a b (s ∷ xs) h =
    ground (arith, any-exclusion_self actor target a b xs)

pub any-exclusion-update :
    (f : Bool → Bool) (actor target a b : ℕ) (xs : List UserExclusion)
    → any (is_exclusion a b) (map (update_ban f actor target) xs) ≡ any (is_exclusion a b) xs
unfolding update_ban
any-exclusion-update f actor target a b [] = refl
any-exclusion-update f actor target a b (e ∷ xs) =
    ground (arith, any-exclusion-update f actor target a b xs)

-- A dislike or a block adds its own direction and no other.
pub has_exclusion-upsert :
    (env : Env) (initial : Bool) (f : Bool → Bool) (actor target : ℕ) (db : Db) (a b : ℕ)
    → has_exclusion (upsert_exclusion env initial f actor target db) a b
      ≡ (has_exclusion db a b || (actor == a && target == b))
unfolding has_exclusion upsert_exclusion
has_exclusion-upsert env initial f actor target db a b = ground (
  arith,
  any-exclusion-update f actor target a b db.exclusions,
  any-exclusion_self actor target a b db.exclusions,
)

any-ban-keep :
    (actor target a b : ℕ) (xs : List UserExclusion)
    → any (is_ban a b) (map (update_ban keep_ban actor target) xs) ≡ any (is_ban a b) xs
unfolding update_ban
any-ban-keep actor target a b [] = refl
any-ban-keep actor target a b (e ∷ xs) = ground (arith, any-ban-keep actor target a b xs)

-- A dislike changes no ban.
pub has_ban-dislike :
    (env : Env) (actor target : ℕ) (db : Db) (a b : ℕ)
    → has_ban (upsert_exclusion env false keep_ban actor target db) a b ≡ has_ban db a b
unfolding has_ban upsert_exclusion
has_ban-dislike env actor target db a b =
    ground (arith, any-ban-keep actor target a b db.exclusions)

any-ban-set :
    (actor target a b : ℕ) (xs : List UserExclusion)
    → any (is_ban a b) (map (update_ban set_ban actor target) xs)
      ≡ (any (is_ban a b) xs || (any (is_exclusion actor target) xs && (actor == a && target == b)))
unfolding update_ban
any-ban-set actor target a b [] = refl
any-ban-set actor target a b (e ∷ xs) = ground (arith, any-ban-set actor target a b xs)

-- A block adds a ban in its own direction and no other.
pub has_ban-block :
    (env : Env) (actor target : ℕ) (db : Db) (a b : ℕ)
    → has_ban (upsert_exclusion env true set_ban actor target db) a b
      ≡ (has_ban db a b || (actor == a && target == b))
unfolding has_ban upsert_exclusion
has_ban-block env actor target db a b = ground (arith, any-ban-set actor target a b db.exclusions)

any-ban-delete :
    (actor target a b : ℕ) (xs : List UserExclusion)
    → any (is_ban a b) (filter (λ e. not (is_exclusion actor target e && e.is_permanent_ban)) xs)
      ≡ (any (is_ban a b) xs && not (actor == a && target == b))
any-ban-delete actor target a b [] = refl
any-ban-delete actor target a b (e ∷ xs) = ground (arith, any-ban-delete actor target a b xs)

-- Removing a block removes the ban in its own direction and no other.
pub has_ban-delete :
    (actor target : ℕ) (db : Db) (a b : ℕ)
    → has_ban (delete_ban actor target db) a b ≡ (has_ban db a b && not (actor == a && target == b))
unfolding has_ban delete_ban
has_ban-delete actor target db a b = any-ban-delete actor target a b db.exclusions

-- An exclusion that is no ban.
abbrev pub is_temporary : ℕ → ℕ → UserExclusion → Bool
is_temporary a b e = is_exclusion a b e && not e.is_permanent_ban

unfoldable pub has_temporary : Db → ℕ → ℕ → Bool
has_temporary db a b = any (is_temporary a b) db.exclusions

any-temporary-delete :
    (actor target a b : ℕ) (xs : List UserExclusion)
    → any
        (is_temporary a b)
        (filter (λ e. not (is_exclusion actor target e && e.is_permanent_ban)) xs)
      ≡ any (is_temporary a b) xs
any-temporary-delete actor target a b [] = refl
any-temporary-delete actor target a b (e ∷ xs) =
    ground (arith, any-temporary-delete actor target a b xs)

pub has_temporary-delete :
    (actor target : ℕ) (db : Db) (a b : ℕ)
    → has_temporary (delete_ban actor target db) a b ≡ has_temporary db a b
unfolding has_temporary delete_ban
has_temporary-delete actor target db a b = any-temporary-delete actor target a b db.exclusions

pub any-chat-deactivate :
    (env : Env) (actor target a b : ℕ) (xs : List Chat)
    → any (is_chat_of a b) (map (deactivate env actor target) xs) ≡ any (is_chat_of a b) xs
unfolding deactivate
any-chat-deactivate env actor target a b [] = refl
any-chat-deactivate env actor target a b (c ∷ xs) =
    ground (arith, any-chat-deactivate env actor target a b xs)

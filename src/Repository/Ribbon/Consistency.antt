-- ===== src/Repository/Ribbon/Consistency.antt =====
-- What holds of the tables of likes, exclusions and chats, and its preservation by a like, a match
-- and a dislike.
use tinder_like_back.Base.{
  ℕ, ◌<◌, ◌≡◌, refl, ◌∙◌, Bool, true, false, not, List, [], ◌∷◌, map, any, none, arith, All,
  All-mono, is_some, Bool-cases, inl, inr,
}
use tinder_like_back.Base.Tables.{Unique}
use tinder_like_back.Models.{Swipe, UserExclusion, Chat}
use tinder_like_back.Database.{Db, Env}
use tinder_like_back.Repository.Ribbon.{
  is_swipe, is_exclusion, is_chat_of, has_swipe, are_excluded, insert_swipe, insert_chat,
  update_ban, upsert_exclusion, keep_ban,
}
use tinder_like_back.Repository.Ribbon.Pairs.{
  is_ban, has_exclusion, has_ban, has_swipe-insert_swipe, are_excluded-split, any-exclusion-update,
  has_ban-dislike,
}

abbrev pub same_swipe : Swipe → Swipe → Bool
same_swipe s = is_swipe s.actor_user_id s.target_user_id

abbrev pub same_exclusion : UserExclusion → UserExclusion → Bool
same_exclusion e = is_exclusion e.action_user_id e.target_user_id

abbrev pub same_chat : Chat → Chat → Bool
same_chat c = is_chat_of c.user_1_id c.user_2_id

-- Both users of the chat have liked each other.
abbrev pub IsMutual : Db → Chat → Type 0
IsMutual db c =
    (has_swipe db c.user_1_id c.user_2_id ≡ true) × (has_swipe db c.user_2_id c.user_1_id ≡ true)

-- An active chat joins no pair with a block in either direction.
abbrev pub IsOpen : Db → Chat → Type 0
IsOpen db c =
    c.is_active ≡ true
    → (has_ban db c.user_1_id c.user_2_id ≡ false) × (has_ban db c.user_2_id c.user_1_id ≡ false)

-- The CHECK chats_active_state_valid, and an id below the sequence's next value.
abbrev pub IsStored : Db → Chat → Type 0
IsStored db c = (is_some c.deactivated_at ≡ not c.is_active) × (c.id < db.next_chat_id)

pub record IsConsistent (db : Db) : Type 0 where
  pub swipes_unique : Unique same_swipe db.swipes
  pub exclusions_unique : Unique same_exclusion db.exclusions
  pub chats_unique : Unique same_chat db.chats
  pub chats_mutual : All (IsMutual db) db.chats
  pub chats_open : All (IsOpen db) db.chats
  pub chats_stored : All (IsStored db) db.chats

has_swipe_mono :
    (env : Env) (actor target : ℕ) (db : Db) (a b : ℕ)
    → has_swipe db a b ≡ true
    → has_swipe (insert_swipe env actor target db) a b ≡ true
has_swipe_mono env actor target db a b h =
    ground (arith, has_swipe-insert_swipe env actor target db a b)

any-ban-exclusion :
    (a b : ℕ) (xs : List UserExclusion)
    → any (is_exclusion a b) xs ≡ false
    → any (is_ban a b) xs ≡ false
any-ban-exclusion a b [] h = refl
any-ban-exclusion a b (e ∷ xs) h = ground (arith, any-ban-exclusion a b xs)

ban-le-exclusion : (db : Db) (a b : ℕ) → has_exclusion db a b ≡ false → has_ban db a b ≡ false
unfolding has_exclusion has_ban
ban-le-exclusion db a b h = any-ban-exclusion a b db.exclusions h

any-same-update :
    (f : Bool → Bool) (actor target : ℕ) (e : UserExclusion) (xs : List UserExclusion)
    → any (same_exclusion (update_ban f actor target e)) xs ≡ any (same_exclusion e) xs
unfolding update_ban
any-same-update f actor target e xs = elim (Bool-cases (is_exclusion actor target e)) [
  | inl hit ↦ rw (hit, update_ban)
  | inr miss ↦ rw (miss, update_ban)
]

update-Unique :
    (f : Bool → Bool) (actor target : ℕ) (xs : List UserExclusion)
    → Unique same_exclusion xs
    → Unique same_exclusion (map (update_ban f actor target) xs)
update-Unique f actor target [] u = tt
update-Unique f actor target (e ∷ xs) u = (
  any-same-update f actor target e (map (update_ban f actor target) xs)
      ∙ any-exclusion-update f actor target e.action_user_id e.target_user_id xs
      ∙ u.0,
  update-Unique f actor target xs u.1,
)

-- The table of chats keeps a predicate if the new row has it.
insert_chat-All :
    (P : Chat → Type 0) (env : Env) (actor target : ℕ) (db : Db)
    → All P db.chats
    → P (record {
      id = db.next_chat_id;
      user_1_id = actor;
      user_2_id = target;
      is_active = true;
      created_at = env.now;
      deactivated_at = none;
    })
    → All P (insert_chat env actor target db).chats
unfolding insert_chat
insert_chat-All P env actor target db a p =
    elim (Bool-cases (any (is_chat_of actor target) db.chats)) [
      | inl old ↦ rw old a
      | inr new ↦ rw new (p, a)
    ]

insert_swipe-Unique :
    (env : Env) (actor target : ℕ) (db : Db)
    → Unique same_swipe db.swipes
    → Unique same_swipe (insert_swipe env actor target db).swipes
unfolding insert_swipe has_swipe
insert_swipe-Unique env actor target db u = ground arith

-- A like keeps the tables consistent.
pub insert_swipe-IsConsistent :
    (env : Env) (actor target : ℕ) (db : Db)
    → IsConsistent db
    → IsConsistent (insert_swipe env actor target db)
unfolding insert_swipe has_ban
insert_swipe-IsConsistent env actor target db v = record {
  swipes_unique = insert_swipe-Unique env actor target db v.swipes_unique;
  exclusions_unique = v.exclusions_unique;
  chats_unique = v.chats_unique;
  chats_mutual =
      All-mono (IsMutual db) _ db.chats
        (λ c h.
          (has_swipe_mono env actor target db _ _ h.0, has_swipe_mono env actor target db _ _ h.1))
        v.chats_mutual;
  chats_open = v.chats_open;
  chats_stored = v.chats_stored;
}

not_banned :
    (db : Db) (a b : ℕ)
    → are_excluded db a b ≡ false
    → (has_ban db a b ≡ false) × (has_ban db b a ≡ false)
not_banned db a b h =
    ground (arith, are_excluded-split db a b, ban-le-exclusion db a b, ban-le-exclusion db b a)

new_chat-Unique :
    (env : Env) (actor target : ℕ) (db : Db)
    → Unique same_chat db.chats
    → Unique same_chat (insert_chat env actor target db).chats
unfolding insert_chat
new_chat-Unique env actor target db u = ground arith

-- A match keeps the tables consistent: both likes are there, and no exclusion.
pub insert_chat-IsConsistent :
    (env : Env) (actor target : ℕ) (db : Db)
    → IsConsistent db
    → has_swipe db actor target ≡ true
    → has_swipe db target actor ≡ true
    → are_excluded db actor target ≡ false
    → IsConsistent (insert_chat env actor target db)
unfolding insert_chat has_swipe has_ban
insert_chat-IsConsistent env actor target db v p q r = record {
  swipes_unique = v.swipes_unique;
  exclusions_unique = v.exclusions_unique;
  chats_unique = new_chat-Unique env actor target db v.chats_unique;
  chats_mutual = insert_chat-All (IsMutual db) env actor target db v.chats_mutual (p, q);
  chats_open =
      insert_chat-All (IsOpen db) env actor target db v.chats_open
        (λ _. not_banned db actor target r);
  chats_stored =
      insert_chat-All (IsStored (insert_chat env actor target db)) env actor target db
        (All-mono (IsStored db) _ db.chats (λ c h. (h.0, omega arith)) v.chats_stored)
        (refl, omega arith);
}

pub upsert_exclusion-Unique :
    (env : Env) (actor target : ℕ) (initial : Bool) (f : Bool → Bool) (db : Db)
    → Unique same_exclusion db.exclusions
    → Unique same_exclusion (upsert_exclusion env initial f actor target db).exclusions
unfolding upsert_exclusion
upsert_exclusion-Unique env actor target initial f db u =
    ground (arith, update-Unique f actor target db.exclusions)

-- A dislike keeps the tables consistent.
pub dislike-IsConsistent :
    (env : Env) (actor target : ℕ) (db : Db)
    → IsConsistent db
    → IsConsistent (upsert_exclusion env false keep_ban actor target db)
unfolding upsert_exclusion has_swipe
dislike-IsConsistent env actor target db v = record {
  swipes_unique = v.swipes_unique;
  exclusions_unique =
      upsert_exclusion-Unique env actor target false keep_ban db v.exclusions_unique;
  chats_unique = v.chats_unique;
  chats_mutual = v.chats_mutual;
  chats_open =
      All-mono (IsOpen db) _ db.chats
        (λ c h active. (
          has_ban-dislike env actor target db _ _ ∙ (h active).0,
          has_ban-dislike env actor target db _ _ ∙ (h active).1,
        ))
        v.chats_open;
  chats_stored = v.chats_stored;
}

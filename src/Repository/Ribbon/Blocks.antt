-- ===== src/Repository/Ribbon/Blocks.antt =====
-- The tables of likes, exclusions and chats under a block and its removal.
use tinder_like_back.Base.{
  ℕ, ◌≡◌, ◌∙◌, true, false, ◌&&◌, ◌||◌, ◌==◌, List, [], ◌∷◌, map, any, arith, All-mono, All-map,
  Bool-cases, inl, inr,
}
use tinder_like_back.Base.Tables.{Unique, Unique-filter}
use tinder_like_back.Models.{Chat}
use tinder_like_back.Database.{Db, Env}
use tinder_like_back.Repository.Ribbon.{
  is_chat_of, has_swipe, upsert_exclusion, set_ban, deactivate, deactivate_chat, delete_ban,
}
use tinder_like_back.Repository.Ribbon.Pairs.{
  has_ban, has_ban-block, has_ban-delete, any-chat-deactivate,
}
use tinder_like_back.Repository.Ribbon.Consistency.{
  same_exclusion, same_chat, IsMutual, IsOpen, IsStored, IsConsistent, upsert_exclusion-Unique,
}

-- The writes of CreateBlock, in their order.
abbrev pub after_block : Env → ℕ → ℕ → Db → Db
after_block env actor target db =
    deactivate_chat env actor target (upsert_exclusion env true set_ban actor target db)

any-same-deactivate :
    (env : Env) (actor target : ℕ) (c : Chat) (xs : List Chat)
    → any (same_chat (deactivate env actor target c)) xs ≡ any (same_chat c) xs
unfolding deactivate
any-same-deactivate env actor target c xs =
    elim (Bool-cases (c.is_active && is_chat_of actor target c)) [
      | inl hit ↦ rw (hit, deactivate)
      | inr miss ↦ rw (miss, deactivate)
    ]

deactivate-Unique :
    (env : Env) (actor target : ℕ) (xs : List Chat)
    → Unique same_chat xs
    → Unique same_chat (map (deactivate env actor target) xs)
deactivate-Unique env actor target [] u = tt
deactivate-Unique env actor target (c ∷ xs) u = (
  any-same-deactivate env actor target c (map (deactivate env actor target) xs)
      ∙ any-chat-deactivate env actor target c.user_1_id c.user_2_id xs
      ∙ u.0,
  deactivate-Unique env actor target xs u.1,
)

deactivate-IsMutual :
    (env : Env) (actor target : ℕ) (db : Db) (c : Chat)
    → IsMutual db c
    → IsMutual db (deactivate env actor target c)
unfolding deactivate
deactivate-IsMutual env actor target db c h = ground arith

deactivate-IsStored :
    (env : Env) (actor target : ℕ) (db : Db) (c : Chat)
    → IsStored db c
    → IsStored db (deactivate env actor target c)
unfolding deactivate
deactivate-IsStored env actor target db c h = ground arith

pub has_ban-after_block :
    (env : Env) (actor target : ℕ) (db : Db) (a b : ℕ)
    → has_ban (after_block env actor target db) a b
      ≡ (has_ban db a b || (actor == a && target == b))
unfolding deactivate_chat has_ban
has_ban-after_block env actor target db a b = has_ban-block env actor target db a b

-- The chat of another pair, or of no active one, is left as it is.
still-IsOpen :
    (env : Env) (actor target : ℕ) (db : Db) (c : Chat)
    → IsOpen db c
    → c.is_active && is_chat_of actor target c ≡ false
    → IsOpen (after_block env actor target db) c
still-IsOpen env actor target db c h miss active = (
  ground (arith, h active, has_ban-after_block env actor target db c.user_1_id c.user_2_id),
  ground (arith, h active, has_ban-after_block env actor target db c.user_2_id c.user_1_id),
)

deactivate-IsOpen :
    (env : Env) (actor target : ℕ) (db : Db) (c : Chat)
    → IsOpen db c
    → IsOpen (after_block env actor target db) (deactivate env actor target c)
unfolding deactivate
deactivate-IsOpen env actor target db c h =
    elim (Bool-cases (c.is_active && is_chat_of actor target c)) [
      | inl hit ↦ rw (hit, deactivate) (λ active. cc)
      | inr miss ↦ rw (miss, deactivate) (still-IsOpen env actor target db c h miss)
    ]

-- A block keeps the tables consistent.
pub block-IsConsistent :
    (env : Env) (actor target : ℕ) (db : Db)
    → IsConsistent db
    → IsConsistent (after_block env actor target db)
unfolding deactivate_chat upsert_exclusion has_swipe has_ban
block-IsConsistent env actor target db v = record {
  swipes_unique = v.swipes_unique;
  exclusions_unique = upsert_exclusion-Unique env actor target true set_ban db v.exclusions_unique;
  chats_unique = deactivate-Unique env actor target db.chats v.chats_unique;
  chats_mutual =
      All-map (IsMutual db) (IsMutual db) _ db.chats (deactivate-IsMutual env actor target db)
        v.chats_mutual;
  chats_open =
      All-map (IsOpen db) (IsOpen (after_block env actor target db)) _ db.chats
        (deactivate-IsOpen env actor target db) v.chats_open;
  chats_stored =
      All-map (IsStored db) (IsStored db) _ db.chats (deactivate-IsStored env actor target db)
        v.chats_stored;
}

delete-keeps_open :
    (actor target : ℕ) (db : Db) (a b : ℕ)
    → has_ban db a b ≡ false
    → has_ban (delete_ban actor target db) a b ≡ false
delete-keeps_open actor target db a b h = ground (arith, has_ban-delete actor target db a b)

-- Removing a block keeps the tables consistent.
pub delete_ban-IsConsistent :
    (actor target : ℕ) (db : Db) → IsConsistent db → IsConsistent (delete_ban actor target db)
unfolding delete_ban has_swipe
delete_ban-IsConsistent actor target db v = record {
  swipes_unique = v.swipes_unique;
  exclusions_unique = Unique-filter same_exclusion _ db.exclusions v.exclusions_unique;
  chats_unique = v.chats_unique;
  chats_mutual = v.chats_mutual;
  chats_open =
      All-mono (IsOpen db) (IsOpen (delete_ban actor target db)) db.chats
        (λ c h active. (
          delete-keeps_open actor target db _ _ (h active).0,
          delete-keeps_open actor target db _ _ (h active).1,
        ))
        v.chats_open;
  chats_stored = v.chats_stored;
}

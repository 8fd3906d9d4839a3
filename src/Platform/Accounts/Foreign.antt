-- ===== src/Platform/Accounts/Foreign.antt =====
-- The foreign keys of the tables (go-core/migrations), when the rows of a user go with the user.
use tinder_like_back.Base.{
  ℕ, ◌≡◌, refl, Bool, true, false, not, ◌&&◌, ◌==◌, List, [], ◌∷◌, any, filter, find?, arith, All,
  Bool-cases, inl, inr,
}
use tinder_like_back.Base.Int.{ℤ, pos, negsuc, eqb_ℤ}
use tinder_like_back.Models.{User, Chat, Message}
use tinder_like_back.Database.{Db, user_exists}
use tinder_like_back.Platform.Accounts.{
  has_id, cascade, chat_stays, swipe_stays, exclusion_stays, report_stays, message_stays,
}

abbrev pub Both : Db → ℕ → ℕ → Type 0
Both db a b = (user_exists db a ≡ true) × (user_exists db b ≡ true)

abbrev pub has_chat : List Chat → ℕ → Bool
has_chat chats id = any (λ c. c.id == id) chats

-- The foreign keys.
pub record IsReferenced (db : Db) : Type 0 where
  pub profiles_owned : All (λ p. user_exists db p.user_id ≡ true) db.profiles
  pub preferences_owned : All (λ p. user_exists db p.user_id ≡ true) db.preferences
  pub photos_owned : All (λ p. user_exists db p.user_id ≡ true) db.photos
  pub swipes_between : All (λ s. Both db s.actor_user_id s.target_user_id) db.swipes
  pub exclusions_between : All (λ e. Both db e.action_user_id e.target_user_id) db.exclusions
  pub reports_between : All (λ r. Both db r.action_user_id r.target_user_id) db.reports
  pub chats_between : All (λ c. Both db c.user_1_id c.user_2_id) db.chats
  pub messages_placed :
      All
        (λ m. (user_exists db m.sender_id ≡ true) × (has_chat db.chats m.chat_id ≡ true))
        db.messages

module _ {A : Type 0} where
  All-filter_with :
      (P Q : A → Type 0) (q : A → Bool) (xs : List A)
      → ((x : A) → P x → q x ≡ true → Q x)
      → All P xs
      → All Q (filter q xs)
  All-filter_with P Q q [] k a = tt
  All-filter_with P Q q (x ∷ xs) k a = elim (Bool-cases (q x)) [
    | inl stays ↦ rw stays (k x a.0 stays, All-filter_with P Q q xs k a.1)
    | inr goes ↦ rw goes (All-filter_with P Q q xs k a.1)
  ]

  filter-All :
      (P : A → Type 0) (q : A → Bool) (xs : List A)
      → ((x : A) → P x → q x ≡ true)
      → All P xs
      → filter q xs ≡ xs
  filter-All P q [] k a = refl
  filter-All P q (x ∷ xs) k a = rw (k x a.0, filter-All P q xs k a.1) refl

  -- A test that fails on every row that goes sees no difference.
  pub any-filter_same :
      (p q : A → Bool) (xs : List A)
      → ((x : A) → p x ≡ true → q x ≡ true)
      → any p (filter q xs) ≡ any p xs
  any-filter_same p q [] k = refl
  any-filter_same p q (x ∷ xs) k = ground (arith, any-filter_same p q xs k, k x)

  pub find-filter_same :
      (p q : A → Bool) (xs : List A)
      → ((x : A) → p x ≡ true → q x ≡ true)
      → find? p (filter q xs) ≡ find? p xs
  find-filter_same p q [] k = refl
  find-filter_same p q (x ∷ xs) k = ground (arith, find-filter_same p q xs k, k x)

pub any-has_id : (n : ℕ) (xs : List User) → any (has_id (pos n)) xs ≡ any (λ u. u.id == n) xs
any-has_id n [] = refl
any-has_id n (u ∷ xs) = ground (arith, any-has_id n xs)

pub any-has_id_negative : (n : ℕ) (xs : List User) → any (has_id (negsuc n)) xs ≡ false
any-has_id_negative n [] = refl
any-has_id_negative n (u ∷ xs) = ground (arith, any-has_id_negative n xs)

module _ (n : ℕ) (db : Db) where
  user_exists-cascade :
      (a : ℕ)
      → eqb_ℤ (pos a) (pos n) ≡ false
      → user_exists (cascade (pos n) db) a ≡ user_exists db a
  unfolding user_exists cascade
  user_exists-cascade a h = any-filter_same _ _ db.users (λ u e. ground arith)

  pub gone_user :
      (xs : List User) → any (λ u. u.id == n) (filter (λ u. not (has_id (pos n) u)) xs) ≡ false
  gone_user [] = refl
  gone_user (u ∷ xs) = ground (arith, gone_user xs)

  Both-stay :
      (a b : ℕ)
      → Both db a b
      → (not (eqb_ℤ (pos a) (pos n)) && not (eqb_ℤ (pos b) (pos n))) ≡ true
      → Both (cascade (pos n) db) a b
  Both-stay a b h k =
      (ground (arith, user_exists-cascade a, h.0), ground (arith, user_exists-cascade b, h.1))

  owner_stays :
      (a : ℕ)
      → user_exists db a ≡ true
      → not (eqb_ℤ (pos a) (pos n)) ≡ true
      → user_exists (cascade (pos n) db) a ≡ true
  owner_stays a h k = ground (arith, user_exists-cascade a, h)

  has_chat-cascade :
      (id : ℕ) (chats : List Chat)
      → has_chat chats id ≡ true
      → any (λ c. not (chat_stays (pos n) c) && eqb_ℤ (pos c.id) (pos id)) chats ≡ false
      → has_chat (filter (chat_stays (pos n)) chats) id ≡ true
  has_chat-cascade id [] h k = absurd cc
  has_chat-cascade id (c ∷ chats) h k = elim (Bool-cases (chat_stays (pos n) c)) [
    | inl stays ↦ rw stays (elim (Bool-cases (c.id == id)) [
      | inl hit ↦ rw hit refl
      | inr miss ↦ rw miss (has_chat-cascade id chats (ground arith) (ground arith))
    ])
    | inr goes ↦ rw goes (has_chat-cascade id chats (ground arith) (ground arith))
  ]

  pub cascade-IsReferenced : IsReferenced db → IsReferenced (cascade (pos n) db)
  unfolding cascade
  cascade-IsReferenced v = record {
    profiles_owned =
        All-filter_with _ _ _ db.profiles (λ p h k. owner_stays p.user_id h k) v.profiles_owned;
    preferences_owned =
        All-filter_with _ _ _ db.preferences (λ p h k. owner_stays p.user_id h k)
          v.preferences_owned;
    photos_owned =
        All-filter_with _ _ _ db.photos (λ p h k. owner_stays p.user_id h k) v.photos_owned;
    swipes_between = All-filter_with _ _ _ db.swipes (λ s h k. Both-stay _ _ h k) v.swipes_between;
    exclusions_between =
        All-filter_with _ _ _ db.exclusions (λ e h k. Both-stay _ _ h k) v.exclusions_between;
    reports_between =
        All-filter_with _ _ _ db.reports (λ r h k. Both-stay _ _ h k) v.reports_between;
    chats_between = All-filter_with _ _ _ db.chats (λ c h k. Both-stay _ _ h k) v.chats_between;
    messages_placed =
        All-filter_with _ _ _ db.messages
          (λ m h k. (
            owner_stays m.sender_id h.0 (ground arith),
            has_chat-cascade m.chat_id db.chats h.1 (ground arith),
          ))
          v.messages_placed;
  }

-- An id that no account has takes no row with it.
module _ (id : ℤ) (db : Db) (nobody : any (has_id id) db.users ≡ false) where
  other_id :
      (a : ℕ) (xs : List User)
      → any (has_id id) xs ≡ false
      → any (λ u. u.id == a) xs ≡ true
      → eqb_ℤ (pos a) id ≡ false
  other_id a [] h k = absurd cc
  other_id a (u ∷ xs) h k = ground (arith, other_id a xs)

  stranger : (a : ℕ) → user_exists db a ≡ true → eqb_ℤ (pos a) id ≡ false
  unfolding user_exists
  stranger a h = other_id a db.users nobody h

  two_strangers :
      (a b : ℕ) → Both db a b → (not (eqb_ℤ (pos a) id) && not (eqb_ℤ (pos b) id)) ≡ true
  two_strangers a b h = rw (stranger a h.0, stranger b h.1) refl

  one_stranger : (a : ℕ) → user_exists db a ≡ true → not (eqb_ℤ (pos a) id) ≡ true
  one_stranger a h = rw (stranger a h) refl

  users_stay :
      (xs : List User) → any (has_id id) xs ≡ false → filter (λ u. not (has_id id u)) xs ≡ xs
  users_stay [] h = refl
  users_stay (u ∷ xs) h = ground (arith, users_stay xs)

  no_chat_goes :
      (chat : ℕ) (xs : List Chat)
      → All (λ c. Both db c.user_1_id c.user_2_id) xs
      → any (λ c. not (chat_stays id c) && eqb_ℤ (pos c.id) (pos chat)) xs ≡ false
  no_chat_goes chat [] a = refl
  no_chat_goes chat (c ∷ xs) a =
      ground (arith, two_strangers c.user_1_id c.user_2_id a.0, no_chat_goes chat xs a.1)

  message_remains :
      (m : Message)
      → IsReferenced db
      → (user_exists db m.sender_id ≡ true) × (has_chat db.chats m.chat_id ≡ true)
      → message_stays id db.chats m ≡ true
  message_remains m v h =
      rw (stranger m.sender_id h.0, no_chat_goes m.chat_id db.chats v.chats_between) refl

  pub nothing_goes : IsReferenced db → cascade id db ≡ db
  unfolding cascade
  nothing_goes v =
      rw
        (
          users_stay db.users nobody,
          filter-All _ (λ p. not (eqb_ℤ (pos p.user_id) id)) db.profiles
              (λ p h. one_stranger p.user_id h) v.profiles_owned,
          filter-All _ (λ p. not (eqb_ℤ (pos p.user_id) id)) db.preferences
              (λ p h. one_stranger p.user_id h) v.preferences_owned,
          filter-All _ (λ p. not (eqb_ℤ (pos p.user_id) id)) db.photos
              (λ p h. one_stranger p.user_id h) v.photos_owned,
          filter-All _ (swipe_stays id) db.swipes (λ s h. two_strangers _ _ h) v.swipes_between,
          filter-All _ (exclusion_stays id) db.exclusions (λ e h. two_strangers _ _ h)
              v.exclusions_between,
          filter-All _ (report_stays id) db.reports (λ r h. two_strangers _ _ h) v.reports_between,
          filter-All _ (chat_stays id) db.chats (λ c h. two_strangers _ _ h) v.chats_between,
          filter-All _ (message_stays id db.chats) db.messages (λ m h. message_remains m v h)
              v.messages_placed,
        )
        refl

-- ===== src/Platform/Accounts/Removed.antt =====
-- What DeleteUser leaves.
use tinder_like_back.Base.{
  ℕ, ◌∙◌, ◌≡◌, ◌≢◌, refl, true, false, ◌==◌, any, find?, arith, Bool-cases, inl, inr, Option, none,
  some,
}
use tinder_like_back.Base.Int.{ℤ, pos, negsuc}
use tinder_like_back.Models.{Text, User}
use tinder_like_back.Errors.{Stage, Result, ok, err}
use tinder_like_back.Database.{Db, Env, user_exists}
use tinder_like_back.Repository.Ribbon.{has_swipe}
use tinder_like_back.Repository.Profiles.{profile_of}
use tinder_like_back.Platform.Accounts.{parse_user_id, cascade, delete_user}
use tinder_like_back.Platform.Accounts.Foreign.{
  IsReferenced, any-has_id, any-has_id_negative, gone_user, cascade-IsReferenced, nothing_goes,
  any-filter_same, find-filter_same,
}

-- The row of an account.
abbrev pub account_of : Db → ℕ → Option User
account_of db a = find? (λ u. u.id == a) db.users

-- How DeleteUser ends. The rows of other users stay.
abbrev pub Removed : Text → Db → Result (Unit {0}) × Db → Type 0
Removed id db (err e, after) = after ≡ db
Removed id db (ok u, after) =
    (n : ℕ) × (parse_user_id id ≡ some (pos n))
    × (user_exists db n ≡ true)
    × IsReferenced after
    × (user_exists after n ≡ false)
    × ((a : ℕ) → a ≢ n → account_of after a ≡ account_of db a)
    × ((a : ℕ) → a ≢ n → profile_of after a ≡ profile_of db a)
    × ((a b : ℕ) → a ≢ n → b ≢ n → has_swipe after a b ≡ has_swipe db a b)

cascade-Removed :
    (n : ℕ) (id : Text) (db : Db)
    → IsReferenced db
    → parse_user_id id ≡ some (pos n)
    → user_exists db n ≡ true
    → Removed id db (ok tt, cascade (pos n) db)
unfolding cascade user_exists profile_of has_swipe
cascade-Removed n id db v h here = (
  n,
  h,
  here,
  cascade-IsReferenced n db v,
  gone_user n db db.users,
  (λ a d. find-filter_same _ _ db.users (λ u e. ground arith)),
  (λ a d. find-filter_same _ _ db.profiles (λ p e. ground arith)),
  (λ a b d d'. any-filter_same _ _ db.swipes (λ s e. ground arith)),
)

-- A row goes only if its user goes.
delete_user-cases :
    (env : Env) (text : Text) (id : Option ℤ) (db : Db)
    → IsReferenced db
    → parse_user_id text ≡ id
    → Removed text db (delete_user env text db)
unfolding delete_user user_exists
delete_user-cases env text none db v h = rw h refl
delete_user-cases env text (some (negsuc n)) db v h =
    elim (Bool-cases (env.fails Stage.delete_user)) [
      | inl bad ↦ rw (h, bad) refl
      | inr works ↦
          rw (h, works, any-has_id_negative n db.users)
            (nothing_goes (negsuc n) db (any-has_id_negative n db.users) v)
    ]
delete_user-cases env text (some (pos n)) db v h = elim (Bool-cases (env.fails Stage.delete_user)) [
  | inl bad ↦ rw (h, bad) refl
  | inr works ↦ elim (Bool-cases (any (λ u. u.id == n) db.users)) [
    | inl here ↦ rw (h, works, any-has_id n db.users, here) (cascade-Removed n text db v h here)
    | inr missing ↦
        rw (h, works, any-has_id n db.users, missing)
          (nothing_goes (pos n) db (any-has_id n db.users ∙ missing) v)
  ]
]

-- In a database whose foreign keys hold, DeleteUser either fails and changes nothing, or the account
-- of the id is gone, and with it every row that points to it: the foreign keys still hold. The
-- accounts and profiles of other users and the likes between them are as before.
pub delete_user-Removed :
    (env : Env) (id : Text) (db : Db) → IsReferenced db → Removed id db (delete_user env id db)
delete_user-Removed env id db v = delete_user-cases env id _ db v refl

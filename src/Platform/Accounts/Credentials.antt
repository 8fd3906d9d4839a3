-- ===== src/Platform/Accounts/Credentials.antt =====
-- What AuthStore returns after it has stored an account or a hash, and its errors.
use tinder_like_back.Base.{
  ℕ, ◌<◌, ◌^◌, ◌≡◌, ◌≢◌, refl, sym, ◌∙◌, ap, Bool, true, false, List, [], ◌∷◌, any, find?, arith,
  Bool-cases, inl, inr, Option, none, some,
}
use tinder_like_back.Base.Int.{ℤ, pos, negsuc, eqb_ℤ}
use tinder_like_back.Models.{Text, User}
use tinder_like_back.Text.{text_eq}
use tinder_like_back.Text.Cursor.{parse_int-format_int}
use tinder_like_back.Errors.{Stage, Result, ok, err, already_exists}
use tinder_like_back.Database.{Db, Env}
use tinder_like_back.Repository.Ribbon.Likes.{NoFaults}
use tinder_like_back.Repository.Users.{email_taken, insert_user, create, is_unique_violation}
use tinder_like_back.Platform.Accounts.{
  StorageUser, storage_user, parse_user_id, has_id, has_email, scan_row, update_where, set_hash,
  create_user, get_user, get_user_by_id, get_user_by_email, store_password_hash, get_password_hash,
}
use tinder_like_back.Platform.Accounts.Keys.{update_where_miss}

pub text_eq_refl : (s : Text) → text_eq s s ≡ true
text_eq_refl [] = refl
text_eq_refl (c ∷ s) = ground (arith, text_eq_refl s)

-- The account that was created is the one that the id and the email lead to, with an empty hash; or
-- the email was taken.
abbrev pub Registered : Env → Text → Db → Result StorageUser × Db → Type 0
Registered env email db (err e, after) =
    (email_taken env email db.users ≡ true) × (e ≡ already_exists) × (after.users ≡ db.users)
Registered env email db (ok user, after) =
    (email_taken env email db.users ≡ false)
    × (user.email ≡ email)
    × (get_user_by_id env user.id after ≡ (ok user, after))
    × (get_user_by_email env email after ≡ (ok user, after))
    × (get_password_hash env user.id after ≡ (ok [], after))

has_id_self : (n : ℕ) → eqb_ℤ (pos n) (pos n) ≡ true
has_id_self n = ground arith

-- Without faults of the driver, and while the ids of the table are int64, CreateUser goes through
-- exactly if no account has the email by the unique index; then GetUserByID with the new id and
-- GetUserByEmail with the email return the user that CreateUser has filled in, and its hash is
-- empty. Otherwise it returns ErrAlreadyExists, and the table is as before.
pub create_user-Registered :
    (env : Env) (user : StorageUser) (db : Db)
    → NoFaults env
    → db.next_user_id < 2 ^ 63
    → Registered env user.email db (create_user env user db)
unfolding create_user create insert_user get_user_by_id get_user_by_email get_user get_password_hash
    parse_user_id is_unique_violation
create_user-Registered env user db f small =
    elim (Bool-cases (email_taken env user.email db.users)) [
      | inl taken ↦ rw (f Stage.create_user, taken) (taken, refl, refl)
      | inr free ↦
          rw (f Stage.create_user, free)
            (
              free,
              refl,
              rw
                  (
                    parse_int-format_int db.next_user_id small,
                    f Stage.get_user,
                    has_id_self db.next_user_id,
                  )
                  refl,
              rw (f Stage.get_user, text_eq_refl user.email) refl,
              rw
                  (
                    parse_int-format_int db.next_user_id small,
                    f Stage.get_password_hash,
                    has_id_self db.next_user_id,
                  )
                  refl,
            )
    ]

has_id_unique : (id other : ℤ) (u : User) → has_id id u ≡ true → has_id other u ≡ true → id ≡ other
has_id_unique (pos n) (pos m) u h k = ap pos (ground arith)
has_id_unique (pos n) (negsuc m) u h k = absurd (ground arith)
has_id_unique (negsuc n) other u h k = absurd (ground arith)

module _ (id : ℤ) (hash : Text) where
  abbrev hashed : List User → List User
  hashed = update_where (has_id id) (λ u. record u { password_hash = hash })

  find-hashed :
      (xs : List User)
      → any (has_id id) xs ≡ true
      → (u : User) × (find? (has_id id) (hashed xs) ≡ some u) × (u.password_hash ≡ hash)
  find-hashed [] h = absurd cc
  find-hashed (x ∷ xs) h = elim (Bool-cases (has_id id x)) [
    | inl hit ↦ rw (hit, hit) (record x { password_hash = hash }, refl, refl)
    | inr miss ↦ rw (miss, miss) (find-hashed xs (ground arith))
  ]

  find-hashed_other :
      (other : ℤ) (xs : List User)
      → other ≢ id
      → find? (has_id other) (hashed xs) ≡ find? (has_id other) xs
  find-hashed_other other [] n = refl
  find-hashed_other other (x ∷ xs) n =
      ground (arith, find-hashed_other other xs n, has_id_unique other id x)

  -- A hash bears on no lookup of a user.
  scan-hashed :
      (hit : User → Bool) (xs : List User) (before after : Db)
      → ((u : User) → hit (record u { password_hash = hash }) ≡ hit u)
      → (scan_row storage_user (find? hit (hashed xs)) after).0
        ≡ (scan_row storage_user (find? hit xs) before).0
  scan-hashed hit [] before after k = refl
  scan-hashed hit (x ∷ xs) before after k = ground (arith, k x, scan-hashed hit xs before after k)

-- What a stored hash changes: what is returned for this id, and nothing else that is read here.
abbrev pub Hashed : Env → Text → Text → Db → Result (Unit {0}) × Db → Type 0
Hashed env id hash db (err e, after) = after ≡ db
Hashed env id hash db (ok u, after) =
    (get_password_hash env id after ≡ (ok hash, after))
    × ((other : Text)
        → parse_user_id other ≢ parse_user_id id
        → (get_password_hash env other after).0 ≡ (get_password_hash env other db).0)
    × ((other : Text) → (get_user_by_id env other after).0 ≡ (get_user_by_id env other db).0)
    × ((email : Text) → (get_user_by_email env email after).0 ≡ (get_user_by_email env email db).0)

same_row :
    (r : Option User) (o : Option User) (db after : Db)
    → r ≡ o
    → (scan_row (λ u. u.password_hash) r after).0 ≡ (scan_row (λ u. u.password_hash) o db).0
same_row r none db after h = rw h refl
same_row r (some u) db after h = rw h refl

hash_of_other :
    (env : Env) (id : ℤ) (hash other : Text) (k : Option ℤ) (db : Db)
    → NoFaults env
    → parse_user_id other ≡ k
    → k ≢ some id
    → (get_password_hash env other (set_hash id hash db)).0 ≡ (get_password_hash env other db).0
unfolding get_password_hash
hash_of_other env id hash other none db f h n = rw h refl
hash_of_other env id hash other (some k) db f h n =
    rw (h, f Stage.get_password_hash)
      (same_row _ _ db (set_hash id hash db)
        (find-hashed_other id hash k db.users (λ e. n (ap some e))))

user_of_other :
    (env : Env) (id : ℤ) (hash other : Text) (k : Option ℤ) (db : Db)
    → NoFaults env
    → parse_user_id other ≡ k
    → (get_user_by_id env other (set_hash id hash db)).0 ≡ (get_user_by_id env other db).0
unfolding get_user_by_id get_user
user_of_other env id hash other none db f h = rw h refl
user_of_other env id hash other (some k) db f h =
    rw (h, f Stage.get_user) (scan-hashed id hash (has_id k) db.users db _ (λ u. refl))

user_of_email :
    (env : Env) (id : ℤ) (hash email : Text) (db : Db)
    → NoFaults env
    → (get_user_by_email env email (set_hash id hash db)).0 ≡ (get_user_by_email env email db).0
unfolding get_user_by_email get_user
user_of_email env id hash email db f =
    rw (f Stage.get_user) (scan-hashed id hash (has_email email) db.users db _ (λ u. refl))

hash_of_id :
    (env : Env) (text hash : Text) (id : ℤ) (db : Db)
    → NoFaults env
    → parse_user_id text ≡ some id
    → any (has_id id) db.users ≡ true
    → get_password_hash env text (set_hash id hash db) ≡ (ok hash, set_hash id hash db)
unfolding get_password_hash
hash_of_id env text hash id db f h here =
    let (u, found, same) = find-hashed id hash db.users here in
    rw (h, f Stage.get_password_hash, found, same) refl

stored-Hashed :
    (env : Env) (text hash : Text) (id : Option ℤ) (db : Db)
    → NoFaults env
    → parse_user_id text ≡ id
    → Hashed env text hash db (store_password_hash env text hash db)
unfolding store_password_hash
stored-Hashed env text hash none db f h = rw h refl
stored-Hashed env text hash (some id) db f h = elim (Bool-cases (any (has_id id) db.users)) [
  | inl here ↦
      rw (h, f Stage.store_password_hash, here)
        (
          hash_of_id env text hash id db f h here,
          (λ other n. hash_of_other env id hash other _ db f refl (λ e. n (e ∙ sym h))),
          (λ other. user_of_other env id hash other _ db f refl),
          (λ email. user_of_email env id hash email db f),
        )
  | inr missing ↦
      rw (h, f Stage.store_password_hash, missing)
        (rw (update_where_miss id (λ u. record u { password_hash = hash }) db.users missing) refl)
]

-- Without faults of the driver, StorePasswordHash either fails and changes nothing, or
-- GetPasswordHash returns the hash for this id from then on; for every other id it returns what it
-- did before, and so do GetUserByID and GetUserByEmail.
pub store_password_hash-Hashed :
    (env : Env) (id hash : Text) (db : Db)
    → NoFaults env
    → Hashed env id hash db (store_password_hash env id hash db)
store_password_hash-Hashed env id hash db f = stored-Hashed env id hash _ db f refl

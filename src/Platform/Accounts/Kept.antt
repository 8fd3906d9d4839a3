-- ===== src/Platform/Accounts/Kept.antt =====
-- The unique keys of the table of users, under every operation of AuthStore that writes.
use tinder_like_back.Base.{
  suc, ◌≡◌, refl, false, [], any, arith, All, All-mono, All-filter, Bool-cases, inl, inr, Option,
  none, some, if◌then◌else◌,
}
use tinder_like_back.Base.Int.{ℤ}
use tinder_like_back.Base.Tables.{Unique-filter}
use tinder_like_back.Models.{Text, User}
use tinder_like_back.Text.{format_int}
use tinder_like_back.Errors.{Stage, Result, ok, err, user_already_exists}
use tinder_like_back.Database.{Db, Env, pure, resume}
use tinder_like_back.Repository.Users.{
  email_taken, insert_user, create, map_error, is_unique_violation,
}
use tinder_like_back.Platform.Accounts.{
  StorageUser, parse_user_id, has_id, email_conflict, set_email, set_hash, exec_email,
  user_exists_error, cascade, create_user, update_user, delete_user, store_password_hash,
}
use tinder_like_back.Platform.Accounts.Keys.{
  same_id, same_email, IsKey, IsAccounts, any-id-below, update_where_miss, update-Unique_id,
  update-IsKey, update-Unique_email, renamed-Unique,
}

-- The operations that write.
pub data Command : Type 0 where
  creates updates : StorageUser → Command
  deletes : Text → Command
  stores_hash : Text → Text → Command

unfoldable pub step : Env → Command → Db → Db
step env (creates user) db = (create_user env user db).1
step env (updates user) db = (update_user env user db).1
step env (deletes id) db = (delete_user env id db).1
step env (stores_hash id hash) db = (store_password_hash env id hash db).1

insert_user-IsAccounts :
    (env : Env) (email hash : Text) (db : Db)
    → IsAccounts env.lower db
    → IsAccounts env.lower (insert_user env email hash db).1
unfolding insert_user email_taken
insert_user-IsAccounts env email hash db v = elim (Bool-cases (env.fails Stage.create_user)) [
  | inl bad ↦ rw bad v
  | inr works ↦ elim (Bool-cases (email_taken env email db.users)) [
    | inl taken ↦
        rw (works, taken)
          (record {
            emails_unique = v.emails_unique;
            ids_unique = v.ids_unique;
            ids_drawn = wider;
            next_positive = omega arith;
          })
    | inr free ↦
        rw (works, free)
          (record {
            emails_unique = (free, v.emails_unique);
            ids_unique = (any-id-below db.next_user_id db.users v.ids_drawn, v.ids_unique);
            ids_drawn = ((v.next_positive, omega arith), wider);
            next_positive = omega arith;
          })
  ]
]
  where
    wider : All (IsKey (suc db.next_user_id)) db.users
    wider =
        All-mono (IsKey db.next_user_id) _ db.users (λ u k. (k.0, omega (arith, k.1))) v.ids_drawn

pub create_user-db :
    (env : Env) (user : StorageUser) (db : Db)
    → (create_user env user db).1 ≡ (insert_user env user.email [] db).1
unfolding create_user create
create_user-db env user db = inserted (insert_user env user.email [] db)
  where
    inserted :
        (r : Result User × Db)
        → (resume
            (λ created. pure (record user {
              id = format_int created.id;
              provider = "basic";
              created_at = created.created_at;
            }))
            (map_error user_exists_error
              (map_error (λ e. if is_unique_violation e then user_already_exists else e) r))).1
          ≡ r.1
    inserted (ok u, after) = refl
    inserted (err e, after) = refl

set_hash-IsAccounts :
    (lower : Text → Text) (id : ℤ) (hash : Text) (db : Db)
    → IsAccounts lower db
    → IsAccounts lower (set_hash id hash db)
set_hash-IsAccounts lower id hash db v = record {
  emails_unique = update-Unique_email lower id _ (λ u. refl) db.users v.emails_unique;
  ids_unique = update-Unique_id id _ (λ u. refl) db.users v.ids_unique;
  ids_drawn = update-IsKey id _ (λ u. refl) db.next_user_id db.users v.ids_drawn;
  next_positive = v.next_positive;
}

set_email-IsAccounts :
    (env : Env) (id : ℤ) (email : Text) (db : Db)
    → IsAccounts env.lower db
    → email_conflict env id email db.users ≡ false
    → IsAccounts env.lower (set_email id email db)
set_email-IsAccounts env id email db v free = record {
  emails_unique = elim (Bool-cases (any (has_id id) db.users)) [
    | inl here ↦
        renamed-Unique env.lower id email db.users (ground arith) v.ids_unique v.emails_unique
    | inr missing ↦
        rw (update_where_miss id (λ u. record u { email = email }) db.users missing) v.emails_unique
  ];
  ids_unique = update-Unique_id id _ (λ u. refl) db.users v.ids_unique;
  ids_drawn = update-IsKey id _ (λ u. refl) db.next_user_id db.users v.ids_drawn;
  next_positive = v.next_positive;
}

cascade-IsAccounts :
    (lower : Text → Text) (id : ℤ) (db : Db)
    → IsAccounts lower db
    → IsAccounts lower (cascade id db)
unfolding cascade
cascade-IsAccounts lower id db v = record {
  emails_unique = Unique-filter (same_email lower) _ db.users v.emails_unique;
  ids_unique = Unique-filter same_id _ db.users v.ids_unique;
  ids_drawn = All-filter (IsKey db.next_user_id) _ db.users v.ids_drawn;
  next_positive = v.next_positive;
}

-- The three statements on the row of an id.
update_user-IsAccounts :
    (env : Env) (user : StorageUser) (id : Option ℤ) (db : Db)
    → parse_user_id user.id ≡ id
    → IsAccounts env.lower db
    → IsAccounts env.lower (update_user env user db).1
unfolding update_user exec_email is_unique_violation
update_user-IsAccounts env user none db h v = rw h v
update_user-IsAccounts env user (some id) db h v = elim (Bool-cases (env.fails Stage.update_user)) [
  | inl bad ↦ rw (h, bad) v
  | inr works ↦ elim (Bool-cases (email_conflict env id user.email db.users)) [
    | inl taken ↦ rw (h, works, taken) v
    | inr free ↦ rw (h, works, free) (set_email-IsAccounts env id user.email db v free)
  ]
]

delete_user-IsAccounts :
    (env : Env) (text : Text) (id : Option ℤ) (db : Db)
    → parse_user_id text ≡ id
    → IsAccounts env.lower db
    → IsAccounts env.lower (delete_user env text db).1
unfolding delete_user
delete_user-IsAccounts env text none db h v = rw h v
delete_user-IsAccounts env text (some id) db h v = elim (Bool-cases (env.fails Stage.delete_user)) [
  | inl bad ↦ rw (h, bad) v
  | inr works ↦ rw (h, works) (cascade-IsAccounts env.lower id db v)
]

store_hash-IsAccounts :
    (env : Env) (text hash : Text) (id : Option ℤ) (db : Db)
    → parse_user_id text ≡ id
    → IsAccounts env.lower db
    → IsAccounts env.lower (store_password_hash env text hash db).1
unfolding store_password_hash
store_hash-IsAccounts env text hash none db h v = rw h v
store_hash-IsAccounts env text hash (some id) db h v =
    elim (Bool-cases (env.fails Stage.store_password_hash)) [
      | inl bad ↦ rw (h, bad) v
      | inr works ↦ rw (h, works) (set_hash-IsAccounts env.lower id hash db v)
    ]

-- Every operation of AuthStore that writes keeps the keys of the table of users: no two accounts
-- have emails that lower() makes equal, no two have the same id, and each id was drawn from the
-- sequence, so a new account never gets the id of an earlier one.
pub step-IsAccounts :
    (env : Env) (command : Command) (db : Db)
    → IsAccounts env.lower db
    → IsAccounts env.lower (step env command db)
unfolding step
step-IsAccounts env (creates user) db v =
    rw (create_user-db env user db) (insert_user-IsAccounts env user.email [] db v)
step-IsAccounts env (updates user) db v = update_user-IsAccounts env user _ db refl v
step-IsAccounts env (deletes id) db v = delete_user-IsAccounts env id _ db refl v
step-IsAccounts env (stores_hash id hash) db v = store_hash-IsAccounts env id hash _ db refl v

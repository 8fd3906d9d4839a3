-- ===== src/Platform/Accounts/History.antt =====
-- Any history of the operations of AuthStore that write.
use tinder_like_back.Base.{
  ℕ, ◌≤◌, ◌<◌, ◌≡◌, refl, false, List, [], ◌∷◌, any, ◌==◌, arith, All, Bool-cases, inl, inr, Option,
  none, some, any-filter-false, subst, sym,
}
use tinder_like_back.Base.Int.{ℤ}
use tinder_like_back.Models.{Text, User}
use tinder_like_back.Errors.{Stage}
use tinder_like_back.Database.{Db, Env, user_exists}
use tinder_like_back.Repository.Users.{email_taken, insert_user, is_unique_violation}
use tinder_like_back.Platform.Accounts.{
  StorageUser, parse_user_id, has_id, email_conflict, update_where, exec_email, cascade,
  update_user, delete_user, store_password_hash,
}
use tinder_like_back.Platform.Accounts.Keys.{IsAccounts}
use tinder_like_back.Platform.Accounts.Kept.{
  Command, creates, updates, deletes, stores_hash, step, create_user-db, step-IsAccounts,
}

-- The sequence does not go back, and an id that was given out and has no account gets none again.
abbrev pub StaysGone : Db → Db → Type 0
StaysGone db after =
    (db.next_user_id ≤ after.next_user_id)
    × ((id : ℕ) → id < db.next_user_id → user_exists db id ≡ false → user_exists after id ≡ false)

unchanged : (db : Db) → StaysGone db db
unchanged db = (omega arith, (λ id d h. h))

StaysGone-trans : (a b c : Db) → StaysGone a b → StaysGone b c → StaysGone a c
StaysGone-trans a b c (n, g) (m, h) =
    (omega (arith, n, m), (λ id d k. h id (omega (arith, d, n)) (g id d k)))

any-id-where :
    (id : ℤ) (f : User → User) (k : ℕ) (xs : List User)
    → ((u : User) → (f u).id ≡ u.id)
    → any (λ u. u.id == k) (update_where (has_id id) f xs) ≡ any (λ u. u.id == k) xs
any-id-where id f k [] keeps = refl
any-id-where id f k (x ∷ xs) keeps = ground (arith, any-id-where id f k xs keeps, keeps x)

-- A statement that changes the row of an id.
where-StaysGone :
    (id : ℤ) (f : User → User) (db : Db)
    → ((u : User) → (f u).id ≡ u.id)
    → StaysGone db (record db { users = update_where (has_id id) f db.users })
unfolding user_exists
where-StaysGone id f db keeps = (omega arith, (λ k d h. rw (any-id-where id f k db.users keeps) h))

insert_user-StaysGone :
    (env : Env) (email hash : Text) (db : Db) → StaysGone db (insert_user env email hash db).1
unfolding insert_user email_taken user_exists
insert_user-StaysGone env email hash db = elim (Bool-cases (env.fails Stage.create_user)) [
  | inl bad ↦ rw bad (unchanged db)
  | inr works ↦ elim (Bool-cases (email_taken env email db.users)) [
    | inl taken ↦ rw (works, taken) (omega arith, (λ id d h. h))
    | inr free ↦ rw (works, free) (omega arith, (λ id d h. ground arith))
  ]
]

cascade-StaysGone : (id : ℤ) (db : Db) → StaysGone db (cascade id db)
unfolding cascade user_exists
cascade-StaysGone id db = (omega arith, (λ k d h. any-filter-false (λ u. u.id == k) _ db.users h))

update_user-StaysGone :
    (env : Env) (user : StorageUser) (id : Option ℤ) (db : Db)
    → parse_user_id user.id ≡ id
    → StaysGone db (update_user env user db).1
unfolding update_user exec_email is_unique_violation
update_user-StaysGone env user none db h = rw h (unchanged db)
update_user-StaysGone env user (some id) db h = elim (Bool-cases (env.fails Stage.update_user)) [
  | inl bad ↦ rw (h, bad) (unchanged db)
  | inr works ↦ elim (Bool-cases (email_conflict env id user.email db.users)) [
    | inl taken ↦ rw (h, works, taken) (unchanged db)
    | inr free ↦ rw (h, works, free) (where-StaysGone id _ db (λ u. refl))
  ]
]

delete_user-StaysGone :
    (env : Env) (text : Text) (id : Option ℤ) (db : Db)
    → parse_user_id text ≡ id
    → StaysGone db (delete_user env text db).1
unfolding delete_user
delete_user-StaysGone env text none db h = rw h (unchanged db)
delete_user-StaysGone env text (some id) db h = elim (Bool-cases (env.fails Stage.delete_user)) [
  | inl bad ↦ rw (h, bad) (unchanged db)
  | inr works ↦ rw (h, works) (cascade-StaysGone id db)
]

store_hash-StaysGone :
    (env : Env) (text hash : Text) (id : Option ℤ) (db : Db)
    → parse_user_id text ≡ id
    → StaysGone db (store_password_hash env text hash db).1
unfolding store_password_hash
store_hash-StaysGone env text hash none db h = rw h (unchanged db)
store_hash-StaysGone env text hash (some id) db h =
    elim (Bool-cases (env.fails Stage.store_password_hash)) [
      | inl bad ↦ rw (h, bad) (unchanged db)
      | inr works ↦ rw (h, works) (where-StaysGone id _ db (λ u. refl))
    ]

step-StaysGone : (env : Env) (command : Command) (db : Db) → StaysGone db (step env command db)
unfolding step
step-StaysGone env (creates user) db =
    subst (StaysGone db) (sym (create_user-db env user db))
      (insert_user-StaysGone env user.email [] db)
step-StaysGone env (updates user) db = update_user-StaysGone env user _ db refl
step-StaysGone env (deletes id) db = delete_user-StaysGone env id _ db refl
step-StaysGone env (stores_hash id hash) db = store_hash-StaysGone env id hash _ db refl

unfoldable pub run : List (Env × Command) → Db → Db
run [] db = db
run ((env, command) ∷ rest) db = run rest (step env command db)

-- Any history of the operations of AuthStore that write, with any faults, keeps the keys of the table
-- of users: at its end no two accounts have emails that lower() makes equal, no two have the same id,
-- and each id was drawn from the sequence. An id that was given out before it and has no account at
-- its start has none at its end, so the id of a deleted account is never given again. lower() is the
-- same all along.
pub run-IsAccounts :
    (lower : Text → Text) (calls : List (Env × Command)) (db : Db)
    → All (λ call. call.0.lower ≡ lower) calls
    → IsAccounts lower db
    → IsAccounts lower (run calls db) × StaysGone db (run calls db)
unfolding run
run-IsAccounts lower [] db same v = (v, unchanged db)
run-IsAccounts lower ((env, command) ∷ rest) db (e, same) v =
    let v' =
      subst (λ f. IsAccounts f (step env command db)) e
        (step-IsAccounts env command db (subst (λ f. IsAccounts f db) (sym e) v)) in
    let (w, g) = run-IsAccounts lower rest (step env command db) same v' in
    (w, StaysGone-trans db (step env command db) _ (step-StaysGone env command db) g)

-- ===== src/Repository/Users.antt =====
-- go-core/internal/repository/user_repository.go, with the index users_email_lower_uq of
-- migrations/0001_init_users.sql.
use tinder_like_back.Base.{suc, Bool, true, false, none, List, ◌∷◌, any, if◌then◌else◌}
use tinder_like_back.Models.{Text, User}
use tinder_like_back.Text.{text_eq}
use tinder_like_back.Errors.{
  Stage, Error, Result, ok, err, internal, unique_violation, user_already_exists,
}
use tinder_like_back.Database.{Db, Env, Action}

-- The key of the index is taken.
unfoldable pub email_taken : Env → Text → List User → Bool
email_taken env email users = any (λ u. text_eq (env.lower u.email) (env.lower email)) users

abbrev pub new_user : Env → Text → Text → Db → User
new_user env email password_hash db = record {
  id = db.next_user_id;
  email = email;
  password_hash = password_hash;
  is_verified = false;
  verified_at = none;
  created_at = env.now;
  updated_at = env.now;
}

-- Scan leaves what RETURNING does not name at its zero value.
abbrev pub returned_user : User → User
returned_user row = record row { updated_at = 0 }

-- INSERT INTO users … RETURNING …: a row that breaks the index still uses up an id.
unfoldable pub insert_user : Env → Text → Text → Action User
unfolding email_taken
insert_user env email password_hash db =
    if env.fails Stage.create_user
    then (err (internal Stage.create_user), db)
    else if email_taken env email db.users
    then (err unique_violation, record db { next_user_id = suc db.next_user_id })
    else (
      ok (returned_user (new_user env email password_hash db)),
      record db {
        users = new_user env email password_hash db ∷ db.users;
        next_user_id = suc db.next_user_id;
      },
    )

unfoldable pub is_unique_violation : Error → Bool
is_unique_violation unique_violation = true
is_unique_violation _ = false

-- `if err != nil { … }`, for an error that is replaced by another.
abbrev pub map_error : {A : Type 0} → (Error → Error) → Result A × Db → Result A × Db
map_error f (ok a, db) = (ok a, db)
map_error f (err e, db) = (err (f e), db)

unfoldable pub create : Env → Text → Text → Action User
unfolding insert_user is_unique_violation
create env email password_hash db =
    map_error (λ e. if is_unique_violation e then user_already_exists else e)
      (insert_user env email password_hash db)

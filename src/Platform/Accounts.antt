-- ===== src/Platform/Accounts.antt =====
-- go-core/internal/platform/postgres/auth_store.go: the table of users as go-auth's store of users
-- and credentials. A hash is a text here, as it is in the table.
pub mod Keys
pub mod Kept
pub mod History
pub mod Credentials
pub mod Foreign
pub mod Removed
pub mod Refusals
use Prim.Native.String.{String}
use tinder_like_back.Base.{
  ℕ, Bool, true, false, not, ◌&&◌, ◌||◌, Option, none, some, List, [], ◌∷◌, any, map, filter, find?,
  if◌then◌else◌,
}
use tinder_like_back.Base.Int.{ℤ, pos, eqb_ℤ}
use tinder_like_back.Models.{
  Text, User, Profile, DiscoveryPreferences, Swipe, UserExclusion, Chat, Message, Report, UserPhoto,
}
use tinder_like_back.Text.{text_eq, parse_int, format_int}
use tinder_like_back.Errors.{
  Stage, Error, Result, ok, err, internal, unique_violation, user_already_exists, already_exists,
  not_found, unsupported_auth_storage,
}
use tinder_like_back.Database.{Db, Env, Action, pure, fail, ◌>>=◌, ◌>>◌, fail_if, query}
use tinder_like_back.Repository.Users.{create, map_error, is_unique_violation}

-- storage.User of go-auth, with the fields that are written here.
pub record StorageUser : Type 0 where
  pub id : Text
  pub email : Text
  pub provider : String
  pub created_at : ℕ

-- parseUserID
unfoldable pub parse_user_id : Text → Option ℤ
parse_user_id id = parse_int id

-- WHERE id = $1
abbrev pub has_id : ℤ → User → Bool
has_id id u = eqb_ℤ (pos u.id) id

-- WHERE email = $1
abbrev pub has_email : Text → User → Bool
has_email email u = text_eq u.email email

abbrev pub storage_user : User → StorageUser
storage_user u = record {
  id = format_int u.id;
  email = u.email;
  provider = "basic";
  created_at = u.created_at;
}

-- `userID, err := parseUserID(id); if err != nil { return storage.ErrNotFound }`
abbrev pub with_user_id : {A : Type 0} → Option ℤ → (ℤ → Action A) → Action A
with_user_id none f = fail not_found
with_user_id (some id) f = f id

-- Scan, with pgx.ErrNoRows for no row.
abbrev pub scan_row : {A B : Type 0} → (A → B) → Option A → Action B
scan_row f none = fail not_found
scan_row f (some a) = pure (f a)

abbrev pub user_exists_error : Error → Error
user_exists_error user_already_exists = already_exists
user_exists_error e = e

-- A statement on the row of an id; it tells whether a row was affected.
abbrev pub exec_affected : Env → Stage → ℤ → (Db → Db) → Action Bool
exec_affected env stage id write db =
    if env.fails stage
    then (err (internal stage), db)
    else (ok (any (has_id id) db.users), write db)

-- `if result.RowsAffected() == 0 { return storage.ErrNotFound }`
abbrev pub check_affected : Action Bool → Action (Unit {0})
check_affected act = act >>= λ affected. fail_if (not affected) not_found

abbrev pub update_where : (User → Bool) → (User → User) → List User → List User
update_where hit f = map (λ u. if hit u then f u else u)

-- The new email is another user's, by the unique index.
abbrev pub email_conflict : Env → ℤ → Text → List User → Bool
email_conflict env id email users =
    any (has_id id) users
    && any (λ u. not (has_id id u) && text_eq (env.lower u.email) (env.lower email)) users

abbrev pub set_email : ℤ → Text → Db → Db
set_email id email db = record db {
  users = update_where (has_id id) (λ u. record u { email = email }) db.users;
}

abbrev pub set_hash : ℤ → Text → Db → Db
set_hash id hash db = record db {
  users = update_where (has_id id) (λ u. record u { password_hash = hash }) db.users;
}

-- UPDATE users SET email = $2 WHERE id = $1
unfoldable pub exec_email : Env → ℤ → Text → Action Bool
exec_email env id email db =
    if env.fails Stage.update_user
    then (err (internal Stage.update_user), db)
    else if email_conflict env id email db.users
    then (err unique_violation, db)
    else (ok (any (has_id id) db.users), set_email id email db)

-- The rows that a deleted user's rows take with them: ON DELETE CASCADE in each table.
abbrev pub chat_stays : ℤ → Chat → Bool
chat_stays id c = not (eqb_ℤ (pos c.user_1_id) id) && not (eqb_ℤ (pos c.user_2_id) id)

abbrev pub message_stays : ℤ → List Chat → Message → Bool
message_stays id chats m =
    not (eqb_ℤ (pos m.sender_id) id)
    && not (any (λ c. not (chat_stays id c) && eqb_ℤ (pos c.id) (pos m.chat_id)) chats)

abbrev pub swipe_stays : ℤ → Swipe → Bool
swipe_stays id s = not (eqb_ℤ (pos s.actor_user_id) id) && not (eqb_ℤ (pos s.target_user_id) id)

abbrev pub exclusion_stays : ℤ → UserExclusion → Bool
exclusion_stays id e =
    not (eqb_ℤ (pos e.action_user_id) id) && not (eqb_ℤ (pos e.target_user_id) id)

abbrev pub report_stays : ℤ → Report → Bool
report_stays id r = not (eqb_ℤ (pos r.action_user_id) id) && not (eqb_ℤ (pos r.target_user_id) id)

-- DELETE FROM users WHERE id = $1
unfoldable pub cascade : ℤ → Db → Db
cascade id db = record db {
  users = filter (λ u. not (has_id id u)) db.users;
  profiles = filter (λ p. not (eqb_ℤ (pos p.user_id) id)) db.profiles;
  preferences = filter (λ p. not (eqb_ℤ (pos p.user_id) id)) db.preferences;
  swipes = filter (swipe_stays id) db.swipes;
  exclusions = filter (exclusion_stays id) db.exclusions;
  chats = filter (chat_stays id) db.chats;
  messages = filter (message_stays id db.chats) db.messages;
  reports = filter (report_stays id) db.reports;
  photos = filter (λ p. not (eqb_ℤ (pos p.user_id) id)) db.photos;
}

module _ (env : Env) where
  -- The pointer that the caller passed gets the id of the table.
  unfoldable pub create_user : StorageUser → Action StorageUser
  create_user user =
      (λ db. map_error user_exists_error (create env user.email [] db)) >>= λ created.
      pure (record user {
        id = format_int created.id;
        provider = "basic";
        created_at = created.created_at;
      })

  unfoldable pub get_user : (User → Bool) → Action StorageUser
  get_user hit = query env Stage.get_user (λ db. find? hit db.users) >>= scan_row storage_user

  unfoldable pub get_user_by_id : Text → Action StorageUser
  unfolding get_user parse_user_id
  get_user_by_id id = with_user_id (parse_user_id id) (λ user_id. get_user (has_id user_id))

  unfoldable pub get_user_by_email : Text → Action StorageUser
  unfolding get_user
  get_user_by_email email = get_user (has_email email)

  -- The table has no user names.
  unfoldable pub get_user_by_username : Text → Action StorageUser
  get_user_by_username name = fail not_found

  unfoldable pub update_user : StorageUser → Action (Unit {0})
  unfolding parse_user_id exec_email is_unique_violation
  update_user user = with_user_id (parse_user_id user.id) (λ user_id. check_affected (λ db.
      map_error (λ e. if is_unique_violation e then already_exists else e)
        (exec_email env user_id user.email db)))

  unfoldable pub delete_user : Text → Action (Unit {0})
  unfolding parse_user_id cascade
  delete_user id =
      with_user_id (parse_user_id id)
        (λ user_id. check_affected (exec_affected env Stage.delete_user user_id (cascade user_id)))

  unfoldable pub store_password_hash : Text → Text → Action (Unit {0})
  unfolding parse_user_id
  store_password_hash id hash = with_user_id (parse_user_id id) (λ user_id.
      check_affected (exec_affected env Stage.store_password_hash user_id (set_hash user_id hash)))

  unfoldable pub get_password_hash : Text → Action Text
  unfolding parse_user_id
  get_password_hash id = with_user_id (parse_user_id id) (λ user_id.
      query env Stage.get_password_hash (λ db. find? (has_id user_id) db.users)
      >>= scan_row (λ u. u.password_hash))

-- The operations of the interfaces that the program does not support: WebAuthn credentials, reset and
-- verification tokens, TOTP secrets and backup codes. Each returns the same error.
pub data Unsupported : Type 0 where
  store_web_authn_credential get_web_authn_credentials : Unsupported
  update_web_authn_credential delete_web_authn_credential : Unsupported
  store_password_reset_token validate_password_reset_token delete_password_reset_token : Unsupported
  store_email_verification_token validate_email_verification_token : Unsupported
  delete_email_verification_token : Unsupported
  store_totp_secret get_totp_secret delete_totp_secret use_backup_code : Unsupported

unfoldable pub call_unsupported : Unsupported → Action (Unit {0})
call_unsupported operation = fail unsupported_auth_storage

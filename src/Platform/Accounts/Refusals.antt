-- ===== src/Platform/Accounts/Refusals.antt =====
-- The errors of the operations of AuthStore that write.
use tinder_like_back.Base.{◌≡◌, Bool, false, not, any, arith, Option, none, some, if◌then◌else◌}
use tinder_like_back.Base.Int.{ℤ}
use tinder_like_back.Models.{Text}
use tinder_like_back.Errors.{Stage, Error, already_exists, not_found}
use tinder_like_back.Database.{Db, Env}
use tinder_like_back.Repository.Ribbon.Likes.{NoFaults, error_of}
use tinder_like_back.Repository.Users.{email_taken, insert_user, create, is_unique_violation}
use tinder_like_back.Platform.Accounts.{
  parse_user_id, has_id, email_conflict, exec_email, create_user, update_user, delete_user,
  store_password_hash,
}
use tinder_like_back.Platform.Accounts.Kept.{Command, creates, updates, deletes, stores_hash}

abbrev pub outcome : Env → Command → Db → Option Error
outcome env (creates user) db = error_of (create_user env user db).0
outcome env (updates user) db = error_of (update_user env user db).0
outcome env (deletes id) db = error_of (delete_user env id db).0
outcome env (stores_hash id hash) db = error_of (store_password_hash env id hash db).0

-- The text is a number that an account has.
abbrev pub is_known : Db → Option ℤ → Bool
is_known db none = false
is_known db (some id) = any (has_id id) db.users

abbrev pub takes_email : Env → Option ℤ → Text → Db → Bool
takes_email env none email db = false
takes_email env (some id) email db = email_conflict env id email db.users

-- The error that the command meets, or none.
abbrev pub account_error : Env → Command → Db → Option Error
account_error env (creates user) db =
    if email_taken env user.email db.users then some already_exists else none
account_error env (updates user) db =
    if not (is_known db (parse_user_id user.id))
    then some not_found
    else if takes_email env (parse_user_id user.id) user.email db
    then some already_exists
    else none
account_error env (deletes id) db = if is_known db (parse_user_id id) then none else some not_found
account_error env (stores_hash id hash) db =
    if is_known db (parse_user_id id) then none else some not_found

-- Without faults of the driver, each operation of AuthStore that writes fails exactly so: with
-- ErrNotFound if its id is no number of an account, with ErrAlreadyExists if the email is another
-- account's by the unique index, and otherwise not at all.
pub outcome-account_error :
    (env : Env) (command : Command) (db : Db)
    → NoFaults env
    → outcome env command db ≡ account_error env command db
unfolding create_user create insert_user update_user exec_email delete_user store_password_hash
    is_unique_violation
outcome-account_error env (creates user) db f = ground (arith, f Stage.create_user)
outcome-account_error env (updates user) db f = ground (arith, f Stage.update_user)
outcome-account_error env (deletes id) db f = ground (arith, f Stage.delete_user)
outcome-account_error env (stores_hash id hash) db f = ground (arith, f Stage.store_password_hash)

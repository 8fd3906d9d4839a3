-- ===== src/Tests/Accounts.antt =====
-- The theorems on accounts, applied.
use tinder_like_back.Base.{◌≡◌, refl, List, [], ◌∷◌, arith}
use tinder_like_back.Models.{Text}
use tinder_like_back.Database.{Env, user_exists}
use tinder_like_back.Platform.Accounts.{StorageUser, create_user, store_password_hash, delete_user}
use tinder_like_back.Platform.Accounts.Keys.{IsAccounts}
use tinder_like_back.Platform.Accounts.Kept.{Command, creates, updates, deletes}
use tinder_like_back.Platform.Accounts.History.{run, StaysGone, run-IsAccounts}
use tinder_like_back.Platform.Accounts.Credentials.{
  Registered, create_user-Registered, Hashed, store_password_hash-Hashed,
}
use tinder_like_back.Platform.Accounts.Refusals.{outcome, account_error, outcome-account_error}
use tinder_like_back.Platform.Accounts.Foreign.{IsReferenced}
use tinder_like_back.Platform.Accounts.Removed.{Removed, delete_user-Removed}
use tinder_like_back.Tests.{calm, town, matched}

abbrev pub newcomer : StorageUser
newcomer = record { id = []; email = 97 ∷ 9 ∷ []; provider = ""; created_at = 0 }

-- A user who asks for the email of another.
abbrev pub copycat : StorageUser
copycat = record { id = b'1' ∷ []; email = 97 ∷ 2 ∷ []; provider = "basic"; created_at = 1 }

abbrev pub second_id : Text
second_id = b'2' ∷ []

abbrev pub secret : Text
secret = 115 ∷ 101 ∷ []

town-IsAccounts : IsAccounts calm.lower town
town-IsAccounts = record {
  emails_unique = (refl, (refl, (refl, tt)));
  ids_unique = (refl, (refl, (refl, tt)));
  ids_drawn =
      ((omega arith, omega arith), ((omega arith, omega arith), ((omega arith, omega arith), tt)));
  next_positive = omega arith;
}

-- The newcomer registers, the second user is deleted, and another asks for a taken email.
abbrev pub calls : List (Env × Command)
calls = (calm, creates newcomer) ∷ (calm, deletes second_id) ∷ (calm, updates copycat) ∷ []

run-IsAccounts_example : IsAccounts calm.lower (run calls town) × StaysGone town (run calls town)
run-IsAccounts_example =
    run-IsAccounts calm.lower calls town (refl, (refl, (refl, tt))) town-IsAccounts

create_user-Registered_example :
    Registered calm newcomer.email town (create_user calm newcomer town)
create_user-Registered_example = create_user-Registered calm newcomer town (λ s. refl) (omega arith)

store_password_hash-Hashed_example :
    Hashed calm second_id secret town (store_password_hash calm second_id secret town)
store_password_hash-Hashed_example =
    store_password_hash-Hashed calm second_id secret town (λ s. refl)

outcome-account_error_example :
    outcome calm (updates copycat) town ≡ account_error calm (updates copycat) town
outcome-account_error_example = outcome-account_error calm (updates copycat) town (λ s. refl)

matched-IsReferenced : IsReferenced matched
unfolding user_exists
matched-IsReferenced = record {
  profiles_owned = (refl, (refl, (refl, tt)));
  preferences_owned = (refl, tt);
  photos_owned = tt;
  swipes_between = ((refl, refl), ((refl, refl), tt));
  exclusions_between = tt;
  reports_between = tt;
  chats_between = ((refl, refl), tt);
  messages_placed = ((refl, refl), ((refl, refl), tt));
}

delete_user-Removed_example : Removed second_id matched (delete_user calm second_id matched)
delete_user-Removed_example = delete_user-Removed calm second_id matched matched-IsReferenced

-- ===== src/Database/Rows.antt =====
-- The tables of go-core/migrations, newest row first, with the next value of each sequence.
use tinder_like_back.Base.{ℕ, Bool, List, any, ◌==◌}
use tinder_like_back.Models.{
  User, Profile, DiscoveryPreferences, Swipe, UserExclusion, Chat, Message, Report, UserPhoto,
}

pub record Db : Type 0 where
  pub users : List User
  pub profiles : List Profile
  pub preferences : List DiscoveryPreferences
  pub swipes : List Swipe
  pub exclusions : List UserExclusion
  pub chats : List Chat
  pub messages : List Message
  pub reports : List Report
  pub photos : List UserPhoto
  pub next_user_id : ℕ
  pub next_profile_id : ℕ
  pub next_swipe_id : ℕ
  pub next_exclusion_id : ℕ
  pub next_chat_id : ℕ
  pub next_message_id : ℕ
  pub next_report_id : ℕ
  pub next_photo_id : ℕ

-- SELECT EXISTS(SELECT 1 FROM users WHERE id = $1)
unfoldable pub user_exists : Db → ℕ → Bool
user_exists db id = any (λ u. u.id == id) db.users

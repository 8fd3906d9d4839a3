-- ===== src/Tests.antt =====
-- A small database, an environment without faults and stand-ins for package math, at which the
-- theorems of the library are applied.
pub mod Likes
pub mod Chats
pub mod Feeds
pub mod Migrations
pub mod Profiles
pub mod Photos
pub mod Accounts
pub mod Http
pub mod Events
pub mod Seed
pub mod Storage
use tinder_like_back.Base.{
  ℕ, suc, ◌+◌, ◌-◌, ◌*◌, Bool, true, false, Option, none, some, List, [], ◌∷◌, ltb, leb,
  if◌then◌else◌,
}
use tinder_like_back.Base.Int.{ℤ, pos, pos_part}
use tinder_like_back.Models.{
  Text, Date, User, Profile, DiscoveryPreferences, Swipe, UserExclusion, Chat, Message,
}
use tinder_like_back.Database.{Db, Env}
use tinder_like_back.Geo.{FloatOps}

abbrev pub calm : Env
calm = record {
  fails = λ s. false;
  now = 100;
  today = record { year = 2026; month = 6; day = 15 };
  lower = λ s. s;
}

abbrev pub account : ℕ → User
account n = record {
  id = n;
  email = 97 ∷ n ∷ [];
  password_hash = [];
  is_verified = true;
  verified_at = some 1;
  created_at = 1;
  updated_at = 1;
}

abbrev pub card : ℕ → Profile
card n = record {
  id = n;
  user_id = n;
  full_name = 65 ∷ [];
  birthday = record { year = 2000; month = 1; day = 1 };
  gender = 1;
  bio = [];
  latitude = some 10;
  longitude = some 20;
  city = none;
  is_active = true;
  last_activity_at = 1;
  created_at = 1;
  updated_at = 1;
}

abbrev pub wishes : DiscoveryPreferences
wishes = record {
  user_id = 1;
  city = none;
  min_age = 18;
  max_age = 99;
  gender = none;
  is_verified = false;
  max_distance_km = 50;
  updated_at = 1;
}

abbrev pub like_of : ℕ → ℕ → ℕ → Swipe
like_of n a b = record { id = n; actor_user_id = a; target_user_id = b; created_at = 5 }

abbrev pub message_of : ℕ → ℕ → Message
message_of n sender = record {
  id = n;
  chat_id = 1;
  sender_id = sender;
  body = 104 ∷ [];
  is_read = false;
  created_at = 6;
  updated_at = 6;
  deleted_at = none;
}

-- Three users of whom the second likes the first.
abbrev pub town : Db
town = record {
  users = account 3 ∷ account 2 ∷ account 1 ∷ [];
  profiles = card 3 ∷ card 2 ∷ card 1 ∷ [];
  preferences = wishes ∷ [];
  swipes = like_of 1 2 1 ∷ [];
  exclusions = [];
  chats = [];
  messages = [];
  reports = [];
  next_user_id = 4;
  next_profile_id = 4;
  next_swipe_id = 2;
  next_exclusion_id = 1;
  next_chat_id = 1;
  next_message_id = 1;
  next_report_id = 1;
  photos = [];
  next_photo_id = 1;
}

abbrev pub open_chat : Bool → Option ℕ → Chat
open_chat active ended = record {
  id = 1;
  user_1_id = 1;
  user_2_id = 2;
  is_active = active;
  created_at = 6;
  deactivated_at = ended;
}

-- The first two are matched, and have written.
abbrev pub matched : Db
matched = record town {
  swipes = like_of 2 1 2 ∷ like_of 1 2 1 ∷ [];
  chats = open_chat true none ∷ [];
  messages = message_of 2 1 ∷ message_of 1 2 ∷ [];
  next_swipe_id = 3;
  next_chat_id = 2;
  next_message_id = 3;
}

-- The chat after a block.
abbrev pub parted : Db
parted = record matched { chats = open_chat false (some 50) ∷ [] }

-- Package math on whole numbers.
abbrev pub whole : FloatOps
whole = record {
  lt = ltb;
  le = leb;
  add = ◌+◌;
  sub = ◌-◌;
  mul = ◌*◌;
  div = λ a b. a;
  max = λ a b. if ltb a b then b else a;
  min = λ a b. if ltb a b then a else b;
  abs = λ a. a;
  sin = λ a. a;
  cos = λ a. 1;
  sqrt = λ a. a;
  atan2 = λ a b. a;
  to_int = pos;
  of_int = pos_part;
  literal = λ n k. n;
  minus = λ n. 0;
  pi = 3;
}

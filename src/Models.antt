-- ===== src/Models.antt =====
-- The rows of the tables: go-core/internal/models.
-- An id, a count and an instant are natural numbers (BIGSERIAL starts at 1). A text is the list of
-- its code points. A float64 stays the number of its bit pattern: what is computed with it is a
-- parameter, `Geo.FloatOps`.
use tinder_like_back.Base.{ℕ, Bool, Option, List}

abbrev pub Text : Type 0
Text = List ℕ

abbrev pub Float64 : Type 0
Float64 = ℕ

-- A DATE, and the UTC date of an instant.
pub record Date : Type 0 where
  pub year : ℕ
  pub month : ℕ
  pub day : ℕ

pub record User : Type 0 where
  pub id : ℕ
  pub email : Text
  pub password_hash : Text
  pub is_verified : Bool
  pub verified_at : Option ℕ
  pub created_at : ℕ
  pub updated_at : ℕ

pub record Profile : Type 0 where
  pub id : ℕ
  pub user_id : ℕ
  pub full_name : Text
  pub birthday : Date
  pub gender : ℕ
  pub bio : Text
  pub latitude : Option Float64
  pub longitude : Option Float64
  pub city : Option Text
  pub is_active : Bool
  pub last_activity_at : ℕ
  pub created_at : ℕ
  pub updated_at : ℕ

-- `none` in city or gender: the filter is not applied.
pub record DiscoveryPreferences : Type 0 where
  pub user_id : ℕ
  pub city : Option Text
  pub min_age : ℕ
  pub max_age : ℕ
  pub gender : Option ℕ
  pub is_verified : Bool
  pub max_distance_km : ℕ
  pub updated_at : ℕ

pub record Swipe : Type 0 where
  pub id : ℕ
  pub actor_user_id : ℕ
  pub target_user_id : ℕ
  pub created_at : ℕ

pub record UserExclusion : Type 0 where
  pub id : ℕ
  pub action_user_id : ℕ
  pub target_user_id : ℕ
  pub is_permanent_ban : Bool
  pub created_at : ℕ

pub record Chat : Type 0 where
  pub id : ℕ
  pub user_1_id : ℕ
  pub user_2_id : ℕ
  pub is_active : Bool
  pub created_at : ℕ
  pub deactivated_at : Option ℕ

pub record ChatPreview : Type 0 where
  pub chat : Chat
  pub partner_user_id : ℕ
  pub partner_full_name : Text

pub record Message : Type 0 where
  pub id : ℕ
  pub chat_id : ℕ
  pub sender_id : ℕ
  pub body : Text
  pub is_read : Bool
  pub created_at : ℕ
  pub updated_at : ℕ
  pub deleted_at : Option ℕ

pub record Report : Type 0 where
  pub id : ℕ
  pub action_user_id : ℕ
  pub target_user_id : ℕ
  pub reason : ℕ
  pub comment : Option Text
  pub is_resolved : Bool
  pub created_at : ℕ
  pub updated_at : ℕ

pub record UserPhoto : Type 0 where
  pub id : ℕ
  pub user_id : ℕ
  pub bucket_name : Text
  pub object_key : Text
  pub content_type : Text
  pub file_size : ℕ
  pub position : ℕ
  pub is_main : Bool
  pub created_at : ℕ

pub record DiscoveryCandidate : Type 0 where
  pub profile : Profile
  pub is_verified : Bool

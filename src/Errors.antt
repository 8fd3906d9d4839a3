-- ===== src/Errors.antt =====
-- The error values of go-core/internal/service and go-core/internal/repository, and the result of
-- a fallible call.
-- A failure of a database call is `internal` with the place where the source wraps it.

-- One constructor for each wrapped database call, named after the text of its fmt.Errorf.
pub data Stage : Type 0 where
  begin_create_like check_target_profile check_user_exclusions create_like : Stage
  check_mutual_like commit_like create_chat_for_match get_match_chat commit_match : Stage
  check_target_user create_dislike : Stage
  begin_create_block create_block deactivate_blocked_chat commit_block remove_block : Stage
  create_report get_discovery_preferences upsert_discovery_preferences : Stage
  list_discovery_candidates list_incoming_likes get_profile upsert_profile deactivate_profile :
      Stage
  list_active_chats list_messages create_message mark_messages_read check_chat_participant : Stage
  list_user_photos begin_create_photo get_next_photo_position check_existing_photos : Stage
  create_photo_metadata commit_create_photo get_photo delete_photo_metadata : Stage
  -- The calls on the table of users, which are not wrapped, after their functions.
  create_user get_user update_user delete_user store_password_hash get_password_hash : Stage
  hash_seed_password begin_seed insert_seed_user find_seed_user seed_profile seed_preferences :
      Stage
  seed_like commit_seed : Stage

pub data Error : Type 0 where
  invalid_feed_cursor invalid_feed_limit profile_coordinates_required : Error
  invalid_target_user invalid_report_reason report_comment_too_long : Error
  invalid_discovery_age invalid_discovery_gender invalid_discovery_distance : Error
  target_user_not_found users_excluded discovery_preferences_not_found profile_not_found : Error
  invalid_chat_id invalid_message_body invalid_chat_cursor chat_not_found : Error
  invalid_coordinates invalid_radius : Error
  profile_name_required invalid_profile_birthday profile_owner_must_be_adult : Error
  invalid_profile_gender coordinates_must_be_together invalid_profile_coordinates : Error
  invalid_photo invalid_photo_id could_not_generate_photo photo_not_found : Error
  storage_put_failed storage_delete_failed : Error
  -- A statement that breaks a unique key (SQLSTATE 23505), and ErrUserAlreadyExists.
  unique_violation user_already_exists : Error
  -- go-auth's ErrAlreadyExists and ErrNotFound, and errUnsupportedAuthStorage.
  already_exists not_found unsupported_auth_storage : Error
  -- The object of a photo whose row was not stored could not be removed either.
  orphaned : Error → Error
  internal : Stage → Error

pub data Result {ℓ} (A : Type ℓ) : Type ℓ where
  ok : A → Result A
  err : Error → Result A

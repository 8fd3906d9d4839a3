-- ===== src/Http/Profiles.antt =====
-- handlers/profile.go.
use tinder_like_back.Base.{ℕ, Option, none, some}
use tinder_like_back.Models.{Date}
use tinder_like_back.Errors.{
  Error, profile_not_found, profile_name_required, invalid_profile_birthday,
  profile_owner_must_be_adult, invalid_profile_gender, coordinates_must_be_together,
  invalid_profile_coordinates, orphaned,
}
use tinder_like_back.Geo.{FloatOps}
use tinder_like_back.Service.Profiles
use tinder_like_back.Service.Profiles.{ProfileStore, SaveProfileInput}
use tinder_like_back.Http.{
  error_literal, error_text, profile, Response, Gateway, Server, UserHandler, json, json_of,
  no_content_of, run_action,
}

unfoldable pub profile_error : Error → Response
profile_error profile_not_found = json 404 (error_text profile_not_found)
profile_error profile_name_required = json 400 (error_text profile_name_required)
profile_error invalid_profile_birthday = json 400 (error_text invalid_profile_birthday)
profile_error profile_owner_must_be_adult = json 400 (error_text profile_owner_must_be_adult)
profile_error invalid_profile_gender = json 400 (error_text invalid_profile_gender)
profile_error coordinates_must_be_together = json 400 (error_text coordinates_must_be_together)
profile_error invalid_profile_coordinates = json 400 (error_text invalid_profile_coordinates)
profile_error (orphaned e) = profile_error e
profile_error _ = json 500 (error_literal "profile operation failed")

module _ (gateway : Gateway) (fl : FloatOps) (today : Date) (store : ProfileStore)
    {S : Type 0} where
  unfoldable pub me : UserHandler S
  unfolding profile_error
  me user email req = run_action profile_error (json_of 200 profile) (Profiles.get fl store user)

  abbrev pub save_bound : ℕ → Option SaveProfileInput → Server S → Response × Server S
  save_bound user none s = (json 400 (error_literal "invalid profile body"), s)
  save_bound user (some input) s =
      run_action profile_error (json_of 200 profile) (Profiles.save fl store today user input) s

  unfoldable pub save_me : UserHandler S
  unfolding profile_error
  save_me user email req = save_bound user (gateway.bind_profile req.body)

  unfoldable pub delete_me : UserHandler S
  unfolding profile_error
  delete_me user email req =
      run_action profile_error no_content_of (Profiles.deactivate fl store user)

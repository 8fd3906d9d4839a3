-- ===== src/Http/Photos.antt =====
-- handlers/photo.go.
use tinder_like_back.Base.{ℕ, Option, none, some, [], ◌∷◌, ◌==◌, if◌then◌else◌}
use tinder_like_back.Base.Int.{ℤ}
use tinder_like_back.Models.{Text}
use tinder_like_back.Text.{trim_space, is_empty, parse_int}
use tinder_like_back.Errors.{Error, invalid_photo, invalid_photo_id, photo_not_found, orphaned}
use tinder_like_back.Service.Photos
use tinder_like_back.Service.Photos.{PhotoStore, ObjectStore}
use tinder_like_back.Http.{
  error_literal, error_text, photo, photo_items, Response, FormFile, Gateway, Server, UserHandler,
  json, json_of, no_content_of, run_stored,
}

-- errors.Is sees through the error of an orphaned object.
unfoldable pub photo_error : Error → Response
photo_error invalid_photo = json 400 (error_text invalid_photo)
photo_error invalid_photo_id = json 400 (error_text invalid_photo_id)
photo_error photo_not_found = json 404 (error_text photo_not_found)
photo_error (orphaned e) = photo_error e
photo_error _ = json 500 (error_literal "photo operation failed")

-- strings.Split(s, ";")[0]
unfoldable pub before_semicolon : Text → Text
before_semicolon [] = []
before_semicolon (c ∷ s) = let rest = before_semicolon s in if c == b';' then [] else c ∷ rest

module _ (gateway : Gateway) where
  unfoldable pub content_type_of : FormFile → Text
  unfolding before_semicolon
  content_type_of file = trim_space (
      before_semicolon (
        if is_empty file.content_type
        then gateway.extension_type file.filename
        else file.content_type))

  module _ {S : Type 0} (storage : ObjectStore S) (store : PhotoStore) where
    unfoldable pub list_me : UserHandler S
    unfolding photo_error
    list_me user email req =
        run_stored photo_error (json_of 200 photo_items) (Photos.list_photos storage store user)

    abbrev pub upload_opened : ℕ → FormFile → Option Text → Server S → Response × Server S
    upload_opened user file none s = (json 400 (error_literal "could not read photo"), s)
    upload_opened user file (some content) s =
        run_stored photo_error (json_of 201 photo)
          (Photos.upload storage store user (content_type_of file) file.size content
            gateway.new_key)
          s

    abbrev pub upload_form : ℕ → Option FormFile → Server S → Response × Server S
    upload_form user none s = (json 400 (error_literal "photo multipart field is required"), s)
    upload_form user (some file) s = upload_opened user file file.content s

    unfoldable pub upload_me : UserHandler S
    unfolding photo_error content_type_of
    upload_me user email req = upload_form user (gateway.form_file req.body)

    abbrev pub delete_parsed : ℕ → Option ℤ → Server S → Response × Server S
    delete_parsed user none s = (json 400 (error_text invalid_photo_id), s)
    delete_parsed user (some id) s =
        run_stored photo_error no_content_of (Photos.delete_photo storage store user id) s

    unfoldable pub delete_me : UserHandler S
    unfolding photo_error
    delete_me user email req = delete_parsed user (parse_int req.param)

-- ===== src/Service/Photos.antt =====
-- go-core/internal/service/photo.go: PhotoService over the table and the object store.
pub mod Uploads
pub mod Removals
use tinder_like_back.Base.{
  ℕ, ◌*◌, Bool, true, false, not, ◌&&◌, ◌||◌, Option, none, some, List, [], ◌∷◌, ◌++◌, is_some,
  if◌then◌else◌,
}
use tinder_like_back.Base.Int.{ℤ, pos, pos_part, leb_ℤ, ltb_ℤ}
use tinder_like_back.Models.{Text, UserPhoto}
use tinder_like_back.Text.{text_eq, format_int}
use tinder_like_back.Errors.{
  Error, Result, ok, err, invalid_photo, invalid_photo_id, could_not_generate_photo,
  storage_put_failed, storage_delete_failed, orphaned,
}
use tinder_like_back.Database.{Db, Env, Action}
use tinder_like_back.Repository.Photos
use tinder_like_back.Repository.Photos.{image_jpeg, image_png, image_webp}

-- interface photoStore
pub record PhotoStore : Type 0 where
  pub list_by_user_id : ℕ → Action (List UserPhoto)
  pub create : UserPhoto → Action UserPhoto
  pub get_by_id : ℕ → ℕ → Action UserPhoto
  pub delete : ℕ → ℕ → Action (Unit {0})

-- interface objectStore, over the state `S` of the store. A call says whether it succeeded. Put takes
-- the key, the content type, the size and the content.
pub record ObjectStore (S : Type 0) : Type 0 where
  pub bucket : Text
  pub put : Text → Text → ℕ → Text → S → Bool × S
  pub delete : Text → S → Bool × S

-- NewPhotoService(photoRepository, …)
abbrev pub photo_repository : Env → PhotoStore
photo_repository env = record {
  list_by_user_id = Photos.list_by_user_id env;
  create = Photos.create_photo env;
  get_by_id = Photos.get_by_id env;
  delete = Photos.delete_photo env;
}

abbrev pub max_photo_size_bytes : ℕ
max_photo_size_bytes = 10 * 1024 * 1024

-- ".jpg", ".png" and ".webp"
unfoldable pub photo_extension : Text → Option Text
photo_extension content_type =
    if text_eq content_type image_jpeg
    then some (46 ∷ 106 ∷ 112 ∷ 103 ∷ [])
    else if text_eq content_type image_png
    then some (46 ∷ 112 ∷ 110 ∷ 103 ∷ [])
    else if text_eq content_type image_webp
    then some (46 ∷ 119 ∷ 101 ∷ 98 ∷ 112 ∷ [])
    else none

-- "users/%d/%s%s"
unfoldable pub object_key_of : ℕ → Text → Text → Text
object_key_of user key extension =
    (117 ∷ 115 ∷ 101 ∷ 114 ∷ 115 ∷ 47 ∷ []) ++ format_int user ++ (47 ∷ []) ++ key ++ extension

module _ {S : Type 0} (storage : ObjectStore S) (store : PhotoStore) where
  abbrev pub PhotoCall : Type 0 → Type 0
  PhotoCall A = Db × S → Result A × (Db × S)

  unfoldable pub list_photos : ℕ → PhotoCall (List UserPhoto)
  list_photos user (db, s) = let r = store.list_by_user_id user db in (r.0, (r.1, s))

  -- The row was not stored, and the object was removed, or not.
  abbrev pub after_cleanup : Error → Db → Bool × S → Result UserPhoto × (Db × S)
  after_cleanup e db (true, s) = (err e, (db, s))
  after_cleanup e db (false, s) = (err (orphaned e), (db, s))

  abbrev pub after_create : Text → S → Result UserPhoto × Db → Result UserPhoto × (Db × S)
  after_create key s (ok p, db) = (ok p, (db, s))
  after_create key s (err e, db) = after_cleanup e db (storage.delete key s)

  abbrev pub after_put : UserPhoto → Db → Bool × S → Result UserPhoto × (Db × S)
  after_put p db (false, s) = (err storage_put_failed, (db, s))
  after_put p db (true, s) = after_create p.object_key s (store.create p db)

  -- The fields that the table fills are zero until then.
  abbrev pub photo_to_store : ℕ → Text → Text → ℕ → UserPhoto
  photo_to_store user object_key content_type size = record {
    id = 0;
    user_id = user;
    bucket_name = storage.bucket;
    object_key = object_key;
    content_type = content_type;
    file_size = size;
    position = 0;
    is_main = false;
    created_at = 0;
  }

  abbrev pub upload_keyed : ℕ → Text → ℕ → Text → Text → Option Text → PhotoCall UserPhoto
  upload_keyed user content_type size content extension none (db, s) =
      (err could_not_generate_photo, (db, s))
  upload_keyed user content_type size content extension (some key) (db, s) =
      let object_key = object_key_of user key extension in
      after_put (photo_to_store user object_key content_type size) db
        (storage.put object_key content_type size content s)

  abbrev pub upload_typed : ℕ → Text → ℤ → Text → Option Text → Option Text → PhotoCall UserPhoto
  upload_typed user content_type size content new_key none w = (err invalid_photo, w)
  upload_typed user content_type size content new_key (some extension) w =
      if leb_ℤ size (pos 0) || ltb_ℤ (pos max_photo_size_bytes) size
      then (err invalid_photo, w)
      else upload_keyed user content_type (pos_part size) content extension new_key w

  -- `new_key` is what newKey() returns, 32 hexadecimal digits, or none for its error.
  unfoldable pub upload : ℕ → Text → ℤ → Text → Option Text → PhotoCall UserPhoto
  upload user content_type size content new_key w =
      upload_typed user content_type size content new_key (photo_extension content_type) w

  abbrev pub remove_row : ℕ → ℕ → Db → Bool × S → Result (Unit {0}) × (Db × S)
  remove_row user id db (false, s) = (err storage_delete_failed, (db, s))
  remove_row user id db (true, s) = let r = store.delete user id db in (r.0, (r.1, s))

  abbrev pub remove_found : ℕ → ℕ → S → Result UserPhoto × Db → Result (Unit {0}) × (Db × S)
  remove_found user id s (err e, db) = (err e, (db, s))
  remove_found user id s (ok p, db) = remove_row user id db (storage.delete p.object_key s)

  unfoldable pub delete_photo : ℕ → ℤ → PhotoCall (Unit {0})
  delete_photo user id (db, s) =
      if leb_ℤ id (pos 0)
      then (err invalid_photo_id, (db, s))
      else remove_found user (pos_part id) s (store.get_by_id user (pos_part id) db)

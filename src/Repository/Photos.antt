-- ===== src/Repository/Photos.antt =====
-- go-core/internal/repository/photo_repository.go.
pub mod Positions
use tinder_like_back.Base.{
  ℕ, suc, Bool, true, false, not, ◌&&◌, ◌||◌, Option, none, some, List, [], ◌∷◌, any, filter, find?,
  ltb, leb, ◌==◌, if◌then◌else◌,
}
use tinder_like_back.Base.Tables.{order_by}
use tinder_like_back.Models.{Text, UserPhoto}
use tinder_like_back.Text.{text_eq}
use tinder_like_back.Errors.{Stage, internal, photo_not_found}
use tinder_like_back.Database.{
  Db, Env, Action, user_exists, pure, fail, ◌>>=◌, ◌>>◌, fail_if, query, exec, control, transaction,
}

unfoldable pub list_by_user_id : Env → ℕ → Action (List UserPhoto)
list_by_user_id env user =
    query env Stage.list_user_photos
      (λ db. order_by (λ p. p.position) (filter (λ p. p.user_id == user) db.photos))

-- COALESCE(MAX(position), -1) + 1
unfoldable pub next_position : ℕ → List UserPhoto → ℕ
next_position user [] = 0
next_position user (p ∷ ps) =
    let rest = next_position user ps in
    if (p.user_id == user) && leb rest p.position then suc p.position else rest

unfoldable pub has_photos : Db → ℕ → Bool
has_photos db user = any (λ p. p.user_id == user) db.photos

-- "image/jpeg", "image/png" and "image/webp"
abbrev pub image_jpeg : Text
image_jpeg = 105 ∷ 109 ∷ 97 ∷ 103 ∷ 101 ∷ 47 ∷ 106 ∷ 112 ∷ 101 ∷ 103 ∷ []

abbrev pub image_png : Text
image_png = 105 ∷ 109 ∷ 97 ∷ 103 ∷ 101 ∷ 47 ∷ 112 ∷ 110 ∷ 103 ∷ []

abbrev pub image_webp : Text
image_webp = 105 ∷ 109 ∷ 97 ∷ 103 ∷ 101 ∷ 47 ∷ 119 ∷ 101 ∷ 98 ∷ 112 ∷ []

abbrev pub is_image_type : Text → Bool
is_image_type t = text_eq t image_jpeg || (text_eq t image_png || text_eq t image_webp)

-- The constraints on the row by itself, its account, and UNIQUE (bucket_name, object_key).
unfoldable pub metadata_allowed : UserPhoto → Db → Bool
metadata_allowed p db =
    ((any (λ c. not (c == 32)) p.object_key && any (λ c. not (c == 32)) p.bucket_name)
      && ((leb 1 p.file_size && leb p.file_size 10485760) && is_image_type p.content_type))
    && (user_exists db p.user_id
        && not (
            any (λ q. text_eq q.bucket_name p.bucket_name && text_eq q.object_key p.object_key)
              db.photos))

abbrev pub takes_place : ℕ → ℕ → UserPhoto → Bool
takes_place user position q = q.user_id == user && q.position == position

abbrev pub is_main_of : ℕ → UserPhoto → Bool
is_main_of user q = q.user_id == user && q.is_main

-- UNIQUE (user_id, position), and one main photo for a user.
unfoldable pub place_allowed : UserPhoto → Db → Bool
place_allowed p db =
    not (any (takes_place p.user_id p.position) db.photos)
    && not (p.is_main && any (is_main_of p.user_id) db.photos)

unfoldable pub new_photo : Env → UserPhoto → ℕ → Bool → Db → UserPhoto
new_photo env p position is_main db = record {
  id = db.next_photo_id;
  user_id = p.user_id;
  bucket_name = p.bucket_name;
  object_key = p.object_key;
  content_type = p.content_type;
  file_size = p.file_size;
  position = position;
  is_main = is_main;
  created_at = env.now;
}

unfoldable pub insert_photo : UserPhoto → Db → Db
insert_photo row db = record db { photos = row ∷ db.photos; next_photo_id = suc db.next_photo_id }

-- The position is scanned into an int16.
unfoldable pub create_body : Env → UserPhoto → Action UserPhoto
unfolding new_photo
create_body env p = do
  control env Stage.begin_create_photo
  position ← query env Stage.get_next_photo_position (λ db. next_position p.user_id db.photos)
  fail_if (ltb 32767 position) (internal Stage.get_next_photo_position)
  exists ← query env Stage.check_existing_photos (λ db. has_photos db p.user_id)
  row ← (λ db. pure (new_photo env p position (not exists) db) db)
  exec env Stage.create_photo_metadata (λ db. metadata_allowed row db && place_allowed row db)
      (insert_photo row)
  control env Stage.commit_create_photo
  pure row

unfoldable pub create_photo : Env → UserPhoto → Action UserPhoto
unfolding create_body
create_photo env p = transaction (create_body env p)

abbrev pub is_photo : ℕ → ℕ → UserPhoto → Bool
is_photo user id p = p.user_id == user && p.id == id

abbrev pub scan_photo : Option UserPhoto → Action UserPhoto
scan_photo none = fail photo_not_found
scan_photo (some p) = pure p

unfoldable pub get_by_id : Env → ℕ → ℕ → Action UserPhoto
get_by_id env user id = do
  found ← query env Stage.get_photo (λ db. find? (is_photo user id) db.photos)
  scan_photo found

-- DELETE FROM user_photos WHERE user_id = $1 AND id = $2; RowsAffected() == 0 is an error.
unfoldable pub delete_photo : Env → ℕ → ℕ → Action (Unit {0})
delete_photo env user id = do
  found ← query env Stage.delete_photo_metadata (λ db. any (is_photo user id) db.photos)
  (λ db. pure tt (record db { photos = filter (λ p. not (is_photo user id p)) db.photos }))
  fail_if (not found) photo_not_found

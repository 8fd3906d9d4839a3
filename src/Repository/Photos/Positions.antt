-- ===== src/Repository/Photos/Positions.antt =====
-- Create of photo_repository.go: positions and main photos, and its errors.
use tinder_like_back.Base.{
  ℕ, ◌≤◌, ◌≡◌, refl, true, false, not, Option, none, some, List, [], ◌∷◌, any, ltb, ◌==◌, arith,
  if◌then◌else◌,
}
use tinder_like_back.Models.{UserPhoto}
use tinder_like_back.Errors.{Error, Stage, internal, Result, ok, err}
use tinder_like_back.Database.{Db, Env}
use tinder_like_back.Repository.Ribbon.Likes.{NoFaults, error_of}
use tinder_like_back.Repository.Photos.{
  next_position, has_photos, metadata_allowed, takes_place, is_main_of, place_allowed, new_photo,
  insert_photo, create_photo,
}

-- The next position is taken by no photo of the user.
next_position-free :
    (user n : ℕ) (ps : List UserPhoto)
    → next_position user ps ≤ n
    → any (takes_place user n) ps ≡ false
unfolding next_position
next_position-free user n [] h = refl
next_position-free user n (p ∷ ps) h = ground (arith, next_position-free user n ps)

no_main :
    (user : ℕ) (ps : List UserPhoto)
    → any (λ p. p.user_id == user) ps ≡ false
    → any (is_main_of user) ps ≡ false
no_main user [] h = refl
no_main user (p ∷ ps) h = ground (arith, no_main user ps)

abbrev pub row_of : Env → UserPhoto → Db → UserPhoto
row_of env p db =
    new_photo env p (next_position p.user_id db.photos) (not (has_photos db p.user_id)) db

-- So the constraints on positions and main photos are never broken.
row_of-allowed : (env : Env) (p : UserPhoto) (db : Db) → place_allowed (row_of env p db) db ≡ true
unfolding place_allowed new_photo has_photos
row_of-allowed env p db = ground (
  arith,
  next_position-free p.user_id (next_position p.user_id db.photos) db.photos,
  no_main p.user_id db.photos,
)

abbrev pub photo_error : Env → Db → UserPhoto → Option Error
photo_error env db p =
    if ltb 32767 (next_position p.user_id db.photos)
    then some (internal Stage.get_next_photo_position)
    else if not (metadata_allowed (row_of env p db) db)
    then some (internal Stage.create_photo_metadata)
    else none

abbrev pub Created : Env → UserPhoto → Db → Result UserPhoto × Db → Type 0
Created env p db (err e, after) = after ≡ db
Created env p db (ok q, after) = (q ≡ row_of env p db) × (after ≡ insert_photo q db)

Created-by :
    (env : Env) (p : UserPhoto) (db : Db) (r : Result UserPhoto × Db)
    → create_photo env p db ≡ r
    → Created env p db r
unfolding create_photo
Created-by env p db (err e, after) h = ground arith
Created-by env p db (ok q, after) h = ground arith

pub create_photo-Created :
    (env : Env) (p : UserPhoto) (db : Db) → Created env p db (create_photo env p db)
create_photo-Created env p db = Created-by env p db _ refl

error_by :
    (env : Env) (p : UserPhoto) (db : Db) (r : Result UserPhoto) (after : Db)
    → NoFaults env
    → create_photo env p db ≡ (r, after)
    → error_of r ≡ photo_error env db p
unfolding create_photo
error_by env p db r after f h = ground (
  arith,
  f Stage.begin_create_photo,
  f Stage.get_next_photo_position,
  f Stage.check_existing_photos,
  f Stage.create_photo_metadata,
  f Stage.commit_create_photo,
  row_of-allowed env p db,
)

-- Without faults of the driver, Create fails only if the position does not fit an int16, or if the
-- photo itself is refused by the table: its key, bucket, size or type, its account, or a key that is
-- there already. It never meets the constraints on positions and on the one main photo.
pub create_photo-error :
    (env : Env) (p : UserPhoto) (db : Db)
    → NoFaults env
    → error_of (create_photo env p db).0 ≡ photo_error env db p
create_photo-error env p db f = error_by env p db _ _ f refl

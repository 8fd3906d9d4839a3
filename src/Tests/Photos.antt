-- ===== src/Tests/Photos.antt =====
-- The theorems on photos, applied, with an object store that is a list of keys.
use tinder_like_back.Base.{
  ℕ, ◌≡◌, refl, subst, Bool, true, false, not, some, List, [], ◌∷◌, filter, arith,
}
use tinder_like_back.Base.Int.{pos}
use tinder_like_back.Models.{Text, UserPhoto}
use tinder_like_back.Text.{text_eq, format_int}
use tinder_like_back.Database.{Db}
use tinder_like_back.Repository.Ribbon.Likes.{error_of}
use tinder_like_back.Repository.Photos.{image_png, create_photo}
use tinder_like_back.Repository.Photos.Positions.{photo_error, create_photo-error}
use tinder_like_back.Service.Photos.{
  ObjectStore, photo_repository, object_key_of, upload, delete_photo,
}
use tinder_like_back.Service.Photos.Uploads.{IsReliable, Uploaded, upload-Uploaded}
use tinder_like_back.Service.Photos.Removals.{Removed, delete_photo-Removed}
use tinder_like_back.Tests.{calm, town}

abbrev pub shelf : ObjectStore (List Text)
shelf = record {
  bucket = 98 ∷ [];
  put = λ key content_type size content keys. (true, key ∷ keys);
  delete = λ key keys. (true, filter (λ k. not (text_eq k key)) keys);
}

text_eq-same : (t : Text) → text_eq t t ≡ true
text_eq-same [] = refl
text_eq-same (c ∷ t) = ground (arith, text_eq-same t)

shelf-IsReliable :
    (key : Text) (keys : List Text)
    → filter (λ k. not (text_eq k key)) keys ≡ keys
    → IsReliable shelf key keys
shelf-IsReliable key keys new = record {
  put_fails = λ content_type size content t e. cc;
  put_undone = λ content_type size content t u e f. ground (arith, e, f, new, text_eq-same key);
}

-- The user has a photo already: users/1/b.png.
abbrev pub stocked : List Text
stocked = (117 ∷ 115 ∷ 101 ∷ 114 ∷ 115 ∷ 47 ∷ 49 ∷ 47 ∷ 98 ∷ 46 ∷ 112 ∷ 110 ∷ 103 ∷ []) ∷ []

new_to_stock :
    (key extension : Text)
    → some (97 ∷ []) ≡ some key
    → filter (λ k. not (text_eq k (object_key_of 1 key extension))) stocked ≡ stocked
unfolding object_key_of format_int
new_to_stock key extension h =
    let drawn : 97 ∷ [] ≡ key = cc in
    subst (λ k. filter (λ o. not (text_eq o (object_key_of 1 k extension))) stocked ≡ stocked) drawn
      refl

upload-Uploaded_example :
    Uploaded shelf calm 1 [] town stocked
      (upload shelf (photo_repository calm) 1 image_png (pos 7) [] (some (97 ∷ [])) (town, stocked))
upload-Uploaded_example =
    upload-Uploaded shelf calm 1 image_png (pos 7) [] (some (97 ∷ [])) town stocked
      (λ key extension k e.
        shelf-IsReliable (object_key_of 1 key extension) stocked (new_to_stock key extension k))

abbrev pub photo_of : ℕ → ℕ → Bool → UserPhoto
photo_of n position is_main = record {
  id = n;
  user_id = 1;
  bucket_name = 98 ∷ [];
  object_key = 120 ∷ n ∷ [];
  content_type = image_png;
  file_size = 7;
  position = position;
  is_main = is_main;
  created_at = 3;
}

-- The first user has two photos.
abbrev pub gallery : Db
gallery = record town { photos = photo_of 2 1 false ∷ photo_of 1 0 true ∷ []; next_photo_id = 3 }

create_photo-error_example :
    error_of (create_photo calm (photo_of 3 0 false) gallery).0
    ≡ photo_error calm gallery (photo_of 3 0 false)
create_photo-error_example = create_photo-error calm (photo_of 3 0 false) gallery (λ s. refl)

delete_photo-Removed_example :
    Removed shelf calm 1 2 gallery
      ((120 ∷ 2 ∷ []) ∷ [])
      (delete_photo shelf (photo_repository calm) 1 (pos 2) (gallery, (120 ∷ 2 ∷ []) ∷ []))
delete_photo-Removed_example =
    delete_photo-Removed shelf calm 1 (pos 2) gallery ((120 ∷ 2 ∷ []) ∷ [])

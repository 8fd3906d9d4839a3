-- ===== src/Service/Photos/Uploads.antt =====
-- The table and the object store after Upload.
use tinder_like_back.Base.{
  ℕ, ◌≡◌, refl, ◌∙◌, ap, Bool, true, false, ◌||◌, Option, none, some, Bool-cases, inl, inr,
}
use tinder_like_back.Base.Int.{ℤ, pos, pos_part, leb_ℤ, ltb_ℤ}
use tinder_like_back.Models.{Text, UserPhoto}
use tinder_like_back.Errors.{Error, Result, ok, err, orphaned}
use tinder_like_back.Database.{Db, Env}
use tinder_like_back.Repository.Photos.{insert_photo}
use tinder_like_back.Repository.Photos.{new_photo}
use tinder_like_back.Repository.Photos.Positions
use tinder_like_back.Repository.Photos.Positions.{Created, create_photo-Created}
use tinder_like_back.Service.Photos.{
  ObjectStore, photo_repository, photo_extension, object_key_of, max_photo_size_bytes,
  after_cleanup, after_create, after_put, photo_to_store, upload_keyed, upload_typed, upload,
}

-- What Upload relies on of the object store: a put that fails stores nothing, and a new object can be
-- taken away again without a trace.
pub record IsReliable {S : Type 0} (storage : ObjectStore S) (key : Text) (s : S) : Type 0 where
  pub put_fails :
      (content_type : Text) (size : ℕ) (content : Text) (t : S)
      → storage.put key content_type size content s ≡ (false, t)
      → t ≡ s
  pub put_undone :
      (content_type : Text) (size : ℕ) (content : Text) (t u : S)
      → storage.put key content_type size content s ≡ (true, t)
      → storage.delete key t ≡ (true, u)
      → u ≡ s

abbrev pub is_orphaned : Error → Bool
is_orphaned (orphaned e) = true
is_orphaned _ = false

module _ {S : Type 0} (storage : ObjectStore S) (env : Env) where
  -- How an upload of a content ends.
  abbrev pub Uploaded : ℕ → Text → Db → S → Result UserPhoto × (Db × S) → Type 0
  Uploaded user content db s (ok p, (after, t)) =
      (p.user_id ≡ user)
      × (after ≡ insert_photo p db)
      × (storage.put p.object_key p.content_type p.file_size content s ≡ (true, t))
  Uploaded user content db s (err e, (after, t)) = (after ≡ db) × (is_orphaned e ≡ false → t ≡ s)

  module _ (user : ℕ) (content : Text) (p : UserPhoto) (db : Db) (s : S) (own : p.user_id ≡ user)
      (reliable : IsReliable storage p.object_key s) where
    cleanup-Uploaded :
        (e : Error) (after : Db) (t : S) (r : Bool × S)
        → after ≡ db
        → storage.put p.object_key p.content_type p.file_size content s ≡ (true, t)
        → storage.delete p.object_key t ≡ r
        → Uploaded user content db s (after_cleanup storage (photo_repository env) e after r)
    cleanup-Uploaded e after t (true, u) same stored removed =
        (same, (λ h. reliable.put_undone p.content_type p.file_size content t u stored removed))
    cleanup-Uploaded e after t (false, u) same stored removed = (same, (λ h. cc))

    kept :
        (q : UserPhoto)
        → q ≡ Positions.row_of env p db
        → (q.user_id ≡ p.user_id)
          × (q.object_key ≡ p.object_key)
          × (q.content_type ≡ p.content_type)
          × (q.file_size ≡ p.file_size)
    unfolding new_photo
    kept q e = (
      ap (λ r. r.user_id) e,
      ap (λ r. r.object_key) e,
      ap (λ r. r.content_type) e,
      ap (λ r. r.file_size) e,
    )

    create-Uploaded :
        (t : S) (r : Result UserPhoto × Db)
        → Created env p db r
        → storage.put p.object_key p.content_type p.file_size content s ≡ (true, t)
        → Uploaded user content db s (after_create storage (photo_repository env) p.object_key t r)
    create-Uploaded t (ok q, after) (row, written) stored =
        let k = kept q row in (k.0 ∙ own, written, rw (k.1, k.2, k.3) stored)
    create-Uploaded t (err e, after) same stored = cleanup-Uploaded e after t _ same stored refl

    put-Uploaded :
        (r : Bool × S)
        → storage.put p.object_key p.content_type p.file_size content s ≡ r
        → Uploaded user content db s (after_put storage (photo_repository env) p db r)
    put-Uploaded (false, t) refused =
        (refl, (λ h. reliable.put_fails p.content_type p.file_size content t refused))
    put-Uploaded (true, t) stored = create-Uploaded t _ (create_photo-Created env p db) stored

  -- Upload either stores one photo of the user, as a new row and as an object with the same key, type
  -- and size, or it fails and stores no row; then the object store is as before too, unless the error
  -- says that the object could not be removed. For the key that this upload draws, the object store
  -- keeps nothing of a put that fails, and a removal that succeeds undoes the put.
  pub upload-Uploaded :
      (user : ℕ) (content_type : Text) (size : ℤ) (content : Text) (new_key : Option Text) (db : Db)
      (s : S)
      → ((key extension : Text)
          → new_key ≡ some key
          → photo_extension content_type ≡ some extension
          → IsReliable storage (object_key_of user key extension) s)
      → Uploaded user content db s
          (upload storage (photo_repository env) user content_type size content new_key (db, s))
  unfolding upload
  upload-Uploaded user content_type size content new_key db s reliable =
      typed (photo_extension content_type) new_key refl refl
    where
      keyed :
          (extension : Text) (key : Option Text)
          → new_key ≡ key
          → photo_extension content_type ≡ some extension
          → Uploaded user content db s (
              upload_keyed storage
                (photo_repository env)
                user
                content_type
                (pos_part size)
                content
                extension
                key
                (db, s))
      keyed extension none k e = (refl, (λ h. refl))
      keyed extension (some key) k e =
          put-Uploaded user content
            (photo_to_store storage (photo_repository env) user (object_key_of user key extension)
              content_type (pos_part size))
            db s refl (reliable key extension k e) _ refl

      typed :
          (extension : Option Text) (key : Option Text)
          → new_key ≡ key
          → photo_extension content_type ≡ extension
          → Uploaded user content db s (
              upload_typed storage
                (photo_repository env)
                user
                content_type
                size
                content
                key
                extension
                (db, s))
      typed none key k e = (refl, (λ h. refl))
      typed (some extension) key k e =
          elim (Bool-cases (leb_ℤ size (pos 0) || ltb_ℤ (pos max_photo_size_bytes) size)) [
            | inl bad ↦ rw bad (refl, (λ h. refl))
            | inr good ↦ rw good (keyed extension key k e)
          ]

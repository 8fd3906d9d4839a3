-- ===== src/Service/Related/Calls.antt =====
-- The likes, exclusions and chats under the calls that publish and those that use the object store.
use tinder_like_back.Base.{
  ℕ, ◌≡◌, refl, sym, ap, ◌∙◌, subst, Bool, true, false, ◌||◌, arith, Bool-cases, inl, inr, Option,
  none, some, [], ◌∷◌,
}
use tinder_like_back.Base.Int.{ℤ, pos, pos_part, leb_ℤ, ltb_ℤ}
use tinder_like_back.Models.{Text, UserPhoto}
use tinder_like_back.Errors.{Error, Result, ok, err}
use tinder_like_back.Database.{Db, Env}
use tinder_like_back.Repository.Photos
use tinder_like_back.Repository.Photos.{insert_photo, is_photo}
use tinder_like_back.Repository.Photos.Positions.{Created, create_photo-Created}
use tinder_like_back.Repository.Discovery.{insert_report}
use tinder_like_back.Repository.Ribbon.Consistency.{IsConsistent}
use tinder_like_back.Repository.Ribbon.History.{
  Command, like, dislike, block, unblock, step, step-IsConsistent,
}
use tinder_like_back.Service.Ribbon
use tinder_like_back.Service.Ribbon.{
  World, Call, LikeOutput, finish, done, target_error, emit, emit_match, ribbon_repository,
}
use tinder_like_back.Service.Ribbon.Requests.{
  publish_then, Request, dislikes, blocks, unblocks, reports, serve, Served, serve-Served,
}
use tinder_like_back.Service.Photos.{
  ObjectStore, photo_repository, max_photo_size_bytes, photo_extension, after_cleanup, after_create,
  after_put, upload_keyed, upload_typed, upload, list_photos, remove_row, remove_found,
  delete_photo,
}
use tinder_like_back.Events.{flag}
use tinder_like_back.Service.Ribbon.Published.{after_like}
use tinder_like_back.Service.Photos.Removals.{get_by_id-IsReader}
use tinder_like_back.Service.Related.{Same, Same-of, Same-IsConsistent}

abbrev pub Preserves : {A : Type 0} → World → Result A × World → Type 0
Preserves w r = IsConsistent w.db → IsConsistent r.1.db

-- What follows a call of the store does not touch the database.
finish_db :
    {A B : Type 0} (k : A → Call B) (w : World) (r : Result A × Db)
    → ((a : A) (w' : World) → (k a w').1.db ≡ w'.db)
    → (finish k w r).1.db ≡ r.1
finish_db k w (ok a, db) h = h a (record w { db = db })
finish_db k w (err e, db) h = refl

module _ (env : Env) (user : ℕ) (w : World) where
  stepped :
      {A B : Type 0} (k : A → Call B) (c : Command) (r : Result A × Db)
      → r.1 ≡ step env c w.db
      → ((a : A) (w' : World) → (k a w').1.db ≡ w'.db)
      → Preserves w (finish k w r)
  stepped k c r e h v =
      subst IsConsistent (sym (finish_db k w r h ∙ e)) (step-IsConsistent env c w.db v)

  match_db :
      (target : ℕ) (chat : Option ℕ) (w' : World) → (emit_match env user target chat w').db ≡ w'.db
  unfolding emit_match emit
  match_db target none w' = refl
  match_db target (some id) w' = refl

  pub like-Preserves :
      (target : ℤ) → Preserves w (Ribbon.like env (ribbon_repository env) user target w)
  unfolding Ribbon.like step emit
  like-Preserves target = elim (Bool-cases (target_error user target)) [
    | inl bad ↦ rw bad (λ v. v)
    | inr good ↦ rw good (
        stepped (after_like env user target) (like user (pos_part target)) _ refl
          (λ chat w'. match_db (pos_part target) chat _))
  ]

  Served-Same :
      (target reason : ℤ) (comment : Text) (r : Result (Unit {0}) × World)
      → Served env user (reports target reason comment) w r
      → Same w.db r.1.db
  unfolding insert_report
  Served-Same target reason comment (err e, after) h = Same-of (ap (λ w. w.db) h)
  Served-Same target reason comment (ok u, after) (t, h, p) =
      subst (Same w.db) (sym h) (refl, refl, refl, refl)

  pub serve-Preserves : (q : Request) → Preserves w (serve env user q w)
  unfolding serve Ribbon.dislike Ribbon.block Ribbon.unblock step emit
  serve-Preserves (dislikes target) = elim (Bool-cases (target_error user target)) [
    | inl bad ↦ rw bad (λ v. v)
    | inr good ↦ rw good (
        stepped
          (publish_then (emit env "swipe" user (pos_part target) (("liked", flag false) ∷ [])))
          (dislike user (pos_part target)) _ refl (λ u w'. refl))
  ]
  serve-Preserves (blocks target) = elim (Bool-cases (target_error user target)) [
    | inl bad ↦ rw bad (λ v. v)
    | inr good ↦ rw good (
        stepped (publish_then (emit env "block" user (pos_part target) []))
          (block user (pos_part target)) _ refl (λ u w'. refl))
  ]
  serve-Preserves (unblocks target) = elim (Bool-cases (target_error user target)) [
    | inl bad ↦ rw bad (λ v. v)
    | inr good ↦
        rw good (stepped (λ u. done tt) (unblock user (pos_part target)) _ refl (λ u w'. refl))
  ]
  serve-Preserves (reports target reason comment) = Same-IsConsistent w.db _ (
      Served-Same target reason comment _ (serve-Served env user (reports target reason comment) w))

module _ {S : Type 0} (storage : ObjectStore S) (env : Env) (user : ℕ) (db : Db) (t : S) where
  pub list_photos-Same : Same db (list_photos storage (photo_repository env) user (db, t)).1.0
  unfolding list_photos Photos.list_by_user_id
  list_photos-Same = (refl, refl, refl, refl)

  cleaned_up :
      (after : Db) (e : Error) (r : Bool × S)
      → Same db after
      → Same db (after_cleanup storage (photo_repository env) e after r).1.0
  cleaned_up after e (true, t) h = h
  cleaned_up after e (false, t) h = h

  Created-Same :
      (p : UserPhoto) (key : Text) (t : S) (r : Result UserPhoto × Db)
      → Created env p db r
      → Same db (after_create storage (photo_repository env) key t r).1.0
  unfolding insert_photo
  Created-Same p key t (ok q, after) (e, h) = subst (Same db) (sym h) (refl, refl, refl, refl)
  Created-Same p key t (err e, after) h = cleaned_up after e (storage.delete key t) (Same-of h)

  put-Same :
      (p : UserPhoto) (r : Bool × S) → Same db (after_put storage (photo_repository env) p db r).1.0
  put-Same p (false, t) = (refl, refl, refl, refl)
  put-Same p (true, t) = Created-Same p p.object_key t _ (create_photo-Created env p db)

  keyed-Same :
      (content_type : Text) (size : ℕ) (content extension : Text) (key : Option Text)
      → Same db
          (upload_keyed storage
            (photo_repository env)
            user
            content_type
            size
            content
            extension
            key
            (db, t)).1.0
  keyed-Same content_type size content extension none = (refl, refl, refl, refl)
  keyed-Same content_type size content extension (some key) = put-Same _ _

  typed-Same :
      (content_type : Text) (size : ℤ) (content : Text) (key extension : Option Text)
      → Same db
          (upload_typed storage
            (photo_repository env)
            user
            content_type
            size
            content
            key
            extension
            (db, t)).1.0
  typed-Same content_type size content key none = (refl, refl, refl, refl)
  typed-Same content_type size content key (some extension) =
      elim (Bool-cases (leb_ℤ size (pos 0) || ltb_ℤ (pos max_photo_size_bytes) size)) [
        | inl bad ↦ rw bad (refl, refl, refl, refl)
        | inr good ↦ rw good (keyed-Same content_type (pos_part size) content extension key)
      ]

  pub upload-Same :
      (content_type : Text) (size : ℤ) (content : Text) (new_key : Option Text)
      → Same db
          (upload storage (photo_repository env) user content_type size content new_key (db, t)).1.0
  unfolding upload
  upload-Same content_type size content new_key =
      typed-Same content_type size content new_key (photo_extension content_type)

  row-Same :
      (id : ℕ) (r : Bool × S) → Same db (remove_row storage (photo_repository env) user id db r).1.0
  unfolding Photos.delete_photo
  row-Same id (false, t) = (refl, refl, refl, refl)
  row-Same id (true, t) = ground arith

  found-Same :
      (id : ℕ) (r : Result UserPhoto × Db)
      → r.1 ≡ db
      → Same db (remove_found storage (photo_repository env) user id t r).1.0
  found-Same id (err e, after) h = Same-of h
  found-Same id (ok p, after) h =
      subst (λ d. Same db (remove_found storage (photo_repository env) user id t (ok p, d)).1.0)
        (sym h) (row-Same id (storage.delete p.object_key t))

  pub delete_photo-Same :
      (id : ℤ) → Same db (delete_photo storage (photo_repository env) user id (db, t)).1.0
  unfolding delete_photo
  delete_photo-Same id = elim (Bool-cases (leb_ℤ id (pos 0))) [
    | inl bad ↦ rw bad (refl, refl, refl, refl)
    | inr good ↦ rw good (found-Same (pos_part id) _ (get_by_id-IsReader env user (pos_part id) db))
  ]

-- ===== src/Http/Failing.antt =====
-- The tables and the queue of events after a request that is answered with an error, for each way in
-- which a handler calls a service.
use tinder_like_back.Base.{
  ℕ, ◌≤◌, ◌<◌, ◌≡◌, refl, ap, subst, Bool, true, false, ◌||◌, arith, Bool-cases, inl, inr, Option,
  none, some, any,
}
use tinder_like_back.Base.Int.{ℤ, pos, pos_part, leb_ℤ, ltb_ℤ}
use tinder_like_back.Models.{Text, UserPhoto}
use tinder_like_back.Errors.{Error, Stage, Result, ok, err}
use tinder_like_back.Database.{Db, Env, Action}
use tinder_like_back.Database.Failures.{Fails, IsAtomic}
use tinder_like_back.Repository.Photos
use tinder_like_back.Repository.Photos.{is_photo, get_by_id}
use tinder_like_back.Repository.Photos.Positions.{Created, create_photo-Created}
use tinder_like_back.Service.Ribbon
use tinder_like_back.Service.Ribbon.{World, Call, LikeOutput, ribbon_repository}
use tinder_like_back.Service.Ribbon.Published.{Liked, like-Liked}
use tinder_like_back.Service.Ribbon.Requests.{Request as Command, serve, Served, serve-Served}
use tinder_like_back.Service.Photos.{
  ObjectStore, photo_repository, max_photo_size_bytes, photo_extension, object_key_of,
  after_cleanup, after_create, after_put, photo_to_store, upload_keyed, upload_typed, upload,
  list_photos, remove_row, remove_found, delete_photo,
}
use tinder_like_back.Service.Photos.Removals.{none_removed, get_by_id-IsReader}
use tinder_like_back.Http.{Response, Server, run_action, run_call, run_stored}

-- The tables and the queue are as before, if the response is an error.
abbrev pub Unchanged : {S : Type 0} → Server S → Response × Server S → Type 0
Unchanged s (response, after) =
    400 ≤ response.status
    → (after.world.db ≡ s.world.db) × (after.world.publisher ≡ s.world.publisher)

-- A failure of a service that publishes, and of one that uses the object store.
abbrev pub CallFails : {A : Type 0} → World → Result A × World → Type 0
CallFails w (ok a, after) = Unit
CallFails w (err e, after) = after ≡ w

abbrev pub StoredFails : {A S : Type 0} → Db → Result A × (Db × S) → Type 0
StoredFails db (ok a, after) = Unit
StoredFails db (err e, after) = after.0 ≡ db

module _ {S A : Type 0} (failed : Error → Response) (done : A → Response)
    (succeeds : (a : A) → (done a).status < 400) (s : Server S) where
  action_response :
      (r : Result A × Db) → Fails s.world.db r → Unchanged s (run_action failed done (λ db. r) s)
  action_response (ok a, after) h bad = absurd (omega (arith, succeeds a))
  action_response (err e, after) h bad = (h, refl)

  pub run_action-Unchanged :
      (act : Action A) → IsAtomic act → Unchanged s (run_action failed done act s)
  run_action-Unchanged act h = action_response (act s.world.db) (h s.world.db)

  call_response :
      (r : Result A × World) → CallFails s.world r → Unchanged s (run_call failed done (λ w. r) s)
  call_response (ok a, after) h bad = absurd (omega (arith, succeeds a))
  call_response (err e, after) h bad = (ap (λ w. w.db) h, ap (λ w. w.publisher) h)

  pub run_call-Unchanged :
      (call : Call A) → CallFails s.world (call s.world) → Unchanged s (run_call failed done call s)
  run_call-Unchanged call h = call_response (call s.world) h

  stored_response :
      (r : Result A × (Db × S))
      → StoredFails s.world.db r
      → Unchanged s (run_stored failed done (λ w. r) s)
  stored_response (ok a, after) h bad = absurd (omega (arith, succeeds a))
  stored_response (err e, after) h bad = (h, refl)

  pub run_stored-Unchanged :
      (call : Db × S → Result A × (Db × S))
      → StoredFails s.world.db (call (s.world.db, s.objects))
      → Unchanged s (run_stored failed done call s)
  run_stored-Unchanged call h = stored_response (call (s.world.db, s.objects)) h

-- The services behind the handlers.
module _ (env : Env) (user : ℕ) (w : World) where
  Liked-fails :
      (target : ℤ) (r : Result LikeOutput × World) → Liked env user target w r → CallFails w r
  Liked-fails target (ok a, after) h = tt
  Liked-fails target (err e, after) h = h

  pub like-CallFails :
      (target : ℤ) → CallFails w (Ribbon.like env (ribbon_repository env) user target w)
  like-CallFails target = Liked-fails target _ (like-Liked env user target w)

  Served-fails :
      (q : Command) (r : Result (Unit {0}) × World) → Served env user q w r → CallFails w r
  Served-fails q (ok a, after) h = tt
  Served-fails q (err e, after) h = h

  pub serve-CallFails : (q : Command) → CallFails w (serve env user q w)
  serve-CallFails q = Served-fails q _ (serve-Served env user q w)

module _ {S : Type 0} (storage : ObjectStore S) (env : Env) (user : ℕ) where
  pub list_photos-StoredFails :
      (db : Db) (t : S) → StoredFails db (list_photos storage (photo_repository env) user (db, t))
  unfolding list_photos Photos.list_by_user_id
  list_photos-StoredFails db t = ground arith

  cleaned_up :
      (db after : Db) (e : Error) (r : Bool × S)
      → after ≡ db
      → StoredFails db (after_cleanup storage (photo_repository env) e after r)
  cleaned_up db after e (true, t) h = h
  cleaned_up db after e (false, t) h = h

  Created-fails :
      (p : UserPhoto) (key : Text) (t : S) (db : Db) (r : Result UserPhoto × Db)
      → Created env p db r
      → StoredFails db (after_create storage (photo_repository env) key t r)
  Created-fails p key t db (ok q, after) h = tt
  Created-fails p key t db (err e, after) h = cleaned_up db after e (storage.delete key t) h

  put_fails :
      (p : UserPhoto) (db : Db) (r : Bool × S)
      → StoredFails db (after_put storage (photo_repository env) p db r)
  put_fails p db (false, t) = refl
  put_fails p db (true, t) = Created-fails p p.object_key t db _ (create_photo-Created env p db)

  pub upload-StoredFails :
      (content_type : Text) (size : ℤ) (content : Text) (new_key : Option Text) (db : Db) (t : S)
      → StoredFails db
          (upload storage (photo_repository env) user content_type size content new_key (db, t))
  unfolding upload
  upload-StoredFails content_type size content new_key db t =
      typed (photo_extension content_type) new_key
    where
      keyed :
          (extension : Text) (key : Option Text)
          → StoredFails db (
              upload_keyed storage
                (photo_repository env)
                user
                content_type
                (pos_part size)
                content
                extension
                key
                (db, t))
      keyed extension none = refl
      keyed extension (some key) =
          put_fails
            (photo_to_store storage (photo_repository env) user (object_key_of user key extension)
              content_type (pos_part size))
            db _

      typed :
          (extension key : Option Text)
          → StoredFails db (
              upload_typed storage
                (photo_repository env)
                user
                content_type
                size
                content
                key
                extension
                (db, t))
      typed none key = refl
      typed (some extension) key =
          elim (Bool-cases (leb_ℤ size (pos 0) || ltb_ℤ (pos max_photo_size_bytes) size)) [
            | inl bad ↦ rw bad refl
            | inr good ↦ rw good (keyed extension key)
          ]

  row-Fails : (id : ℕ) (db : Db) → Fails db (Photos.delete_photo env user id db)
  unfolding Photos.delete_photo
  row-Fails id db = elim (Bool-cases (env.fails Stage.delete_photo_metadata)) [
    | inl fault ↦ rw fault refl
    | inr sound ↦ elim (Bool-cases (any (is_photo user id) db.photos)) [
      | inl found ↦ rw (sound, found) tt
      | inr missing ↦
          rw (sound, missing)
            (ap (λ ps. record db { photos = ps }) (none_removed user id db.photos missing))
    ]
  ]

  removed_row :
      (db : Db) (t : S) (r : Result (Unit {0}) × Db) → Fails db r → StoredFails db (r.0, (r.1, t))
  removed_row db t (ok u, after) h = tt
  removed_row db t (err e, after) h = h

  remove_fails :
      (id : ℕ) (db : Db) (r : Bool × S)
      → StoredFails db (remove_row storage (photo_repository env) user id db r)
  remove_fails id db (false, t) = refl
  remove_fails id db (true, t) = removed_row db t _ (row-Fails id db)

  found_fails :
      (id : ℕ) (t : S) (db : Db) (r : Result UserPhoto × Db)
      → r.1 ≡ db
      → StoredFails db (remove_found storage (photo_repository env) user id t r)
  found_fails id t db (err e, after) h = h
  found_fails id t db (ok p, after) h =
      subst
        (λ d. StoredFails d (remove_found storage (photo_repository env) user id t (ok p, after))) h
        (remove_fails id after (storage.delete p.object_key t))

  pub delete_photo-StoredFails :
      (id : ℤ) (db : Db) (t : S)
      → StoredFails db (delete_photo storage (photo_repository env) user id (db, t))
  unfolding delete_photo
  delete_photo-StoredFails id db t = elim (Bool-cases (leb_ℤ id (pos 0))) [
    | inl bad ↦ rw bad refl
    | inr good ↦
        rw good (found_fails (pos_part id) t db _ (get_by_id-IsReader env user (pos_part id) db))
  ]

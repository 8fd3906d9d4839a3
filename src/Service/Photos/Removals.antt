-- ===== src/Service/Photos/Removals.antt =====
-- The table and the object store after Delete.
use tinder_like_back.Database.Failures.{IsReader}
use tinder_like_back.Base.{
  ap, sym, subst, ℕ, ◌≡◌, refl, Bool, true, false, not, some, List, [], ◌∷◌, any, filter, find?,
  arith, Bool-cases, inl, inr,
}
use tinder_like_back.Base.Int.{ℤ, pos, pos_part, leb_ℤ}
use tinder_like_back.Models.{UserPhoto}
use tinder_like_back.Errors.{Stage, Result, ok, err}
use tinder_like_back.Database.{Db, Env}
use tinder_like_back.Repository.Photos
use tinder_like_back.Repository.Photos.{is_photo, get_by_id}
use tinder_like_back.Service.Photos.{
  ObjectStore, photo_repository, remove_row, remove_found, delete_photo,
}

none_left :
    (user id : ℕ) (ps : List UserPhoto)
    → any (is_photo user id) (filter (λ p. not (is_photo user id p)) ps) ≡ false
none_left user id [] = refl
none_left user id (p ∷ ps) = ground (arith, none_left user id ps)

pub none_removed :
    (user id : ℕ) (ps : List UserPhoto)
    → any (is_photo user id) ps ≡ false
    → filter (λ p. not (is_photo user id p)) ps ≡ ps
none_removed user id [] h = refl
none_removed user id (p ∷ ps) h = ground (arith, none_removed user id ps)

-- The photos that a request does not name.
abbrev pub others : ℕ → ℕ → List UserPhoto → List UserPhoto
others user id = filter (λ p. not (is_photo user id p))

abbrev pub Dropped : ℕ → ℕ → Db → Result (Unit {0}) × Db → Type 0
Dropped user id db (err e, after) = after.photos ≡ db.photos
Dropped user id db (ok u, after) =
    (any (is_photo user id) after.photos ≡ false) × (after.photos ≡ others user id db.photos)

row-Dropped :
    (env : Env) (user id : ℕ) (db : Db) → Dropped user id db (Photos.delete_photo env user id db)
unfolding Photos.delete_photo
row-Dropped env user id db = elim (Bool-cases (env.fails Stage.delete_photo_metadata)) [
  | inl fault ↦ rw fault refl
  | inr sound ↦ elim (Bool-cases (any (is_photo user id) db.photos)) [
    | inl found ↦ rw (sound, found) (none_left user id db.photos, refl)
    | inr missing ↦ rw (sound, missing) (none_removed user id db.photos missing)
  ]
]

module _ {S : Type 0} (storage : ObjectStore S) (env : Env) (user : ℕ) where
  abbrev pub Removed : ℕ → Db → S → Result (Unit {0}) × (Db × S) → Type 0
  Removed id db s (err e, (after, t)) = after.photos ≡ db.photos
  Removed id db s (ok u, (after, t)) =
      ((p : UserPhoto) × (find? (is_photo user id) db.photos ≡ some p)
        × (storage.delete p.object_key s ≡ (true, t)))
      × (any (is_photo user id) after.photos ≡ false)
      × (after.photos ≡ others user id db.photos)

  Dropped-Removed :
      (id : ℕ) (db : Db) (s t : S) (p : UserPhoto) (r : Result (Unit {0}) × Db)
      → find? (is_photo user id) db.photos ≡ some p
      → storage.delete p.object_key s ≡ (true, t)
      → Dropped user id db r
      → Removed id db s (r.0, (r.1, t))
  Dropped-Removed id db s t p (err e, after) found gone d = d
  Dropped-Removed id db s t p (ok u, after) found gone d = ((p, found, gone), d.0, d.1)

  row-Removed :
      (id : ℕ) (db : Db) (s : S) (p : UserPhoto) (r : Bool × S)
      → find? (is_photo user id) db.photos ≡ some p
      → storage.delete p.object_key s ≡ r
      → Removed id db s (remove_row storage (photo_repository env) user id db r)
  row-Removed id db s p (false, t) found gone = refl
  row-Removed id db s p (true, t) found gone =
      Dropped-Removed id db s t p _ found gone (row-Dropped env user id db)

  read_photo :
      (id : ℕ) (db : Db) (r : Result UserPhoto × Db)
      → get_by_id env user id db ≡ r
      → (r.1 ≡ db) × ((p : UserPhoto) → r.0 ≡ ok p → find? (is_photo user id) db.photos ≡ some p)
  unfolding get_by_id
  read_photo id db r h = (ground arith, (λ p e. ground arith))

  found-Removed :
      (id : ℕ) (db : Db) (s : S) (r : Result UserPhoto × Db)
      → (r.1 ≡ db) × ((p : UserPhoto) → r.0 ≡ ok p → find? (is_photo user id) db.photos ≡ some p)
      → Removed id db s (remove_found storage (photo_repository env) user id s r)
  found-Removed id db s (err e, after) h = ap (λ d. d.photos) h.0
  found-Removed id db s (ok p, after) h =
      subst
        (λ d.
          Removed id db s
            (remove_row storage (photo_repository env) user id d (storage.delete p.object_key s)))
        (sym h.0) (row-Removed id db s p _ (h.1 p refl) refl)

  -- Delete either goes through: then the user had the photo, its object was removed from the object
  -- store first, and of the rows just this one is gone; or it fails, and every row is still there. So
  -- no row is removed whose object could not be.
  pub delete_photo-Removed :
      (id : ℤ) (db : Db) (s : S)
      → Removed (pos_part id) db s (delete_photo storage (photo_repository env) user id (db, s))
  unfolding delete_photo
  delete_photo-Removed id db s = elim (Bool-cases (leb_ℤ id (pos 0))) [
    | inl bad ↦ rw bad refl
    | inr good ↦ rw good (found-Removed (pos_part id) db s _ (read_photo (pos_part id) db _ refl))
  ]

pub get_by_id-IsReader : (env : Env) (user id : ℕ) → IsReader (get_by_id env user id)
unfolding get_by_id
get_by_id-IsReader env user id db = ground arith

-- ===== src/Seed/Again.antt =====
-- Load over the tables that an earlier Load has filled.
use tinder_like_back.Base.{
  ℕ, suc, ◌≡◌, refl, sym, ◌∙◌, ap, subst, Bool, true, ◌==◌, some, List, [], ◌∷◌, map, find?, any,
  All, All-mono, arith,
}
use tinder_like_back.Geo.{FloatOps}
use tinder_like_back.Models.{Text, User, Profile, DiscoveryPreferences}
use tinder_like_back.Errors.{Stage, Result, ok, err}
use tinder_like_back.Database.{Db, Env, resume, ◌>>◌, user_exists}
use tinder_like_back.Repository.Users.{email_taken}
use tinder_like_back.Repository.Profiles.{put_profile, profile_allowed}
use tinder_like_back.Repository.Ribbon.Likes.{NoFaults}
use tinder_like_back.Seed.{
  has_email, put_demo, ensure_user, seed_profile, upsert_profile, load_accounts,
}
use tinder_like_back.Seed.People.{Account}
use tinder_like_back.Seed.Loaded.{Known, has_profile, profile_fits, any-find, any-put_profile}

abbrev pub owners : Db → List ℕ
owners db = map (λ p. p.user_id) db.profiles

-- The same accounts, one profile for each as before, and no new like.
abbrev pub SameRows : Db → Db → Type 0
SameRows db after =
    (after.users ≡ db.users)
    × (owners after ≡ owners db)
    × (map (λ f. f.user_id) after.preferences ≡ map (λ f. f.user_id) db.preferences)
    × (after.swipes ≡ db.swipes)

-- An account that is there, with a profile that the table takes.
abbrev pub Present : FloatOps → (Text → Text) → Db → Account → Type 0
Present fl lower db account =
    (id : ℕ) × Known lower db account.email id
    × (has_profile db id ≡ true)
    × (profile_fits fl (seed_profile account 0) ≡ true)

any-id :
    (hit : User → Bool) (id : ℕ) (xs : List User) (u : User)
    → find? hit xs ≡ some u
    → u.id ≡ id
    → any (λ v. v.id == id) xs ≡ true
any-id hit id [] u h e = absurd cc
any-id hit id (x ∷ xs) u h e = ground (arith, any-id hit id xs u, ap (λ o. o) h)

owners-put :
    (env : Env) (next : ℕ) (p : Profile) (qs : List Profile)
    → any (λ q. q.user_id == p.user_id) qs ≡ true
    → map (λ q. q.user_id) (put_profile env next p qs) ≡ map (λ q. q.user_id) qs
unfolding put_profile
owners-put env next p [] h = absurd cc
owners-put env next p (q ∷ qs) h = ground (arith, owners-put env next p qs)

pub users-put :
    (f : DiscoveryPreferences) (gs : List DiscoveryPreferences)
    → any (λ g. g.user_id == f.user_id) gs ≡ true
    → map (λ g. g.user_id) (put_demo f gs) ≡ map (λ g. g.user_id) gs
unfolding put_demo
users-put f [] h = absurd cc
users-put f (g ∷ gs) h = ground (arith, users-put f gs)

-- What the loop leaves as it was.
abbrev pub Kept : Db → Db → Type 0
Kept db after =
    (after.users ≡ db.users)
    × (owners after ≡ owners db)
    × (after.preferences ≡ db.preferences)
    × (after.swipes ≡ db.swipes)

abbrev pub Reloads : Db → Result (List (Text × ℕ)) × Db → Type 0
Reloads db (err e, after) = ⊥
Reloads db (ok ids, after) = Kept db after

module _ (fl : FloatOps) (env : Env) (password_hash : Text) (sound : NoFaults env) where
  abbrev bumped : Db → Db
  bumped db = record db { next_user_id = suc db.next_user_id }

  abbrev stored : Profile → Db → Db
  stored p db = record db {
    profiles = put_profile env db.next_profile_id p db.profiles;
    next_profile_id = suc db.next_profile_id;
  }

  ensure_again :
      (email : Text) (id : ℕ) (db : Db)
      → Known env.lower db email id
      → ensure_user env email password_hash db ≡ (ok id, bumped db)
  unfolding ensure_user email_taken
  ensure_again email id db (u, found, same) =
      rw
        (
          sound Stage.insert_seed_user,
          any-find (has_email env.lower email) db.users u found,
          sound Stage.find_seed_user,
          found,
          same,
        )
        refl

  pub Known-exists :
      (email : Text) (id : ℕ) (db : Db) → Known env.lower db email id → user_exists db id ≡ true
  unfolding user_exists
  Known-exists email id db (u, found, same) =
      any-id (has_email env.lower email) id db.users u found same

  put_again :
      (p : Profile) (db : Db)
      → profile_fits fl p ≡ true
      → user_exists db p.user_id ≡ true
      → upsert_profile fl env p db ≡ (ok tt, stored p db)
  unfolding upsert_profile profile_allowed
  put_again p db fits here = ground (arith, sound Stage.seed_profile)

  Reloads-trans :
      (db db2 : Db) (r : Result (List (Text × ℕ)) × Db) → Kept db db2 → Reloads db2 r → Reloads db r
  Reloads-trans db db2 (err e, after) k h = h
  Reloads-trans db db2 (ok ids, after) (a, b, c, d) (e, f, g, h) = (e ∙ a, f ∙ b, g ∙ c, h ∙ d)

  still-Present :
      (p : Profile) (db : Db) (a : Account)
      → Present fl env.lower db a
      → Present fl env.lower (stored p (bumped db)) a
  still-Present p db a (id, known, own, fits) =
      (id, known, ground (arith, any-put_profile env db.next_profile_id id p db.profiles), fits)

  next_account :
      (account : Account) (rest : List Account) (ids : List (Text × ℕ)) (id : ℕ) (db : Db)
      → Known env.lower db account.email id
      → profile_fits fl (seed_profile account 0) ≡ true
      → load_accounts fl env password_hash ids (account ∷ rest) db
        ≡ load_accounts fl env password_hash
            ((account.email, id) ∷ ids)
            rest
            (stored (seed_profile account id) (bumped db))
  unfolding load_accounts
  next_account account rest ids id db known fits =
      ap
        (resume (λ user.
          upsert_profile fl env (seed_profile account user)
          >> load_accounts fl env password_hash ((account.email, user) ∷ ids) rest))
        (ensure_again account.email id db known)
      ∙ ap (resume (λ u. load_accounts fl env password_hash ((account.email, id) ∷ ids) rest)) (
          put_again (seed_profile account id) (bumped db) fits
            (Known-exists account.email id (bumped db) known))

  pub load_accounts-Reloads :
      (xs : List Account) (ids : List (Text × ℕ)) (db : Db)
      → All (Present fl env.lower db) xs
      → Reloads db (load_accounts fl env password_hash ids xs db)
  unfolding load_accounts
  load_accounts-Reloads [] ids db all = (refl, refl, refl, refl)
  load_accounts-Reloads (account ∷ rest) ids db ((id, known, own, fits), all) =
      let p = seed_profile account id in
      let db2 = stored p (bumped db) in
      subst (Reloads db) (sym (next_account account rest ids id db known fits)) (
        Reloads-trans db db2 _
          (refl, owners-put env db.next_profile_id p db.profiles own, refl, refl)
          (load_accounts-Reloads rest ((account.email, id) ∷ ids) db2 (
            All-mono (Present fl env.lower db) (Present fl env.lower db2) rest
              (λ a h. still-Present p db a h) all)))

-- ===== src/Seed/Loaded.antt =====
-- What the loop over the accounts has stored.
use tinder_like_back.Base.{
  ℕ, ◌≡◌, refl, sym, ◌∙◌, ap, subst, Bool, true, false, not, ◌&&◌, ◌||◌, ◌==◌, Option, none, some,
  List, [], ◌∷◌, find?, any, arith, Bool-cases, inl, inr,
}
use tinder_like_back.Geo.{FloatOps}
use tinder_like_back.Models.{Text, User, Profile}
use tinder_like_back.Text.{text_eq}
use tinder_like_back.Errors.{Stage, Result, ok, err}
use tinder_like_back.Database.{Db, Env}
use tinder_like_back.Repository.Users.{email_taken}
use tinder_like_back.Repository.Profiles.{put_profile, profile_allowed, within}
use tinder_like_back.Platform.Accounts.Credentials.{text_eq_refl}
use tinder_like_back.Seed.{has_email, seed_user, found_user, ensure_user, upsert_profile, id_of}

abbrev pub has_profile : Db → ℕ → Bool
has_profile db user = any (λ p. p.user_id == user) db.profiles

-- The account of an email has this id.
abbrev pub Known : (Text → Text) → Db → Text → ℕ → Type 0
Known lower db email id =
    (u : User) × (find? (has_email lower email) db.users ≡ some u) × (u.id ≡ id)

-- ids has the account's id.
abbrev pub Recorded : (Text → Text) → Db → List (Text × ℕ) → Text → Type 0
Recorded lower db ids email = Known lower db email (id_of email ids)

pub text_eq_sound : (s t : Text) → text_eq s t ≡ true → s ≡ t
text_eq_sound [] [] h = refl
text_eq_sound [] (d ∷ t) h = absurd cc
text_eq_sound (c ∷ s) [] h = absurd cc
text_eq_sound (c ∷ s) (d ∷ t) h = ground (arith, text_eq_sound s t)

pub any-find :
    (hit : User → Bool) (xs : List User) (u : User) → find? hit xs ≡ some u → any hit xs ≡ true
any-find hit [] u h = absurd cc
any-find hit (x ∷ xs) u h = ground (arith, any-find hit xs u)

false-true : {b : Bool} → b ≡ true → b ≡ false → ⊥
false-true h k = cc

-- A new account has an email that no lookup so far has found.
known_before :
    (lower : Text → Text) (email other : Text) (new : User) (xs : List User) (u : User)
    → new.email ≡ email
    → any (has_email lower email) xs ≡ false
    → find? (has_email lower other) xs ≡ some u
    → find? (has_email lower other) (new ∷ xs) ≡ some u
known_before lower email other new xs u e free found =
    elim (Bool-cases (has_email lower other new)) [
      | inr miss ↦ rw miss found
      | inl hit ↦
          let same : lower other ≡ lower email =
            sym (text_eq_sound (lower new.email) (lower other) hit) ∙ ap lower e in
          let taken : any (λ u. text_eq (lower u.email) (lower other)) xs ≡ true =
            any-find (has_email lower other) xs u found in
          absurd (
            false-true (subst (λ k. any (λ u. text_eq (lower u.email) k) xs ≡ true) same taken)
              free)
    ]

-- What ensureUser returns.
abbrev pub Ensured : (Text → Text) → Text → Db → Result ℕ × Db → Type 0
Ensured lower email db (err e, after) = Unit
Ensured lower email db (ok id, after) =
    Known lower after email id
    × ((other : Text) (k : ℕ) → Known lower db other k → Known lower after other k)
    × (after.profiles ≡ db.profiles)

found-Known :
    (lower : Text → Text) (email : Text) (db after : Db) (o : Option User)
    → find? (has_email lower email) db.users ≡ o
    → after.users ≡ db.users
    → after.profiles ≡ db.profiles
    → Ensured lower email db (found_user o, after)
found-Known lower email db after none h e p = tt
found-Known lower email db after (some u) h e p =
    ((u, rw e h, refl), (λ other k (v, found, same). (v, rw e found, same)), p)

pub ensure_user-Ensured :
    (env : Env) (email password_hash : Text) (db : Db)
    → Ensured env.lower email db (ensure_user env email password_hash db)
unfolding ensure_user email_taken
ensure_user-Ensured env email password_hash db =
    elim (Bool-cases (env.fails Stage.insert_seed_user)) [
      | inl bad ↦ rw bad tt
      | inr works ↦ elim (Bool-cases (email_taken env email db.users)) [
        | inl taken ↦ elim (Bool-cases (env.fails Stage.find_seed_user)) [
          | inl bad ↦ rw (works, taken, bad) tt
          | inr finds ↦ rw (works, taken, finds) (found-Known env.lower email db _ _ refl refl refl)
        ]
        | inr free ↦
            rw (works, free)
              (
                (
                  seed_user env email password_hash db,
                  rw (text_eq_refl (env.lower email)) refl,
                  refl,
                ),
                (λ other k (v, found, same). (
                  v,
                  known_before env.lower email other (seed_user env email password_hash db) db.users
                      v refl free found,
                  same,
                )),
                refl,
              )
      ]
    ]

-- The CHECKs of a profile.
abbrev pub profile_fits : FloatOps → Profile → Bool
profile_fits fl p =
    any (λ c. not (c == 32)) p.full_name && (within fl 90 p.latitude && within fl 180 p.longitude)

-- What the upsert of a profile does.
abbrev pub Put : FloatOps → Profile → Db → Result (Unit {0}) × Db → Type 0
Put fl p db (err e, after) = Unit
Put fl p db (ok u, after) =
    (profile_fits fl p ≡ true)
    × (after.users ≡ db.users)
    × ((k : ℕ) → has_profile db k ≡ true → has_profile after k ≡ true)
    × (has_profile after p.user_id ≡ true)

pub any-put_profile :
    (env : Env) (next k : ℕ) (p : Profile) (qs : List Profile)
    → any (λ q. q.user_id == k) (put_profile env next p qs)
      ≡ (any (λ q. q.user_id == k) qs || p.user_id == k)
unfolding put_profile
any-put_profile env next k p [] = ground arith
any-put_profile env next k p (q ∷ qs) = ground (arith, any-put_profile env next k p qs)

pub upsert_profile-Put :
    (fl : FloatOps) (env : Env) (p : Profile) (db : Db) → Put fl p db (upsert_profile fl env p db)
unfolding upsert_profile profile_allowed
upsert_profile-Put fl env p db =
    elim (Bool-cases (env.fails Stage.seed_profile || not (profile_allowed fl p db))) [
      | inl bad ↦ rw bad tt
      | inr good ↦ rw good (
        ground arith,
        refl,
        (λ k h. ground (arith, any-put_profile env db.next_profile_id k p db.profiles)),
        ground (arith, any-put_profile env db.next_profile_id p.user_id p db.profiles),
      )
    ]

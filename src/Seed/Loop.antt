-- ===== src/Seed/Loop.antt =====
-- The loop over the accounts.
use tinder_like_back.Base.{ℕ, ◌≡◌, subst, true, List, [], ◌∷◌, All, arith, Bool-cases, inl, inr}
use tinder_like_back.Geo.{FloatOps}
use tinder_like_back.Models.{Text}
use tinder_like_back.Text.{text_eq}
use tinder_like_back.Errors.{Result, ok, err}
use tinder_like_back.Database.{Db, Env, resume, ◌>>◌}
use tinder_like_back.Platform.Accounts.Credentials.{text_eq_refl}
use tinder_like_back.Seed.{seed_profile, upsert_profile, id_of, load_accounts}
use tinder_like_back.Seed.People.{Account}
use tinder_like_back.Seed.Loaded.{
  has_profile, Known, Recorded, text_eq_sound, Ensured, ensure_user-Ensured, profile_fits, Put,
  upsert_profile-Put,
}

-- The ids, the accounts and the profiles after the loop.
abbrev pub Listed : FloatOps → (Text → Text) → Db → List (Text × ℕ) → Account → Type 0
Listed fl lower db ids account =
    Recorded lower db ids account.email
    × (has_profile db (id_of account.email ids) ≡ true)
    × (profile_fits fl (seed_profile account 0) ≡ true)

abbrev pub Loads :
    FloatOps
    → (Text → Text)
    → Db
    → List (Text × ℕ)
    → List Account
    → Result (List (Text × ℕ)) × Db
    → Type 0
Loads fl lower db ids xs (err e, after) = Unit
Loads fl lower db ids xs (ok ids', after) =
    ((other : Text) (k : ℕ) → Known lower db other k → Known lower after other k)
    × ((k : ℕ) → has_profile db k ≡ true → has_profile after k ≡ true)
    × ((other : Text) → Recorded lower db ids other → Recorded lower after ids' other)
    × All (Listed fl lower after ids') xs

pub Known-unique :
    (lower : Text → Text) (db : Db) (email : Text) (a b : ℕ)
    → Known lower db email a
    → Known lower db email b
    → a ≡ b
Known-unique lower db email a b (u, f, e) (v, g, h) = ground (arith, f, g, e, h)

module _ (fl : FloatOps) (env : Env) (password_hash : Text) where
  record_other :
      (db after : Db) (ids : List (Text × ℕ)) (email other : Text) (id : ℕ)
      → ((e : Text) (k : ℕ) → Known env.lower db e k → Known env.lower after e k)
      → Known env.lower after email id
      → Recorded env.lower db ids other
      → Recorded env.lower after ((email, id) ∷ ids) other
  record_other db after ids email other id mono here r = elim (Bool-cases (text_eq email other)) [
    | inl hit ↦
        rw hit (subst (λ e. Known env.lower after e id) (text_eq_sound email other hit) here)
    | inr miss ↦ rw miss (mono other (id_of other ids) r)
  ]

  after_put :
      (account : Account) (rest : List Account) (ids : List (Text × ℕ)) (id : ℕ) (db db1 db2 : Db)
      (r : Result (List (Text × ℕ)) × Db)
      → Ensured env.lower account.email db (ok id, db1)
      → Put fl (seed_profile account id) db1 (ok tt, db2)
      → Loads fl env.lower db2 ((account.email, id) ∷ ids) rest r
      → Loads fl env.lower db ids (account ∷ rest) r
  after_put account rest ids id db db1 db2 (err e, after) a b c = tt
  after_put account rest ids id db db1 db2 (ok ids', after) (here, mono, same) (fits, us, ps, own)
        (known, profiles, recorded, all) =
      let moved : (e : Text) (k : ℕ) → Known env.lower db1 e k → Known env.lower db2 e k =
        λ e k (v, f, g). (v, rw us f, g) in
      let mono2 : (e : Text) (k : ℕ) → Known env.lower db e k → Known env.lower db2 e k =
        λ e k h. moved e k (mono e k h) in
      let here2 = moved account.email id here in
      let mine : Recorded env.lower db2 ((account.email, id) ∷ ids) account.email =
        rw (text_eq_refl account.email) here2 in
      let listed = recorded account.email mine in
      let kept : id ≡ id_of account.email ids' =
        Known-unique env.lower after account.email id _ (known account.email id here2) listed in
      (
        (λ e k h. known e k (mono2 e k h)),
        (λ k h. profiles k (ps k (rw same h))),
        (λ e r. recorded e (record_other db db2 ids account.email e id mono2 here2 r)),
        ((listed, subst (λ k. has_profile after k ≡ true) kept (profiles id own), fits), all),
      )

  put_then :
      (account : Account) (rest : List Account) (ids : List (Text × ℕ)) (id : ℕ) (db db1 : Db)
      (r : Result (Unit {0}) × Db)
      → Ensured env.lower account.email db (ok id, db1)
      → Put fl (seed_profile account id) db1 r
      → ((db2 : Db)
          → Loads fl env.lower db2
              ((account.email, id) ∷ ids)
              rest
              (load_accounts fl env password_hash ((account.email, id) ∷ ids) rest db2))
      → Loads fl env.lower db ids
          (account ∷ rest)
          (resume (λ u. load_accounts fl env password_hash ((account.email, id) ∷ ids) rest) r)
  put_then account rest ids id db db1 (err e, db2) a b c = tt
  put_then account rest ids id db db1 (ok u, db2) a b c =
      after_put account rest ids id db db1 db2 _ a b (c db2)

  ensured_then :
      (account : Account) (rest : List Account) (ids : List (Text × ℕ)) (db : Db)
      (r : Result ℕ × Db)
      → Ensured env.lower account.email db r
      → ((ids1 : List (Text × ℕ)) (db2 : Db)
          → Loads fl env.lower db2 ids1 rest (load_accounts fl env password_hash ids1 rest db2))
      → Loads fl env.lower db ids (account ∷ rest) (
          resume
            (λ user.
              upsert_profile fl env (seed_profile account user)
              >> load_accounts fl env password_hash ((account.email, user) ∷ ids) rest)
            r)
  ensured_then account rest ids db (err e, db1) a c = tt
  ensured_then account rest ids db (ok id, db1) a c =
      put_then account rest ids id db db1 _ a (upsert_profile-Put fl env _ db1)
        (c ((account.email, id) ∷ ids))

  -- After the loop each account is there, with its profile, and its id is the one recorded.
  pub load_accounts-Loads :
      (xs : List Account) (ids : List (Text × ℕ)) (db : Db)
      → Loads fl env.lower db ids xs (load_accounts fl env password_hash ids xs db)
  unfolding load_accounts
  load_accounts-Loads [] ids db = ((λ e k h. h), (λ k h. h), (λ e r. r), tt)
  load_accounts-Loads (account ∷ rest) ids db =
      ensured_then account rest ids db _ (ensure_user-Ensured env account.email password_hash db)
        (load_accounts-Loads rest)

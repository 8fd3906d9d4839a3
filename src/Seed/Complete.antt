-- ===== src/Seed/Complete.antt =====
-- The tables after Load.
use tinder_like_back.Base.{
  ℕ, ◌≡◌, refl, ◌∙◌, Bool, true, not, ◌||◌, ◌==◌, some, List, [], ◌∷◌, any, All, All-mono, arith,
  Bool-cases, inl, inr,
}
use tinder_like_back.Geo.{FloatOps}
use tinder_like_back.Models.{Text, DiscoveryPreferences}
use tinder_like_back.Errors.{Stage, Result, ok, err}
use tinder_like_back.Database.{Db, Env, resume, ◌>>◌, control, roll_back, user_exists}
use tinder_like_back.Repository.Ribbon.{has_swipe, insert_swipe, pair_allowed}
use tinder_like_back.Repository.Ribbon.Pairs.{has_swipe-insert_swipe}
use tinder_like_back.Repository.Discovery.{preferences_allowed}
use tinder_like_back.Seed.{demo_preferences, put_demo, id_of, load_demo, load_body, load}
use tinder_like_back.Seed.People.{Account, accounts, demo_email, alina_email}
use tinder_like_back.Seed.Loop.{Listed, Loads, load_accounts-Loads}

abbrev pub has_preferences : Db → ℕ → Bool
has_preferences db user = any (λ f. f.user_id == user) db.preferences

-- Each account with its profile; the preferences of the demo account, and its incoming like.
pub record IsComplete (fl : FloatOps) (lower : Text → Text) (db : Db) : Type 0 where
  pub ids : List (Text × ℕ)
  pub listed : All (Listed fl lower db ids) (accounts fl)
  pub preferred : has_preferences db (id_of demo_email ids) ≡ true
  pub liked : has_swipe db (id_of alina_email ids) (id_of demo_email ids) ≡ true
  pub paired : pair_allowed (id_of alina_email ids) (id_of demo_email ids) db ≡ true

-- What the last two statements do.
abbrev pub DemoStored : List (Text × ℕ) → Db → Result (Unit {0}) × Db → Type 0
DemoStored ids db (err e, after) = Unit
DemoStored ids db (ok u, after) =
    (after.users ≡ db.users)
    × (after.profiles ≡ db.profiles)
    × (has_preferences after (id_of demo_email ids) ≡ true)
    × (has_swipe after (id_of alina_email ids) (id_of demo_email ids) ≡ true)
    × (pair_allowed (id_of alina_email ids) (id_of demo_email ids) after ≡ true)

any-put_demo :
    (f : DiscoveryPreferences) (gs : List DiscoveryPreferences)
    → any (λ g. g.user_id == f.user_id) (put_demo f gs) ≡ true
unfolding put_demo
any-put_demo f [] = ground arith
any-put_demo f (g ∷ gs) = ground (arith, any-put_demo f gs)

swipe_stored : (env : Env) (a b : ℕ) (db : Db) → has_swipe (insert_swipe env a b db) a b ≡ true
swipe_stored env a b db = ground (arith, has_swipe-insert_swipe env a b db a b)

pub same_users :
    (a b : ℕ) (db after : Db)
    → after.users ≡ db.users
    → pair_allowed a b after ≡ pair_allowed a b db
unfolding pair_allowed user_exists
same_users a b db after h = rw h refl

load_demo-DemoStored :
    (env : Env) (ids : List (Text × ℕ)) (db : Db) → DemoStored ids db (load_demo env ids db)
unfolding load_demo insert_swipe
load_demo-DemoStored env ids db =
    let user = id_of demo_email ids in
    let actor = id_of alina_email ids in
    let middle : Db = record db {
      preferences = put_demo (demo_preferences env user) db.preferences;
    } in
    elim (Bool-cases (
      env.fails Stage.seed_preferences
      || not (preferences_allowed (demo_preferences env user) db))) [
        | inl bad ↦ rw bad tt
        | inr good ↦
            elim (Bool-cases (env.fails Stage.seed_like || not (pair_allowed actor user middle))) [
              | inl bad ↦ rw (good, bad) tt
              | inr pair ↦
                  rw (good, pair)
                    (
                      refl,
                      refl,
                      any-put_demo (demo_preferences env user) db.preferences,
                      swipe_stored env actor user middle,
                      same_users actor user middle (insert_swipe env actor user middle) refl
                          ∙ ground arith,
                    )
            ]
      ]

abbrev pub Completed : FloatOps → (Text → Text) → Result (Unit {0}) × Db → Type 0
Completed fl lower (err e, after) = Unit
Completed fl lower (ok u, after) = IsComplete fl lower after

moved-Listed :
    (fl : FloatOps) (lower : Text → Text) (db after : Db) (ids : List (Text × ℕ)) (a : Account)
    → after.users ≡ db.users
    → after.profiles ≡ db.profiles
    → Listed fl lower db ids a
    → Listed fl lower after ids a
moved-Listed fl lower db after ids a us ps ((u, found, same), own, fits) =
    ((u, rw us found, same), rw ps own, fits)

module _ (fl : FloatOps) (env : Env) (password_hash : Text) where
  demo_then :
      (ids : List (Text × ℕ)) (db db1 : Db) (r : Result (Unit {0}) × Db)
      → Loads fl env.lower db [] (accounts fl) (ok ids, db1)
      → DemoStored ids db1 r
      → Completed fl env.lower (resume (λ u. control env Stage.commit_seed) r)
  demo_then ids db db1 (err e, after) l d = tt
  demo_then ids db db1 (ok u, after) l (us, ps, f, s, p) =
      elim (Bool-cases (env.fails Stage.commit_seed)) [
        | inl bad ↦ rw bad tt
        | inr good ↦ rw good (record {
          ids = ids;
          listed =
              All-mono (Listed fl env.lower db1 ids) (Listed fl env.lower after ids) (accounts fl)
                (λ a h. moved-Listed fl env.lower db1 after ids a us ps h) l.3;
          preferred = f;
          liked = s;
          paired = p;
        })
      ]

  accounts_then :
      (db : Db) (r : Result (List (Text × ℕ)) × Db)
      → Loads fl env.lower db [] (accounts fl) r
      → Completed fl env.lower
          (resume (λ ids. load_demo env ids >> control env Stage.commit_seed) r)
  accounts_then db (err e, db1) l = tt
  accounts_then db (ok ids, db1) l = demo_then ids db db1 _ l (load_demo-DemoStored env ids db1)

  kept_if_complete :
      (db : Db) (r : Result (Unit {0}) × Db)
      → Completed fl env.lower r
      → Completed fl env.lower (roll_back db r)
  kept_if_complete db (ok u, after) h = h
  kept_if_complete db (err e, after) h = tt

  pub load-Completed : (db : Db) → Completed fl env.lower (load fl env (some password_hash) db)
  unfolding load load_body
  load-Completed db = kept_if_complete db _ body
    where
      body : Completed fl env.lower (load_body fl env password_hash db)
      body = elim (Bool-cases (env.fails Stage.begin_seed)) [
        | inl bad ↦ rw bad tt
        | inr good ↦
            rw good
              (accounts_then db _ (load_accounts-Loads fl env password_hash (accounts fl) [] db))
      ]

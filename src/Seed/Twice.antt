-- ===== src/Seed/Twice.antt =====
-- Two runs of Load.
use tinder_like_back.Base.{
  ℕ, ◌≡◌, refl, sym, ◌∙◌, ap, subst, true, some, List, [], map, All-mono, arith, if◌then◌else◌,
}
use tinder_like_back.Geo.{FloatOps}
use tinder_like_back.Models.{Text, Swipe}
use tinder_like_back.Errors.{Stage, Result, ok, err}
use tinder_like_back.Database.{Db, Env, resume, ◌>>◌, control, roll_back}
use tinder_like_back.Repository.Ribbon.{has_swipe, insert_swipe, pair_allowed}
use tinder_like_back.Repository.Ribbon.Likes.{NoFaults}
use tinder_like_back.Repository.Discovery.{preferences_allowed}
use tinder_like_back.Seed.{demo_preferences, put_demo, id_of, load_demo, load_body, load}
use tinder_like_back.Seed.People.{Account, accounts, demo_email, alina_email}
use tinder_like_back.Seed.Loop.{Listed, Loads, Known-unique, load_accounts-Loads}
use tinder_like_back.Seed.Complete.{
  IsComplete, Completed, has_preferences, same_users, load-Completed,
}
use tinder_like_back.Seed.Again.{SameRows, Present, users-put, Kept, Reloads, load_accounts-Reloads}

-- The last statements, over rows that are there.
abbrev pub Repeats : Db → Result (Unit {0}) × Db → Type 0
Repeats db (err e, after) = ⊥
Repeats db (ok u, after) = SameRows db after

prefers :
    (env : Env) (a d : ℕ) (db : Db)
    → pair_allowed a d db ≡ true
    → preferences_allowed (demo_preferences env d) db ≡ true
unfolding pair_allowed preferences_allowed
prefers env a d db h = ground arith

no_new_like :
    (a d : ℕ) (db middle : Db)
    → middle.swipes ≡ db.swipes
    → has_swipe db a d ≡ true
    → (x : List Swipe) → (if has_swipe middle a d then middle.swipes else x) ≡ db.swipes
unfolding has_swipe
no_new_like a d db middle e h x = ground arith

swipe_kept :
    (a d : ℕ) (db after : Db)
    → after.swipes ≡ db.swipes
    → has_swipe db a d ≡ true
    → has_swipe after a d ≡ true
unfolding has_swipe
swipe_kept a d db after e h = rw e h

module _ (env : Env) (sound : NoFaults env) where
  demo_again :
      (ids : List (Text × ℕ)) (a d : ℕ) (db : Db)
      → id_of alina_email ids ≡ a
      → id_of demo_email ids ≡ d
      → has_preferences db d ≡ true
      → has_swipe db a d ≡ true
      → pair_allowed a d db ≡ true
      → Repeats db (load_demo env ids db)
  unfolding load_demo insert_swipe
  demo_again ids a d db ea ed f s p =
      let middle : Db = record db {
        preferences = put_demo (demo_preferences env d) db.preferences;
      } in
      rw
        (
          ea,
          ed,
          sound Stage.seed_preferences,
          prefers env a d db p,
          sound Stage.seed_like,
          same_users a d db middle refl ∙ p,
        )
        (
          refl,
          refl,
          users-put (demo_preferences env d) db.preferences f,
          no_new_like a d db middle refl s _,
        )

  kept_if_repeats :
      (mid : Db) (r : Result (Unit {0}) × Db) → Repeats mid r → Repeats mid (roll_back mid r)
  kept_if_repeats mid (ok u, after) h = h
  kept_if_repeats mid (err e, after) h = absurd h

  finish :
      (mid db : Db) (r : Result (Unit {0}) × Db)
      → Kept mid db
      → Repeats db r
      → Repeats mid (resume (λ u. control env Stage.commit_seed) r)
  finish mid db (err e, after) k h = absurd h
  finish mid db (ok u, after) (us, os, ps, ss) (us', os', ps', ss') =
      rw (sound Stage.commit_seed)
        (us' ∙ us, os' ∙ os, ps' ∙ ap (map (λ f. f.user_id)) ps, ss' ∙ ss)

  accounts_again :
      (fl : FloatOps) (mid : Db) (r : Result (List (Text × ℕ)) × Db)
      → IsComplete fl env.lower mid
      → Reloads mid r
      → Loads fl env.lower mid [] (accounts fl) r
      → Repeats mid (resume (λ ids. load_demo env ids >> control env Stage.commit_seed) r)
  accounts_again fl mid (err e, db) c k l = absurd k
  accounts_again fl mid (ok ids, db) c (us, os, ps, ss) (mono, more, found, all) =
      let a = id_of alina_email c.ids in
      let d = id_of demo_email c.ids in
      finish mid db _ (us, os, ps, ss)
        (demo_again ids a d db
          (Known-unique env.lower db alina_email _ a all.1.0.0 (mono alina_email a c.listed.1.0.0))
          (Known-unique env.lower db demo_email _ d all.0.0 (mono demo_email d c.listed.0.0))
          (rw ps c.preferred) (swipe_kept a d mid db ss c.liked)
          (same_users a d mid db us ∙ c.paired))

  Listed-Present :
      (fl : FloatOps) (mid : Db) (ids : List (Text × ℕ)) (account : Account)
      → Listed fl env.lower mid ids account
      → Present fl env.lower mid account
  Listed-Present fl mid ids account (known, own, fits) = (id_of account.email ids, known, own, fits)

  load_again :
      (fl : FloatOps) (password_hash : Text) (mid : Db)
      → IsComplete fl env.lower mid
      → Repeats mid (load fl env (some password_hash) mid)
  unfolding load load_body
  load_again fl password_hash mid c = rw (sound Stage.begin_seed) (
      kept_if_repeats mid _ (
        accounts_again fl mid _ c
          (load_accounts-Reloads fl env password_hash sound (accounts fl) [] mid (
            All-mono (Listed fl env.lower mid c.ids) (Present fl env.lower mid) (accounts fl)
              (λ a h. Listed-Present fl mid c.ids a h) c.listed))
          (load_accounts-Loads fl env password_hash (accounts fl) [] mid)))

-- After a Load that succeeded, a Load whose statements do not fail also succeeds, whatever the clock
-- and the hash are, and adds no rows: the accounts and the likes are the same, with the same ids and
-- hashes, and the profiles and the preferences belong to the same accounts as before. lower() is the
-- same function both times.
pub load-Repeats :
    (fl : FloatOps) (first later : Env) (hash new_hash : Text) (db mid : Db)
    → load fl first (some hash) db ≡ (ok tt, mid)
    → NoFaults later
    → later.lower ≡ first.lower
    → Repeats mid (load fl later (some new_hash) mid)
load-Repeats fl first later hash new_hash db mid done sound same =
    load_again later sound fl new_hash mid (
      subst (λ lower. IsComplete fl lower mid) (sym same)
        (subst (Completed fl first.lower) done (load-Completed fl first hash db)))

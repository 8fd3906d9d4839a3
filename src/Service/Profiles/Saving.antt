-- ===== src/Service/Profiles/Saving.antt =====
-- What Save and Deactivate leave in the table.
use tinder_like_back.Base.{
  Bool-cases, inl, inr, ℕ, suc, ◌≡◌, refl, true, false, not, ◌==◌, Option, none, some, List, [],
  ◌∷◌, find?, filter, any, map, arith,
}
use tinder_like_back.Geo.{FloatOps}
use tinder_like_back.Models.{Profile}
use tinder_like_back.Errors.{Stage, Result, ok, err}
use tinder_like_back.Database.{Db, Env}
use tinder_like_back.Repository.Profiles.{
  profile_of, stored_profile, put_profile, is_shown_profile, hide_profile, deactivate_profile,
}
use tinder_like_back.Service.Profiles.{profile_repository, get, deactivate}

-- The profiles of other users.
abbrev pub other_profiles : ℕ → List Profile → List Profile
other_profiles user = filter (λ p. not (p.user_id == user))

-- The row of the user is there, with what Upsert sets.
abbrev pub Keeps : Env → Profile → Option Profile → Type 0
Keeps env p none = ⊥
Keeps env p (some q) = q ≡ stored_profile env q.id q.created_at p

find-put_profile :
    (env : Env) (next : ℕ) (p : Profile) (qs : List Profile)
    → Keeps env p (find? (λ q. q.user_id == p.user_id) (put_profile env next p qs))
unfolding put_profile
find-put_profile env next p [] = ground arith
find-put_profile env next p (q ∷ qs) = ground (arith, find-put_profile env next p qs)

abbrev pub with_profile : Env → Profile → Db → Db
with_profile env p db = record db {
  profiles = put_profile env db.next_profile_id p db.profiles;
  next_profile_id = suc db.next_profile_id;
}

pub with_profile-Keeps :
    (env : Env) (p : Profile) (db : Db) → Keeps env p (profile_of (with_profile env p db) p.user_id)
unfolding profile_of
with_profile-Keeps env p db = find-put_profile env db.next_profile_id p db.profiles

abbrev pub SavedAs : FloatOps → Env → ℕ → Profile → Db → Result Profile × Db → Type 0
SavedAs fl env user p db (err e, after) = ⊥
SavedAs fl env user p db (ok q, after) =
    (q ≡ stored_profile env q.id q.created_at p)
    × (get fl (profile_repository fl env) user after ≡ (ok q, after))
    × (other_profiles user after.profiles ≡ other_profiles user db.profiles)

-- A profile that is hidden.
abbrev pub Hides : ℕ → Db → Result (Unit {0}) × Db → Type 0
Hides user db (err e, after) = after.profiles ≡ db.profiles
Hides user db (ok u, after) =
    (any (is_shown_profile user) db.profiles ≡ true)
    × (any (is_shown_profile user) after.profiles ≡ false)
    × (other_profiles user after.profiles ≡ other_profiles user db.profiles)

none_shown :
    (env : Env) (user : ℕ) (ps : List Profile)
    → any (is_shown_profile user) (map (hide_profile env user) ps) ≡ false
unfolding hide_profile
none_shown env user [] = refl
none_shown env user (p ∷ ps) = ground (arith, none_shown env user ps)

others_hidden :
    (env : Env) (user : ℕ) (ps : List Profile)
    → other_profiles user (map (hide_profile env user) ps) ≡ other_profiles user ps
unfolding hide_profile
others_hidden env user [] = refl
others_hidden env user (p ∷ ps) = ground (arith, others_hidden env user ps)

pub nothing_to_hide :
    (env : Env) (user : ℕ) (ps : List Profile)
    → any (is_shown_profile user) ps ≡ false
    → map (hide_profile env user) ps ≡ ps
unfolding hide_profile
nothing_to_hide env user [] h = refl
nothing_to_hide env user (p ∷ ps) h = ground (arith, nothing_to_hide env user ps)

-- Deactivate either fails and changes no profile, or the user had an active profile and has none
-- afterwards; the profiles of other users are as they were.
pub deactivate-Hides :
    (fl : FloatOps) (env : Env) (user : ℕ) (db : Db)
    → Hides user db (deactivate fl (profile_repository fl env) user db)
unfolding deactivate deactivate_profile
deactivate-Hides fl env user db = elim (Bool-cases (env.fails Stage.deactivate_profile)) [
  | inl fault ↦ rw fault refl
  | inr sound ↦ elim (Bool-cases (any (is_shown_profile user) db.profiles)) [
    | inl shown ↦
        rw (sound, shown)
          (shown, none_shown env user db.profiles, others_hidden env user db.profiles)
    | inr hidden ↦ rw (sound, hidden) (nothing_to_hide env user db.profiles hidden)
  ]
]

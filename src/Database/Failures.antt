-- ===== src/Database/Failures.antt =====
-- Actions that read only, and actions that leave the database as it was if they fail.
use tinder_like_back.Base.{◌≡◌, refl, ◌∙◌, Bool, ◌||◌, not, Bool-cases, inl, inr, ◌⊎◌}
use tinder_like_back.Errors.{Error, Stage, Result, ok, err}
use tinder_like_back.Database.Rows.{Db}
use tinder_like_back.Database.Actions.{Env, Action, pure, resume, ◌>>=◌, exec}

module _ {A : Type 0} where
  -- A failure comes with the database as it was.
  abbrev pub Fails : Db → Result A × Db → Type 0
  Fails db (err e, after) = after ≡ db
  Fails db (ok a, after) = Unit

  abbrev pub IsAtomic : Action A → Type 0
  IsAtomic act = (db : Db) → Fails db (act db)

  abbrev pub IsReader : Action A → Type 0
  IsReader act = (db : Db) → (act db).1 ≡ db

  pub reader-Fails : (db : Db) (r : Result A × Db) → r.1 ≡ db → Fails db r
  reader-Fails db (err e, after) h = h
  reader-Fails db (ok a, after) h = tt

  pub reader-IsAtomic : (act : Action A) → IsReader act → IsAtomic act
  reader-IsAtomic act h db = reader-Fails db _ (h db)

pub Result-cases :
    {A : Type 0} (r : Result A) → ((a : A) × (r ≡ ok a)) ⊎ ((e : Error) × (r ≡ err e))
Result-cases (ok a) = inl (a, refl)
Result-cases (err e) = inr (e, refl)

module _ {A B : Type 0} where
  pub resumed_reader :
      (k : A → Action B) (db : Db) (r : Result A × Db)
      → r.1 ≡ db
      → ((a : A) → IsReader (k a))
      → (resume k r).1 ≡ db
  resumed_reader k db (ok a, after) h g = g a after ∙ h
  resumed_reader k db (err e, after) h g = h

pub exec-IsAtomic :
    (env : Env) (stage : Stage) (allowed : Db → Bool) (write : Db → Db)
    → IsAtomic (exec env stage allowed write)
exec-IsAtomic env stage allowed write db = elim (Bool-cases (env.fails stage || not (allowed db))) [
  | inl bad ↦ rw bad refl
  | inr good ↦ rw good tt
]

module _ {A B : Type 0} (f : A → B) where
  mapped-Fails : (db : Db) (r : Result A × Db) → Fails db r → Fails db (resume (λ a. pure (f a)) r)
  mapped-Fails db (ok a, after) h = tt
  mapped-Fails db (err e, after) h = h

  pub map-IsAtomic : (m : Action A) → IsAtomic m → IsAtomic (m >>= λ a. pure (f a))
  map-IsAtomic m h db = mapped-Fails db (m db) (h db)

-- ===== src/Platform/Storage/Bucket.antt =====
-- The loop of ensureBucket, and New.
use tinder_like_back.Base.{
  ℕ, zero, suc, ◌≤◌, ◌<◌, ◌≡◌, refl, sym, ap, Bool, true, false, Option, none, some, is_some, arith,
}
use tinder_like_back.Models.{Text}
use tinder_like_back.Platform.Storage.{Minio, Failure, attempt, after_attempt, ensure_bucket}

module _ {S : Type 0} (minio : Minio S) (bucket : Text) where
  -- The state after so many passes.
  abbrev pub state_after : ℕ → S → S
  state_after zero s = s
  state_after (suc k) s = state_after k (attempt minio bucket s).1

  -- The failure of pass k, from 0.
  abbrev pub failure_of : ℕ → S → Option Failure
  failure_of k s = (attempt minio bucket (state_after k s)).0

  -- The passes before k fail, and the context is not done.
  abbrev pub Waits : (ℕ → Bool) → ℕ → S → Type 0
  Waits done k s = (i : ℕ) → i < k → (is_some (failure_of i s) ≡ true) × (done i ≡ false)

  abbrev pub Ends : (ℕ → Bool) → ℕ → S → Option (Option Failure × S) → Type 0
  Ends done n s none = ⊥
  Ends done n s (some (result, after)) =
      (k : ℕ) × (k ≤ n)
      × Waits done k s
      × (failure_of k s ≡ result)
      × (after ≡ state_after (suc k) s)
      × (is_some result ≡ true → done k ≡ true)

  one_more :
      (done : ℕ → Bool) (n : ℕ) (s : S) (r : Option (Option Failure × S))
      → is_some (failure_of 0 s) ≡ true
      → done 0 ≡ false
      → Ends (λ k. done (suc k)) n (attempt minio bucket s).1 r
      → Ends done (suc n) s r
  one_more done n s none f d e = e
  one_more done n s (some (result, after)) f d (k, bound, waits, now, state, stop) =
      (suc k, omega arith, earlier, now, state, stop)
    where
      earlier : Waits done (suc k) s
      earlier zero h = (f, d)
      earlier (suc i) h = waits i (omega arith)

  nothing_before : (done : ℕ → Bool) (s : S) → Waits done 0 s
  nothing_before done s i h = absurd (omega arith)

  after-Ends :
      (done : ℕ → Bool) (n : ℕ) (s : S) (stop : Bool) (a : Option Failure × S)
      (again : S → Option (Option Failure × S))
      → attempt minio bucket s ≡ a
      → done 0 ≡ stop
      → (stop ≡ false → is_some a.0 ≡ true → Ends done n s (again a.1))
      → Ends done n s (after_attempt minio bucket again stop a)
  after-Ends done n s stop (none, t) again e d r = (
    0,
    omega arith,
    nothing_before done s,
    ap (λ p. p.0) e,
    sym (ap (λ p. p.1) e),
    λ h. absurd cc,
  )
  after-Ends done n s true (some f, t) again e d r =
      (0, omega arith, nothing_before done s, ap (λ p. p.0) e, sym (ap (λ p. p.1) e), λ h. d)
  after-Ends done n s false (some f, t) again e d r = r refl refl

  -- If the context is done at pass n at the latest, ensureBucket returns after n + 1 passes at most.
  -- It returns at the first pass that finds or makes the bucket, or else at the first failed pass at
  -- which the context is done, with the error of that pass; so it succeeds if a pass does and the
  -- context is not done before.
  pub ensure_bucket-Ends :
      (done : ℕ → Bool) (n : ℕ) (s : S)
      → done n ≡ true
      → Ends done n s (ensure_bucket minio bucket done (suc n) s)
  unfolding ensure_bucket
  ensure_bucket-Ends done zero s h =
      after-Ends done 0 s (done 0) (attempt minio bucket s) _ refl refl (λ d f. absurd cc)
  ensure_bucket-Ends done (suc n) s h =
      after-Ends done (suc n) s (done 0) (attempt minio bucket s) _ refl refl
        (λ d f. one_more done n s _ f d (ensure_bucket-Ends (λ k. done (suc k)) n _ h))

-- ===== src/Events/Shutdown.antt =====
-- Start, worker and Close of go-core/internal/events/publisher.go: the workers as a pool that stops.
pub mod Drained
use tinder_like_back.Base.{
  ℕ, zero, suc, ◌+◌, ◌*◌, ◌≤◌, ◌<◌, ◌≡◌, refl, sym, ◌∙◌, ap, subst, Bool, true, false, ◌⊎◌, inl,
  inr, List, [], ◌∷◌, ◌++◌, length, length-append, Bool-cases, if◌then◌else◌, arith,
}
use tinder_like_back.Events.{Event, Publisher, new_publisher, publish}
use tinder_like_back.Events.Delivery.{count, count_all, middle-count}

-- A worker waits, holds an event of `in_flight`, or has returned (wg.Done). `cancelled` is that of the
-- context, and `closed` that of the channel.
pub record Pool : Type 0 where
  pub publisher : Publisher
  pub waiting : ℕ
  pub cancelled : Bool
  pub closed : Bool

-- Start(ctx, workers)
unfoldable pub start : ℕ → Publisher → Pool
start workers p = record { publisher = p; waiting = workers; cancelled = false; closed = false }

-- Close closes the channel, and then waits for the workers.
unfoldable pub close : Pool → Pool
close s = record s { closed = true }

-- A worker's step once the channel is closed. A select with both cases ready takes either.
pub data Step (s : Pool) : Pool → Type 0 where
  takes :
      (idle : ℕ) (ev : Event) (rest : List Event)
      → s.waiting ≡ suc idle
      → s.publisher.queue ≡ ev ∷ rest
      → Step s (record s {
        waiting = idle;
        publisher = record (s.publisher) { queue = rest; in_flight = ev ∷ s.publisher.in_flight };
      })
  sends :
      (before : List Event) (ev : Event) (others : List Event)
      → s.publisher.in_flight ≡ before ++ ev ∷ others
      → Step s (record s {
        waiting = suc s.waiting;
        publisher = record (s.publisher) {
          in_flight = before ++ others;
          sent = ev ∷ s.publisher.sent;
        };
      })
  loses :
      (before : List Event) (ev : Event) (others : List Event)
      → s.publisher.in_flight ≡ before ++ ev ∷ others
      → Step s (record s {
        waiting = suc s.waiting;
        publisher = record (s.publisher) {
          in_flight = before ++ others;
          dropped = ev ∷ s.publisher.dropped;
        };
      })
  -- case <-ctx.Done()
  leaves :
      (idle : ℕ) → s.waiting ≡ suc idle → s.cancelled ≡ true → Step s (record s { waiting = idle })
  -- `!ok`: the channel is closed and empty.
  finishes :
      (idle : ℕ)
      → s.waiting ≡ suc idle
      → s.closed ≡ true
      → s.publisher.queue ≡ []
      → Step s (record s { waiting = idle })

-- A run of so many steps, the last one first.
pub data Run (s : Pool) : ℕ → Pool → Type 0 where
  stay : Run s 0 s
  works : {n : ℕ} {t u : Pool} → Run s n t → Step t u → Run s (suc n) u
  -- The signal that ends the program cancels the context.
  cancels :
      {n : ℕ} {t : Pool}
      → Run s n t
      → t.cancelled ≡ false
      → Run s (suc n) (record t { cancelled = true })

-- Workers that have not returned.
unfoldable pub working : Pool → ℕ
working s = s.waiting + length s.publisher.in_flight

-- How many steps a closed pool can take.
unfoldable pub steps_left : Pool → ℕ
steps_left s =
    (if s.cancelled then 0 else 1)
    + (3 * length s.publisher.queue + (2 * length s.publisher.in_flight + s.waiting))

-- Unless the context is cancelled, there is a worker, or nothing is left to do.
abbrev pub IsServed : Pool → Type 0
IsServed s = (s.cancelled ≡ true) ⊎ ((0 < working s) ⊎ (s.publisher.queue ≡ []))

pub Step-steps_left : {s t : Pool} → Step s t → steps_left t < steps_left s
unfolding steps_left
Step-steps_left (takes idle ev rest e q) = rw (e, q) (omega arith)
Step-steps_left (sends before ev others e) =
    rw (e, length-append before (ev ∷ others), length-append before others) (omega arith)
Step-steps_left (loses before ev others e) =
    rw (e, length-append before (ev ∷ others), length-append before others) (omega arith)
Step-steps_left (leaves idle e c) = rw e (omega arith)
Step-steps_left (finishes idle e c q) = rw e (omega arith)

pub Step-IsServed : {s t : Pool} → Step s t → IsServed s → IsServed t
unfolding working
Step-IsServed (takes idle ev rest e q) v = inr (inl (omega arith))
Step-IsServed (sends before ev others e) v = inr (inl (omega arith))
Step-IsServed (loses before ev others e) v = inr (inl (omega arith))
Step-IsServed (leaves idle e c) v = inl c
Step-IsServed (finishes idle e c q) v = inr (inr q)

pub Step-closed : {s t : Pool} → Step s t → t.closed ≡ s.closed
Step-closed (takes idle ev rest e q) = refl
Step-closed (sends before ev others e) = refl
Step-closed (loses before ev others e) = refl
Step-closed (leaves idle e c) = refl
Step-closed (finishes idle e c q) = refl

pub Step-count :
    {s t : Pool} (test : Event → Bool)
    → Step s t
    → count_all test t.publisher ≡ count_all test s.publisher
unfolding count_all
Step-count test (takes idle ev rest e q) = rw q (ground arith)
Step-count test (sends before ev others e) =
    rw (e, middle-count test before ev others) (ground arith)
Step-count test (loses before ev others e) =
    rw (e, middle-count test before ev others) (ground arith)
Step-count test (leaves idle e c) = refl
Step-count test (finishes idle e c q) = refl

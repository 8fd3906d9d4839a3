-- ===== src/Events/Shutdown/Drained.antt =====
-- Close returns, and what it leaves behind.
use tinder_like_back.Base.{
  ℕ, zero, suc, ◌+◌, ◌≤◌, ◌<◌, ◌≡◌, refl, sym, ◌∙◌, Bool, true, false, ◌⊎◌, inl, inr, List, [], ◌∷◌,
  length, arith,
}
use tinder_like_back.Events.{Event}
use tinder_like_back.Events.Delivery.{count, count_all}
use tinder_like_back.Events.Shutdown.{
  Pool, close, Step, takes, sends, finishes, Run, stay, works, cancels, working, steps_left,
  IsServed, Step-steps_left, Step-IsServed, Step-closed, Step-count,
}

-- A worker that has not returned can go on.
progress_of :
    (s : Pool) (w : ℕ) (held queued : List Event)
    → s.closed ≡ true
    → s.waiting ≡ w
    → s.publisher.in_flight ≡ held
    → s.publisher.queue ≡ queued
    → (working s ≡ 0) ⊎ ((t : Pool) × Step s t)
unfolding working
progress_of s w (ev ∷ others) queued c e f q = inr (_, sends [] ev others f)
progress_of s zero [] queued c e f q = inl (rw (e, f) refl)
progress_of s (suc idle) [] [] c e f q = inr (_, finishes idle e c q)
progress_of s (suc idle) [] (ev ∷ rest) c e f q = inr (_, takes idle ev rest e q)

cancelled-steps_left :
    (t : Pool) → t.cancelled ≡ false → steps_left (record t { cancelled = true }) < steps_left t
unfolding steps_left
cancelled-steps_left t e = rw e (omega arith)

-- What holds all along a run of a closed pool.
abbrev pub Follows : Pool → ℕ → Pool → Type 0
Follows s n t =
    (t.closed ≡ true)
    × (n + steps_left t ≤ steps_left s)
    × IsServed t
    × ((test : Event → Bool) → count_all test t.publisher ≡ count_all test s.publisher)

Run-Follows : {s t : Pool} {n : ℕ} → s.closed ≡ true → IsServed s → Run s n t → Follows s n t
Run-Follows c v stay = (c, omega arith, v, (λ test. refl))
Run-Follows c v (works r step) =
    let (c', bound, v', kept) = Run-Follows c v r in
    (
      Step-closed step ∙ c',
      omega (arith, bound, Step-steps_left step),
      Step-IsServed step v',
      (λ test. Step-count test step ∙ kept test),
    )
Run-Follows c v (cancels {t = t} r e) =
    let (c', bound, v', kept) = Run-Follows c v r in
    (c', omega (arith, bound, cancelled-steps_left t e), inl refl, kept)

-- What holds at every point of a run: its length, that a worker which has not returned can be followed
-- by a step, where the events are, and what is left once the workers have returned.
abbrev pub Drained : Pool → ℕ → Pool → Type 0
Drained s n t =
    (n ≤ steps_left s)
    × ((working t ≡ 0) ⊎ ((u : Pool) × Step t u))
    × ((test : Event → Bool) → count_all test t.publisher ≡ count_all test s.publisher)
    × (working t ≡ 0
        → ((t.cancelled ≡ true) ⊎ (t.publisher.queue ≡ []))
          × ((test : Event → Bool)
              → (count test t.publisher.queue + count test t.publisher.sent)
                  + count test t.publisher.dropped
                ≡ count_all test s.publisher))

nothing_held :
    (t : Pool) → working t ≡ 0 → IsServed t → (t.cancelled ≡ true) ⊎ (t.publisher.queue ≡ [])
nothing_held t idle (inl c) = inl c
nothing_held t idle (inr (inl busy)) = absurd (omega arith)
nothing_held t idle (inr (inr empty)) = inr empty

held_none : (xs : List Event) → length xs ≡ 0 → xs ≡ []
held_none [] h = refl
held_none (x ∷ xs) h = absurd (omega arith)

count_idle :
    (test : Event → Bool) (t : Pool)
    → working t ≡ 0
    → count_all test t.publisher
      ≡ (count test t.publisher.queue + count test t.publisher.sent)
        + count test t.publisher.dropped
unfolding count_all working
count_idle test t idle = rw (held_none t.publisher.in_flight (omega arith)) (omega arith)

-- Once Close has closed the channel, the workers return whatever the order of their steps. Every run
-- of the pool from then on, complete or not, has at most 3 steps for each waiting event, 2 for each
-- event that a worker holds, and one for each waiting worker and for the cancellation of the context,
-- so none goes on for ever; at every point of it some worker can take a step, or all have returned,
-- so that Close returns; and no event is lost or doubled between the queue, the workers, the stream
-- and those dropped. When all have returned, each event is in the stream, dropped or still in the
-- queue, and the queue is empty unless the context was cancelled. When the channel is closed the
-- context is cancelled, or there is a worker, or nothing waits.
pub Run-Drained :
    (s : Pool) {t : Pool} {n : ℕ} → IsServed s → Run (close s) n t → Drained (close s) n t
unfolding close working
Run-Drained s {t = t} v r =
    let (c', bound, v', kept) = Run-Follows refl v r in
    (
      omega (arith, bound),
      progress_of t _ _ _ c' refl refl refl,
      kept,
      (λ idle. (nothing_held t idle v', (λ test. sym (count_idle test t idle) ∙ kept test))),
    )

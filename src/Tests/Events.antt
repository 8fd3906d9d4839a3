-- ===== src/Tests/Events.antt =====
-- The theorem on the end of the workers, applied.
use tinder_like_back.Base.{◌<◌, true, false, refl, inl, inr, [], ◌∷◌, arith}
use tinder_like_back.Events.{Event}
use tinder_like_back.Events.Shutdown.{
  Pool, close, takes, sends, finishes, Run, stay, works, working,
}
use tinder_like_back.Events.Shutdown.Drained.{Drained, Run-Drained}

abbrev pub swipe_event : Event
swipe_event = record { type = "swipe"; payload = [] }

-- One event waits for one worker.
abbrev pub loaded : Pool
loaded = record {
  publisher = record {
    buffer_size = 8;
    queue = swipe_event ∷ [];
    in_flight = [];
    sent = [];
    dropped = [];
  };
  waiting = 1;
  cancelled = false;
  closed = false;
}

-- The worker has sent it, and has returned.
abbrev pub emptied : Pool
emptied = record loaded {
  publisher = record (loaded.publisher) { queue = []; sent = swipe_event ∷ [] };
  waiting = 0;
  closed = true;
}

whole-Run : Run (close loaded) 3 emptied
unfolding close
whole-Run =
    works (works (works stay (takes 0 swipe_event [] refl refl)) (sends [] swipe_event [] refl))
      (finishes 0 refl refl refl)

busy : 0 < working loaded
unfolding working
busy = omega arith

Run-Drained_example : Drained (close loaded) 3 emptied
Run-Drained_example = Run-Drained loaded (inr (inl busy)) whole-Run

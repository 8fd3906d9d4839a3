-- ===== src/Events/Delivery.antt =====
-- The publisher with its workers as a step relation: a handler publishes, a worker takes the head
-- of the queue, and XADD takes the event or fails. A worker holds one event at a time.
use tinder_like_back.Base.{
  ℕ, suc, ◌+◌, ◌≤◌, ◌<◌, ◌≡◌, refl, sym, ◌∙◌, ap, Bool, List, [], ◌∷◌, ◌++◌, length, length-append,
  if◌then◌else◌, arith,
}
use tinder_like_back.Events.{Event, Publisher, new_publisher, publish}

-- A step, with the events that handlers publish in it.
pub data Step (workers : ℕ) (p : Publisher) : List Event → Publisher → Type 0 where
  publishes : (ev : Event) → Step workers p (ev ∷ []) (publish ev p)
  takes :
      (ev : Event) (rest : List Event)
      → p.queue ≡ ev ∷ rest
      → length p.in_flight < workers
      → Step workers p [] (record p { queue = rest; in_flight = ev ∷ p.in_flight })
  sends :
      (before : List Event) (ev : Event) (others : List Event)
      → p.in_flight ≡ before ++ ev ∷ others
      → Step workers p [] (record p { in_flight = before ++ others; sent = ev ∷ p.sent })
  loses :
      (before : List Event) (ev : Event) (others : List Event)
      → p.in_flight ≡ before ++ ev ∷ others
      → Step workers p [] (record p { in_flight = before ++ others; dropped = ev ∷ p.dropped })

-- Runs, with all that is published in them, the last first.
pub data Reach (workers size : ℕ) : List Event → Publisher → Type 0 where
  start : Reach workers size [] (new_publisher size)
  later :
      {old new : List Event} {p q : Publisher}
      → Reach workers size old p
      → Step workers p new q
      → Reach workers size (new ++ old) q

-- How many of the events pass a test.
abbrev pub count : (Event → Bool) → List Event → ℕ
count t [] = 0
count t (ev ∷ evs) = if t ev then suc (count t evs) else count t evs

count-append :
    (t : Event → Bool) (xs ys : List Event) → count t (xs ++ ys) ≡ count t xs + count t ys
count-append t [] ys = omega arith
count-append t (x ∷ xs) ys = ground (arith, count-append t xs ys)

-- Wherever they are: waiting, with a worker, in the stream or lost.
unfoldable pub count_all : (Event → Bool) → Publisher → ℕ
count_all t p = ((count t p.queue + count t p.in_flight) + count t p.sent) + count t p.dropped

abbrev pub IsBounded : ℕ → ℕ → Publisher → Type 0
IsBounded workers size p =
    (p.buffer_size ≡ size) × (length p.queue ≤ size) × (length p.in_flight ≤ workers)

publish-count :
    (t : Event → Bool) (ev : Event) (p : Publisher)
    → count_all t (publish ev p) ≡ count t (ev ∷ []) + count_all t p
unfolding count_all publish
publish-count t ev p =
    ground (arith, count-append t p.queue (ev ∷ []), count-append t p.dropped (ev ∷ []))

pub middle-count :
    (t : Event → Bool) (before : List Event) (ev : Event) (others : List Event)
    → count t (before ++ ev ∷ others) ≡ count t (ev ∷ []) + count t (before ++ others)
middle-count t before ev others =
    ground (arith, count-append t before (ev ∷ others), count-append t before others)

Step-count :
    {workers : ℕ} {new : List Event} {p q : Publisher} (t : Event → Bool)
    → Step workers p new q
    → count_all t q ≡ count t new + count_all t p
unfolding count_all
Step-count {p = p} t (publishes ev) = publish-count t ev p
Step-count t (takes ev rest e free) = rw e (ground arith)
Step-count t (sends before ev others e) = rw (e, middle-count t before ev others) (ground arith)
Step-count t (loses before ev others e) = rw (e, middle-count t before ev others) (ground arith)

publish-bounded :
    (size : ℕ) (ev : Event) (p : Publisher)
    → p.buffer_size ≡ size
    → length p.queue ≤ size
    → length ((publish ev p).queue) ≤ size
unfolding publish
publish-bounded size ev p e h = ground (arith, length-append p.queue (ev ∷ []))

publish-rest :
    (ev : Event) (p : Publisher)
    → ((publish ev p).buffer_size ≡ p.buffer_size) × ((publish ev p).in_flight ≡ p.in_flight)
unfolding publish
publish-rest ev p = (ground arith, ground arith)

Step-IsBounded :
    {workers size : ℕ} {new : List Event} {p q : Publisher}
    → IsBounded workers size p
    → Step workers p new q
    → IsBounded workers size q
Step-IsBounded {p = p} (b, h, f) (publishes ev) =
    ((publish-rest ev p).0 ∙ b, publish-bounded _ ev p b h, rw ((publish-rest ev p).1) f)
Step-IsBounded (b, h, f) (takes ev rest e free) = (b, omega (arith, ap length e), omega arith)
Step-IsBounded (b, h, f) (sends before ev others e) = (
  b,
  h,
  omega (arith, ap length e, length-append before (ev ∷ others), length-append before others),
)
Step-IsBounded (b, h, f) (loses before ev others e) = (
  b,
  h,
  omega (arith, ap length e, length-append before (ev ∷ others), length-append before others),
)

-- In every run of a new publisher, the queue never holds more than its buffer, no more events are
-- on their way than there are workers, and each published event, counted by any test, is in
-- exactly one place: the queue, a worker, the stream, or dropped.
pub Reach-accounted :
    {workers size : ℕ} {evs : List Event} {p : Publisher}
    → Reach workers size evs p
    → IsBounded workers size p × ((t : Event → Bool) → count_all t p ≡ count t evs)
unfolding count_all new_publisher
Reach-accounted start = ((refl, omega arith, omega arith), (λ t. refl))
Reach-accounted (later {old = old} {new = new} r s) =
    let (b, c) = Reach-accounted r in
    (
      Step-IsBounded b s,
      (λ t. Step-count t s ∙ ap (◌+◌ (count t new)) (c t) ∙ sym (count-append t new old)),
    )

-- ===== src/Events.antt =====
-- go-core/internal/events/publisher.go: the buffered queue of events and its workers.
pub mod Delivery
pub mod Shutdown
use Prim.Native.String.{String}
use text.Mathlib.Text.{◌==◌ as str_eq}
use tinder_like_back.Base.{
  ℕ, suc, ◌+◌, Bool, true, false, not, List, [], ◌∷◌, ◌++◌, length, ltb, if◌then◌else◌,
}

-- The values that a payload holds.
pub data Value : Type 0 where
  flag : Bool → Value
  number : ℕ → Value
  time : ℕ → Value
  name : String → Value

-- map[string]any
abbrev pub Payload : Type 0
Payload = List (String × Value)

-- payload[key] = value
unfoldable pub insert : String → Value → Payload → Payload
insert key value [] = (key, value) ∷ []
insert key value ((k, v) ∷ rest) =
    if str_eq k key then (key, value) ∷ rest else (k, v) ∷ insert key value rest

pub record Event : Type 0 where
  pub type : String
  pub payload : Payload

-- The queue holds what no worker has taken; `dropped` and `sent` record what became of the others.
pub record Publisher : Type 0 where
  pub buffer_size : ℕ
  pub queue : List Event
  pub in_flight : List Event
  pub sent : List Event
  pub dropped : List Event

unfoldable pub new_publisher : ℕ → Publisher
new_publisher size = record {
  buffer_size = size;
  queue = [];
  in_flight = [];
  sent = [];
  dropped = [];
}

-- Publish never waits: a full buffer drops the event.
unfoldable pub publish : Event → Publisher → Publisher
publish ev p =
    if ltb (length p.queue) p.buffer_size
    then record p { queue = p.queue ++ ev ∷ [] }
    else record p { dropped = p.dropped ++ ev ∷ [] }

-- The loop of `send` over the payload, into a map that has the type already.
unfoldable pub add_all : Payload → Payload → Payload
unfolding insert
add_all [] values = values
add_all ((k, v) ∷ rest) values = add_all rest (insert k v values)

-- The values that `send` hands to XADD.
unfoldable pub send_values : Event → Payload
unfolding add_all
send_values ev = add_all ev.payload (("type", name ev.type) ∷ [])

-- ===== src/Broker.antt =====
-- internal/broker/broker.go: publish and subscribe inside the process. A subscriber is a pointer, a
-- number here, into a heap of cells; a cell holds the subscriber's channel (what is buffered, the
-- size of the buffer, whether it is closed) and what its cancel function has captured (the session,
-- and whether the `sync.Once` has fired). Every method holds the broker's lock, so a run of the
-- program is a sequence of calls. A send on a closed channel and a second close panic: `none`.
mod Invariant
mod Registry
mod Delivery
mod Runs
mod Examples
use sr_code.Prelude.{
  ℕ, ◌+◌, String, Bool, true, false, Option, none, some, List, [], ◌∷◌, ◌++◌, map, ltb, nat_eq,
  nat_has_eq, string_has_eq, if◌then◌else◌, length, set,
}
use sr_code.Prelude.Dict.{lookup, insert, remove}
use mathlib.Core.Option

pub record Event : Type 0 where
  pub session_id : String
  pub type : String
  pub raw : String

-- The events of one session, or of all (`SubscribeAll`).
pub data Topic : Type 0 where
  one : String → Topic
  every : Topic

pub record Subscriber : Type 0 where
  pub topic : Topic
  pub capacity : ℕ
  pub buffer : List Event
  pub closed : Bool
  pub cancelled : Bool

pub record Broker : Type 0 where
  pub subs : List (String × List ℕ)
  pub all : List ℕ
  pub heap : List (ℕ × Subscriber)
  pub next : ℕ  -- the next pointer that is not in use

unfoldable pub new : Broker
new = record { subs = []; all = []; heap = []; next = 0 }

-- `b.subs[sessionID]`, where a missing key is an empty set
pub members : String → Broker → List ℕ
unfolding lookup
members sid b = Option.get_or (lookup sid b.subs) []

pub subscriber : Topic → ℕ → Subscriber
subscriber topic capacity = record {
  topic = topic;
  capacity = capacity;
  buffer = [];
  closed = false;
  cancelled = false;
}

unfoldable pub subscribe : String → Broker → Broker
unfolding insert subscriber
subscribe sid b = record b {
  subs = insert sid (b.next ∷ members sid b) b.subs;
  heap = insert b.next (subscriber (one sid) 64) b.heap;
  next = b.next + 1;
}

unfoldable pub subscribe_all : Broker → Broker
unfolding insert subscriber
subscribe_all b = record b {
  all = b.next ∷ b.all;
  heap = insert b.next (subscriber every 256) b.heap;
  next = b.next + 1;
}

unfoldable pub has_viewers : String → Broker → Bool
unfolding members
has_viewers sid b = ltb 0 (length (members sid b))

-- `select { case s.ch <- ev: default: }`
send : Event → Subscriber → Option Subscriber
send ev c =
    if c.closed
    then none
    else some
        (if ltb (length c.buffer) c.capacity then record c { buffer = c.buffer ++ ev ∷ [] } else c)

-- The loop over one set of subscribers.
send_each : Event → List ℕ → List (ℕ × Subscriber) → Option (List (ℕ × Subscriber))
unfolding lookup insert send
send_each ev [] h = some h
send_each ev (s ∷ ss) h = elim (lookup s h) [
  | none ↦ none
  | some c ↦ elim (send ev c) [ none ↦ none | some c' ↦ send_each ev ss (insert s c' h) ]
]

unfoldable pub publish : Event → Broker → Option Broker
unfolding members send_each
publish ev b = elim (send_each ev (members ev.session_id b) b.heap) [
  | none ↦ none
  | some h ↦ Option.map (λ h'. record b { heap = h' }) (send_each ev b.all h)
]

pub delete_pointer : ℕ → List ℕ → List ℕ
delete_pointer s [] = []
delete_pointer s (x ∷ xs) = let rest = delete_pointer s xs in if nat_eq x s then rest else x ∷ rest

pub is_empty : List ℕ → Bool
is_empty [] = true
is_empty (x ∷ xs) = false

-- What a cancel function does to the sets.
pub unregister : Topic → ℕ → Broker → Broker
unfolding lookup insert remove delete_pointer is_empty
unregister (one sid) s b = elim (lookup sid b.subs) [
  | none ↦ b
  | some set ↦ record b {
    subs =
        if is_empty (delete_pointer s set)
        then remove sid b.subs
        else insert sid (delete_pointer s set) b.subs;
  }
]
unregister every s b = record b { all = delete_pointer s b.all }

-- `once.Do`, then `close(sub.ch)`
unfoldable pub cancel : ℕ → Broker → Option Broker
unfolding unregister insert lookup
cancel s b = elim (lookup s b.heap) [
  | none ↦ some b
  | some c ↦
      if c.cancelled
      then some b
      else if c.closed
      then none
      else some (
          let b' = unregister c.topic s b in
          record b' { heap = insert s (record c { closed = true; cancelled = true }) b'.heap })
]

-- A consumer takes what is buffered first; an empty channel yields nothing.
take_first : List Event → Option Event × List Event
take_first [] = (none, [])
take_first (ev ∷ evs) = (some ev, evs)

unfoldable pub receive : ℕ → Broker → Option Event × Broker
unfolding lookup insert take_first
receive s b = elim (lookup s b.heap) [
  | none ↦ (none, b)
  | some c ↦
      let (got, left) = take_first c.buffer in
      (got, record b { heap = insert s (record c { buffer = left }) b.heap })
]

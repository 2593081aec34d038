-- ===== src/Broker/Delivery.antt =====
-- What one call of `Publish` puts into which channel.
use sr_code.Prelude.{
  ℕ, String, ◌≡◌, refl, sym, ◌∙◌, inl, inr, Bool, true, false, not, ◌&&◌, Option, none, some, List,
  [], ◌∷◌, ◌++◌, arith, ltb, ◌==◌, nat_has_eq, string_has_eq, if◌then◌else◌, Option-cases, length,
}
use sr_code.Prelude.Dict.{lookup, insert, lookup-insert}
use sr_code.Broker.{Event, Topic, one, every, Subscriber, Broker, members, send_each, publish}
use sr_code.Broker.Invariant.{listens, contains, Distinct, IsSound}

-- The subscriptions that an event concerns.
abbrev pub hears : Event → Topic → Bool
hears ev (one sid) = sid == ev.session_id
hears ev every = true

-- A slow consumer loses the event; the channel is not touched otherwise.
abbrev pub push : Event → Subscriber → Subscriber
push ev c =
    if ltb (length c.buffer) c.capacity then record c { buffer = c.buffer ++ ev ∷ [] } else c

-- One cell before and after the call.
abbrev pub delivered : Event → Option Subscriber → Option Subscriber
delivered ev none = none
delivered ev (some c) = some (if not c.closed && hears ev c.topic then push ev c else c)

abbrev reached : Event → Bool → Option Subscriber → Option Subscriber
reached ev hit none = none
reached ev hit (some c) = some (if hit then push ev c else c)

abbrev is_open : Option Subscriber → Bool
is_open none = false
is_open (some c) = not c.closed

-- A loop over open subscribers ends, and reaches each of them once.
send_each-reached :
    (ev : Event) (ss : List ℕ) (h : List (ℕ × Subscriber))
    → Distinct ss
    → ((s : ℕ) → contains s ss ≡ true → is_open (lookup s h) ≡ true)
    → (h' : List (ℕ × Subscriber)) × (send_each ev ss h ≡ some h')
      × ((s : ℕ) → lookup s h' ≡ reached ev (contains s ss) (lookup s h))
unfolding send_each contains
send_each-reached ev [] h d o = (h, refl, λ s. ground arith)
send_each-reached ev (x ∷ ss) h d o = elim (Option-cases (lookup x h)) [
  | inl e ↦ absurd (ground (arith, o x, e))
  | inr (c, e) ↦
      let c' : Subscriber = push ev c in
      let (h', ran, spec) =
        send_each-reached ev ss (insert x c' h) d.1
          (λ s m. ground (arith, lookup-insert x s c' h, o s, d.0)) in
      (h', ground (arith, e, o x, ran), λ s. ground (arith, spec s, lookup-insert x s c' h, d.0, e))
]

members-open :
    (b : Broker) (w : IsSound b) (sid : String) (s : ℕ)
    → contains s (members sid b) ≡ true
    → is_open (lookup s b.heap) ≡ true
unfolding listens
members-open b w sid s m = ground (arith, w.sessions sid s)

all-open :
    (b : Broker) (w : IsSound b) (ev : Event) (ss : List ℕ) (h : List (ℕ × Subscriber))
    → ((s : ℕ) → lookup s h ≡ reached ev (contains s ss) (lookup s b.heap))
    → (s : ℕ) → contains s b.all ≡ true
    → is_open (lookup s h) ≡ true
unfolding listens
all-open b w ev ss h spec s m = ground (arith, w.globals s, spec s)

pub publish-delivered :
    (ev : Event) (b : Broker)
    → IsSound b
    → (h : List (ℕ × Subscriber)) × (publish ev b ≡ some (record b { heap = h }))
      × ((s : ℕ) → lookup s h ≡ delivered ev (lookup s b.heap))
unfolding publish listens
publish-delivered ev b w =
    let (h, ran, spec) =
      send_each-reached ev (members ev.session_id b) b.heap (w.sessions_distinct ev.session_id)
        (members-open b w ev.session_id) in
    let (h', ran', spec') =
      send_each-reached ev b.all h w.globals_distinct
        (all-open b w ev (members ev.session_id b) h spec) in
    (
      h',
      ground (arith, ran, ran'),
      λ s. ground (arith, spec s, spec' s, w.sessions ev.session_id s, w.globals s),
    )

listens-delivered :
    (ev : Event) (t : Topic) (s : ℕ) (h h' : List (ℕ × Subscriber))
    → lookup s h' ≡ delivered ev (lookup s h)
    → listens t s h' ≡ listens t s h
unfolding listens
listens-delivered ev t s h h' e = ground arith

-- In every sound state a call of `Publish` returns (no send hits a closed channel), and its whole
-- effect is this: every open subscriber of the event's session and every open global subscriber has
-- the event at the end of its buffer, unless the buffer was full; no other channel, and no
-- subscription, is touched; and the state is sound again.
pub publish-IsSound :
    (ev : Event) (b : Broker)
    → IsSound b
    → (b' : Broker) × (publish ev b ≡ some b')
      × ((s : ℕ) → lookup s b'.heap ≡ delivered ev (lookup s b.heap))
      × (b'.subs ≡ b.subs)
      × (b'.all ≡ b.all)
      × IsSound b'
unfolding members
publish-IsSound ev b w =
    let (h, ran, spec) = publish-delivered ev b w in
    (
      record b { heap = h },
      ran,
      spec,
      refl,
      refl,
      record {
        sessions =
            λ sid s. w.sessions sid s ∙ sym (listens-delivered ev (one sid) s b.heap h (spec s));
        globals = λ s. w.globals s ∙ sym (listens-delivered ev every s b.heap h (spec s));
        sessions_distinct = w.sessions_distinct;
        globals_distinct = w.globals_distinct;
        no_empty_set = w.no_empty_set;
        allocated = λ s c e. elim (Option-cases (lookup s b.heap)) [
          | inl n ↦ ground (arith, spec s, n)
          | inr (x, f) ↦ w.allocated s x f
        ];
        once = λ s c e. elim (Option-cases (lookup s b.heap)) [
          | inl n ↦ ground (arith, spec s, n)
          | inr (x, f) ↦ ground (arith, spec s, f, w.once s x f)
        ];
      },
    )

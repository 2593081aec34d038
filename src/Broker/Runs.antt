-- ===== src/Broker/Runs.antt =====
-- The broker over any sequence of calls.
use sr_code.Prelude.{
  ℕ, String, ◌≡◌, refl, ◌↔◌, inl, inr, true, Option, none, some, List, [], ◌∷◌, arith, nat_has_eq,
  string_has_eq, Option-cases,
}
use sr_code.Prelude.Dict.{lookup, insert, lookup-insert}
use mathlib.Core.Logic.{∥∥₁_elim}
use mathlib.Core.Path.{subst}
use mathlib.Core.Bool.{Bool-set}
use sr_code.Broker.{
  Event, one, Subscriber, Broker, new, members, subscribe, subscribe_all, has_viewers, publish,
  cancel, take_first, receive,
}
use sr_code.Broker.Invariant.{listens, contains, IsSound, new-IsSound}
use sr_code.Broker.Registry.{subscribe-IsSound, subscribe_all-IsSound, cancel-IsSound}
use sr_code.Broker.Delivery.{publish-IsSound}

pub data Call : Type 0 where
  subscribes : String → Call
  subscribes_all : Call
  cancels : ℕ → Call
  publishes : Event → Call
  receives : ℕ → Call

unfoldable pub step : Call → Broker → Option Broker
step (subscribes sid) b = some (subscribe sid b)
step subscribes_all b = some (subscribe_all b)
step (cancels s) b = cancel s b
step (publishes ev) b = publish ev b
step (receives s) b = some (receive s b).1

-- `none` where a call panics
unfoldable pub run : List Call → Broker → Option Broker
unfolding step
run [] b = some b
run (c ∷ cs) b = elim (step c b) [ none ↦ none | some b' ↦ run cs b' ]

-- A consumer's read is no news to the registry.
receive-IsSound : (s : ℕ) (b : Broker) → IsSound b → IsSound (receive s b).1
unfolding receive members listens
receive-IsSound s b w = elim (Option-cases (lookup s b.heap)) [
  | inl e ↦ rw (e, receive) w
  | inr (c, e) ↦ rw (e, receive) (taken c e)
]
  where
    taken :
        (c : Subscriber)
        → lookup s b.heap ≡ some c
        → IsSound
            (record b { heap = insert s (record c { buffer = (take_first c.buffer).1 }) b.heap })
    taken c e = record {
      sessions = λ sid s'. ground (
        arith,
        lookup-insert s s' (record c { buffer = (take_first c.buffer).1 }) b.heap,
        w.sessions sid s',
      );
      globals = λ s'. ground (
        arith,
        lookup-insert s s' (record c { buffer = (take_first c.buffer).1 }) b.heap,
        w.globals s',
      );
      sessions_distinct = w.sessions_distinct;
      globals_distinct = w.globals_distinct;
      no_empty_set = w.no_empty_set;
      allocated = λ s' c' f. ground (
        arith,
        lookup-insert s s' (record c { buffer = (take_first c.buffer).1 }) b.heap,
        w.allocated s' c',
        w.allocated s c,
      );
      once = λ s' c' f. ground (
        arith,
        lookup-insert s s' (record c { buffer = (take_first c.buffer).1 }) b.heap,
        w.once s' c',
        w.once s c,
      );
    }

step-IsSound :
    (c : Call) (b : Broker) → IsSound b → (b' : Broker) × (step c b ≡ some b') × IsSound b'
unfolding step
step-IsSound (subscribes sid) b w = (subscribe sid b, refl, subscribe-IsSound sid b w)
step-IsSound subscribes_all b w = (subscribe_all b, refl, subscribe_all-IsSound b w)
step-IsSound (cancels s) b w = cancel-IsSound s b w
step-IsSound (publishes ev) b w =
    let (b', ran, spec, same_subs, same_all, sound) = publish-IsSound ev b w in (b', ran, sound)
step-IsSound (receives s) b w = ((receive s b).1, refl, receive-IsSound s b w)

run-IsSound :
    (cs : List Call) (b : Broker) → IsSound b → (b' : Broker) × (run cs b ≡ some b') × IsSound b'
unfolding run
run-IsSound [] b w = (b, refl, w)
run-IsSound (c ∷ cs) b w =
    let (b', ran, sound) = step-IsSound c b w in
    let (b'', rest, sound') = run-IsSound cs b' sound in (b'', rw (ran, run) rest, sound')

-- From a new broker no sequence of calls panics: no event is sent on a closed channel and no channel
-- is closed twice, though cancel functions may be called at any time and any number of times; and
-- the state that it leaves is sound.
pub run_never_panics : (cs : List Call) → (b : Broker) × (run cs new ≡ some b) × IsSound b
run_never_panics cs = run-IsSound cs new new-IsSound

pub run-new-IsSound : (cs : List Call) (b : Broker) → run cs new ≡ some b → IsSound b
run-new-IsSound cs b e =
    let (b', ran, sound) = run_never_panics cs in
    let same : b' ≡ b = cc (ran, e) in subst IsSound same sound

viewer_of :
    (b : Broker) (sid : String) (xs : List ℕ)
    → members sid b ≡ xs
    → IsSound b
    → has_viewers sid b ≡ true
    → (s : ℕ) × (listens (one sid) s b.heap ≡ true)
unfolding has_viewers contains
viewer_of b sid [] e w h = ground arith
viewer_of b sid (x ∷ xs) e w h = (x, ground (arith, w.sessions sid x))

viewers_of :
    (b : Broker) (sid : String) (xs : List ℕ) (s : ℕ)
    → members sid b ≡ xs
    → IsSound b
    → listens (one sid) s b.heap ≡ true
    → has_viewers sid b ≡ true
unfolding has_viewers contains
viewers_of b sid [] s e w h = ground (arith, w.sessions sid s)
viewers_of b sid (x ∷ xs) s e w h = ground arith

-- After any sequence of calls a session has viewers exactly if some subscription to that session is
-- open; subscriptions to all sessions do not count.
pub has_viewers-run :
    (cs : List Call) (b : Broker) (sid : String)
    → run cs new ≡ some b
    → (has_viewers sid b ≡ true) ↔ ∥ ((s : ℕ) × (listens (one sid) s b.heap ≡ true)) ∥₁
has_viewers-run cs b sid e =
    let w = run-new-IsSound cs b e in
    (
      λ h. ∣ viewer_of b sid (members sid b) refl w h ∣₁,
      λ t. ∥∥₁_elim t (Bool-set _ _) (λ p. viewers_of b sid (members sid b) p.0 refl w p.1),
    )

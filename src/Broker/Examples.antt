-- ===== src/Broker/Examples.antt =====
-- Two browsers on one session and the push dispatcher on all.
use sr_code.Prelude.{ℕ, ◌≡◌, refl, true, false, some, List, [], ◌∷◌, nat_has_eq, string_has_eq}
use sr_code.Prelude.Dict.{lookup}
use sr_code.Broker.{
  Event, one, every, Broker, new, subscribe, subscribe_all, publish, cancel, receive,
}
use sr_code.Broker.Invariant.{IsSound}
use sr_code.Broker.Delivery.{delivered, publish-IsSound}
use sr_code.Broker.Runs.{
  Call, subscribes, subscribes_all, cancels, publishes, receives, run, run_never_panics,
  run-new-IsSound,
}

abbrev hello : Event
hello = record { session_id = "s"; type = "part"; raw = "{}" }

abbrev calls : List Call
calls =
    subscribes "s"
    ∷ subscribes "t"
    ∷ subscribes_all
    ∷ publishes hello
    ∷ cancels 1
    ∷ cancels 1
    ∷ publishes hello
    ∷ receives 0
    ∷ []

abbrev after_calls : Broker
after_calls = record {
  subs = ("s", 0 ∷ []) ∷ [];
  all = 2 ∷ [];
  heap =
      (
        0,
        record {
          topic = one "s";
          capacity = 64;
          buffer = hello ∷ [];
          closed = false;
          cancelled = false;
        },
      )
      ∷ (1, record { topic = one "t"; capacity = 64; buffer = []; closed = true; cancelled = true })
      ∷ (
        2,
        record {
          topic = every;
          capacity = 256;
          buffer = hello ∷ hello ∷ [];
          closed = false;
          cancelled = false;
        },
      )
      ∷ [];
  next = 3;
}

run-calls : run calls new ≡ some after_calls
unfolding run new subscribe subscribe_all cancel publish receive
run-calls = refl

run_never_panics_example : (b : Broker) × (run calls new ≡ some b) × IsSound b
run_never_panics_example = run_never_panics calls

publish-IsSound_example :
    (b' : Broker) × (publish hello after_calls ≡ some b')
    × ((s : ℕ) → lookup s b'.heap ≡ delivered hello (lookup s after_calls.heap))
    × (b'.subs ≡ after_calls.subs)
    × (b'.all ≡ after_calls.all)
    × IsSound b'
publish-IsSound_example =
    publish-IsSound hello after_calls (run-new-IsSound calls after_calls run-calls)

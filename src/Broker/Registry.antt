-- ===== src/Broker/Registry.antt =====
-- Subscribing and cancelling keep the invariant.
use sr_code.Prelude.{
  ℕ, String, ◌≡◌, refl, ◌≢◌, inl, inr, true, false, some, List, [], ◌∷◌, arith, eq_iff, ◌==◌,
  nat_has_eq, string_has_eq, if◌then◌else◌, Bool-cases, Option-cases,
}
use sr_code.Prelude.Dict.{lookup, insert, lookup-insert, lookup-remove}
use sr_code.Broker.{
  Topic, one, every, Subscriber, Broker, members, subscriber, subscribe, subscribe_all,
  delete_pointer, unregister, cancel,
}
use sr_code.Broker.Invariant.{
  listens, contains, Distinct, IsSound, contains-delete_pointer, delete_pointer-Distinct, unused,
}

pub subscribe-IsSound : (sid : String) (b : Broker) → IsSound b → IsSound (subscribe sid b)
unfolding subscribe members listens contains
subscribe-IsSound sid b w = record {
  sessions = λ sid' s. ground (
    arith,
    lookup-insert sid sid' (b.next ∷ members sid b) b.subs,
    lookup-insert b.next s (subscriber (one sid) 64) b.heap,
    w.sessions sid' s,
    w.sessions sid s,
    unused b w b.next,
    eq_iff sid sid',
  );
  globals = λ s. ground (
    arith,
    lookup-insert b.next s (subscriber (one sid) 64) b.heap,
    w.globals s,
    unused b w b.next,
  );
  sessions_distinct = λ sid'. ground (
    arith,
    lookup-insert sid sid' (b.next ∷ members sid b) b.subs,
    w.sessions sid b.next,
    w.sessions_distinct sid,
    w.sessions_distinct sid',
    unused b w b.next,
  );
  globals_distinct = w.globals_distinct;
  no_empty_set = λ sid' e.
      ground (arith, lookup-insert sid sid' (b.next ∷ members sid b) b.subs, w.no_empty_set sid');
  allocated = λ s c e.
      ground (arith, lookup-insert b.next s (subscriber (one sid) 64) b.heap, w.allocated s c);
  once =
      λ s c e. ground (arith, lookup-insert b.next s (subscriber (one sid) 64) b.heap, w.once s c);
}

pub subscribe_all-IsSound : (b : Broker) → IsSound b → IsSound (subscribe_all b)
unfolding subscribe_all members listens contains
subscribe_all-IsSound b w = record {
  sessions = λ sid' s. ground (
    arith,
    lookup-insert b.next s (subscriber every 256) b.heap,
    w.sessions sid' s,
    unused b w b.next,
  );
  globals = λ s.
      ground (
        arith,
        lookup-insert b.next s (subscriber every 256) b.heap,
        w.globals s,
        unused b w b.next,
      );
  sessions_distinct = w.sessions_distinct;
  globals_distinct = ground (arith, w.globals b.next, w.globals_distinct, unused b w b.next);
  no_empty_set = w.no_empty_set;
  allocated = λ s c e.
      ground (arith, lookup-insert b.next s (subscriber every 256) b.heap, w.allocated s c);
  once = λ s c e. ground (arith, lookup-insert b.next s (subscriber every 256) b.heap, w.once s c);
}

-- The cell of a subscriber whose cancel function has run.
abbrev shut : Subscriber → Subscriber
shut c = record c { closed = true; cancelled = true }

-- The broker that the first call of a cancel function leaves.
abbrev cancelled : Topic → ℕ → Subscriber → Broker → Broker
cancelled t s c b = let b' = unregister t s b in record b' { heap = insert s (shut c) b'.heap }

members-unregister :
    (sid sid' : String) (s : ℕ) (b : Broker)
    → members sid' (unregister (one sid) s b)
      ≡ (if sid == sid' then delete_pointer s (members sid b) else members sid' b)
unfolding members unregister
members-unregister sid sid' s b = ground (
  arith,
  lookup-insert sid sid' (delete_pointer s (members sid b)) b.subs,
  lookup-remove sid sid' b.subs,
  eq_iff sid sid',
)

no_empty-unregister :
    (sid sid' : String) (s : ℕ) (b : Broker)
    → lookup sid' b.subs ≢ some []
    → lookup sid' (unregister (one sid) s b).subs ≢ some []
unfolding members unregister
no_empty-unregister sid sid' s b h e = ground (
  arith,
  lookup-insert sid sid' (delete_pointer s (members sid b)) b.subs,
  lookup-remove sid sid' b.subs,
  eq_iff sid sid',
)

unregister_rest :
    (sid : String) (s : ℕ) (b : Broker)
    → ((unregister (one sid) s b).heap ≡ b.heap)
      × ((unregister (one sid) s b).all ≡ b.all)
      × ((unregister (one sid) s b).next ≡ b.next)
unfolding unregister
unregister_rest sid s b = ground arith

members_heap :
    (sid : String) (b : Broker) (h : List (ℕ × Subscriber))
    → members sid (record b { heap = h }) ≡ members sid b
unfolding members
members_heap sid b h = refl

members-Distinct :
    (sid sid' : String) (s : ℕ) (b : Broker)
    → IsSound b
    → Distinct (members sid' (unregister (one sid) s b))
members-Distinct sid sid' s b w =
    rw (members-unregister sid sid' s b) (elim (Bool-cases (sid == sid')) [
      | inl same ↦ rw same (delete_pointer-Distinct s (members sid b) (w.sessions_distinct sid))
      | inr different ↦ rw different (w.sessions_distinct sid')
    ])

module _ (s : ℕ) (c : Subscriber) (b : Broker) (w : IsSound b) (found : lookup s b.heap ≡ some c)
    (is_open : c.closed ≡ false) where
  cancelled_one-IsSound : (sid : String) → c.topic ≡ one sid → IsSound (cancelled (one sid) s c b)
  unfolding listens members
  cancelled_one-IsSound sid t = record {
    sessions = λ sid' s'. ground (
      arith,
      members_heap sid' (unregister (one sid) s b)
          (insert s (shut c) (unregister (one sid) s b).heap),
      unregister_rest sid s b,
      members-unregister sid sid' s b,
      contains-delete_pointer s s' (members sid b),
      lookup-insert s s' (shut c) b.heap,
      w.sessions sid' s',
      w.sessions sid s',
      eq_iff sid sid',
    );
    globals = λ s'.
        ground (arith, unregister_rest sid s b, lookup-insert s s' (shut c) b.heap, w.globals s');
    sessions_distinct = λ sid'. members-Distinct sid sid' s b w;
    globals_distinct = ground (arith, unregister_rest sid s b, w.globals_distinct);
    no_empty_set = λ sid'. no_empty-unregister sid sid' s b (w.no_empty_set sid');
    allocated = λ s' c' e. ground (
      arith,
      unregister_rest sid s b,
      lookup-insert s s' (shut c) b.heap,
      w.allocated s' c',
      w.allocated s c,
    );
    once = λ s' c' e.
        ground (arith, unregister_rest sid s b, lookup-insert s s' (shut c) b.heap, w.once s' c');
  }

  cancelled_every-IsSound : c.topic ≡ every → IsSound (cancelled every s c b)
  unfolding listens members unregister
  cancelled_every-IsSound t = record {
    sessions = λ sid s'. ground (arith, lookup-insert s s' (shut c) b.heap, w.sessions sid s');
    globals = λ s'. ground (
      arith,
      contains-delete_pointer s s' b.all,
      lookup-insert s s' (shut c) b.heap,
      w.globals s',
    );
    sessions_distinct = w.sessions_distinct;
    globals_distinct = delete_pointer-Distinct s b.all w.globals_distinct;
    no_empty_set = w.no_empty_set;
    allocated = λ s' c' e.
        ground (arith, lookup-insert s s' (shut c) b.heap, w.allocated s' c', w.allocated s c);
    once = λ s' c' e. ground (arith, lookup-insert s s' (shut c) b.heap, w.once s' c');
  }

  cancelled-IsSound : (t : Topic) → c.topic ≡ t → IsSound (cancelled t s c b)
  cancelled-IsSound (one sid) e = cancelled_one-IsSound sid e
  cancelled-IsSound every e = cancelled_every-IsSound e

-- A cancel function never closes a channel twice: whatever the pointer and however often it has been
-- called before, the call returns, and it keeps the invariant.
pub cancel-IsSound :
    (s : ℕ) (b : Broker) → IsSound b → (b' : Broker) × (cancel s b ≡ some b') × IsSound b'
unfolding cancel
cancel-IsSound s b w = elim (Option-cases (lookup s b.heap)) [
  | inl e ↦ (b, ground (arith, e), w)
  | inr (c, e) ↦ elim (Bool-cases c.closed) [
    | inl shut_before ↦ (b, ground (arith, e, w.once s c), w)
    | inr is_open ↦ (
      cancelled c.topic s c b,
      ground (arith, e, w.once s c),
      cancelled-IsSound s c b w e is_open c.topic refl,
    )
  ]
]

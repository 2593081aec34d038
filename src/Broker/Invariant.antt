-- ===== src/Broker/Invariant.antt =====
-- The sets of the broker hold exactly the subscribers that are open.
use sr_code.Prelude.{
  ℕ, ◌≤◌, ◌<◌, String, ◌≡◌, refl, ◌≢◌, inl, inr, Bool, true, false, not, ◌&&◌, ◌||◌, none, some,
  List, [], ◌∷◌, arith, nat_eq, ◌==◌, nat_has_eq, string_has_eq, if◌then◌else◌, Option-cases, set,
}
use sr_code.Prelude.Dict.{lookup, insert, lookup-insert}
use sr_code.Broker.{Topic, one, every, Subscriber, Broker, new, members, delete_pointer}

abbrev pub topic_eq : Topic → Topic → Bool
topic_eq (one a) (one b) = a == b
topic_eq every every = true
topic_eq _ _ = false

-- Whether the pointer is an open subscription to the topic.
unfoldable pub listens : Topic → ℕ → List (ℕ × Subscriber) → Bool
listens t s h = elim (lookup s h) [ none ↦ false | some c ↦ not c.closed && topic_eq c.topic t ]

unfoldable pub contains : ℕ → List ℕ → Bool
contains s [] = false
contains s (x ∷ xs) = nat_eq x s || contains s xs

abbrev pub Distinct : List ℕ → Type 0
Distinct [] = Unit
Distinct (x ∷ xs) = (contains x xs ≡ false) × Distinct xs

pub record IsSound (b : Broker) : Type 0 where
  pub sessions : (sid : String) (s : ℕ) → contains s (members sid b) ≡ listens (one sid) s b.heap
  pub globals : (s : ℕ) → contains s b.all ≡ listens every s b.heap
  pub sessions_distinct : (sid : String) → Distinct (members sid b)
  pub globals_distinct : Distinct b.all
  pub no_empty_set : (sid : String) → lookup sid b.subs ≢ some []
  pub allocated : (s : ℕ) (c : Subscriber) → lookup s b.heap ≡ some c → s < b.next
  pub once : (s : ℕ) (c : Subscriber) → lookup s b.heap ≡ some c → c.cancelled ≡ c.closed

pub new-IsSound : IsSound new
unfolding new members listens contains lookup
new-IsSound = record {
  sessions = λ sid s. refl;
  globals = λ s. refl;
  sessions_distinct = λ sid. tt;
  globals_distinct = tt;
  no_empty_set = λ sid e. cc;
  allocated = λ s c e. cc;
  once = λ s c e. cc;
}

pub contains-delete_pointer :
    (s t : ℕ) (xs : List ℕ) → contains t (delete_pointer s xs) ≡ (not (nat_eq s t) && contains t xs)
unfolding contains delete_pointer
contains-delete_pointer s t [] = ground arith
contains-delete_pointer s t (x ∷ xs) = ground (arith, contains-delete_pointer s t xs)

pub delete_pointer-Distinct : (s : ℕ) (xs : List ℕ) → Distinct xs → Distinct (delete_pointer s xs)
unfolding contains delete_pointer
delete_pointer-Distinct s [] d = tt
delete_pointer-Distinct s (x ∷ xs) d =
    ground (arith, delete_pointer-Distinct s xs d.1, contains-delete_pointer s x xs)

-- A pointer that is not in use is in no set.
pub unused : (b : Broker) → IsSound b → (s : ℕ) → b.next ≤ s → lookup s b.heap ≡ none
unused b w s h = elim (Option-cases (lookup s b.heap)) [
  | inl e ↦ e
  | inr (c, e) ↦ absurd (omega (arith, w.allocated s c e))
]

pub members-insert :
    (sid sid' : String) (set : List ℕ) (b : Broker)
    → members sid' (record b { subs = insert sid set b.subs })
      ≡ (if sid == sid' then set else members sid' b)
unfolding members
members-insert sid sid' set b = ground (arith, lookup-insert sid sid' set b.subs)

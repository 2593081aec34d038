-- ===== src/Claudestream/Capacity.antt =====
-- The bound on the number of children, and what it costs.
use sr_code.Prelude.{
  ℕ, ◌+◌, ◌≤◌, String, ◌≡◌, refl, ◌≢◌, ◌↔◌, inl, inr, Bool, true, false, none, some, List, [], ◌∷◌,
  arith, eq_iff, leb, ◌==◌, nat_has_eq, string_has_eq, Bool-cases, Option-cases, length,
}
use sr_code.Prelude.Dict.{
  lookup, insert, remove, lookup-insert, lookup-remove, length-remove, Unique, insert-Unique,
  remove-Unique,
}
use mathlib.Core.Path.{subst}
use sr_code.Claudestream.{Process}
use sr_code.Claudestream.Pool.{
  Manager, new_process, is_busy, pick_victim, all_busy, start, make_room, ensure,
}
use sr_code.Claudestream.Eviction.{pick_victim-IsIdle, pick_victim-none, pick_victim-le}

pub record IsBounded (m : Manager) : Type 0 where
  pub unique : Unique m.processes
  pub bound : length m.processes ≤ m.max_live
  pub positive : 1 ≤ m.max_live

length-remove_found :
    (id : String) (p : Process) (m : List (String × Process))
    → lookup id m ≡ some p
    → length (remove id m) + 1 ≤ length m
unfolding lookup remove
length-remove_found id p [] e = absurd (ground (arith, e))
length-remove_found id p ((j, q) ∷ m) e =
    ground (arith, e, length-remove_found id p m, length-remove id m)

length-insert :
    (id : String) (p : Process) (m : List (String × Process))
    → length (insert id p m) ≤ length m + 1
unfolding insert
length-insert id p [] = omega arith
length-insert id p ((j, q) ∷ m) = ground (arith, length-insert id p m)

length-insert_found :
    (id : String) (p q : Process) (m : List (String × Process))
    → lookup id m ≡ some q
    → length (insert id p m) ≡ length m
unfolding insert lookup
length-insert_found id p q [] e = absurd (ground (arith, e))
length-insert_found id p q ((j, r) ∷ m) e = ground (arith, e, length-insert_found id p q m)

start-IsBounded :
    (now : ℕ) (start_ok : Bool) (id : String) (m : Manager)
    → Unique m.processes
    → length m.processes + 1 ≤ m.max_live
    → IsBounded (start now start_ok id m).1
unfolding start
start-IsBounded now true id m u room = record {
  unique = insert-Unique id (new_process now) m.processes u;
  bound = omega (arith, room, length-insert id (new_process now) m.processes);
  positive = omega (arith, room);
}
start-IsBounded now false id m u room = record {
  unique = u;
  bound = omega (arith, room);
  positive = omega (arith, room);
}

-- Whether a child lives, is started or cannot be: there are never more than `max_live` children,
-- and at most one of each session.
pub ensure-IsBounded :
    (now : ℕ) (start_ok : Bool) (id : String) (m : Manager)
    → IsBounded m
    → IsBounded (ensure now start_ok id m).1
unfolding ensure make_room
ensure-IsBounded now start_ok id m b = elim (Option-cases (lookup id m.processes)) [
  | inr (p, e) ↦
      rw (ensure, e)
        (record {
          unique = insert-Unique id (record p { last_used = now }) m.processes b.unique;
          bound = omega (
            arith,
            b.bound,
            length-insert_found id (record p { last_used = now }) p m.processes e,
          );
          positive = b.positive;
        })
  | inl e ↦ elim (Bool-cases (leb m.max_live (length m.processes))) [
    | inr room ↦
        rw (ensure, e, room) (start-IsBounded now start_ok id m b.unique (ground (arith, room)))
    | inl full ↦ elim (Option-cases (pick_victim m.processes none)) [
      | inl f ↦ rw (ensure, e, full, f) b
      | inr ((vid, v), f) ↦
          let victim =
            pick_victim-IsIdle m.processes m.processes none (vid, v) (λ k p g. g) b.unique
              (λ u g. absurd (ground (arith, g))) f in
          rw (ensure, e, full, f)
            (start-IsBounded now start_ok id (record m { processes = remove vid m.processes })
              (remove-Unique vid m.processes b.unique)
              (omega (arith, b.bound, length-remove_found vid v m.processes victim.found)))
    ]
  ]
]

-- Why a child may be put out.
pub record IsEvictable (id : String) (m : Manager) (p : Process) : Type 0 where
  pub idle : is_busy p ≡ false
  pub oldest :
      (j : String) (q : Process)
      → lookup j m.processes ≡ some q
      → is_busy q ≡ false
      → p.last_used ≤ q.last_used
  pub absent : lookup id m.processes ≡ none
  pub full : length m.processes ≡ m.max_live

start-keeps :
    (now : ℕ) (start_ok : Bool) (id k : String) (m : Manager) (p : Process)
    → lookup k m.processes ≡ some p
    → lookup k (start now start_ok id m).1.processes ≢ none
unfolding start
start-keeps now true id k m p e gone =
    ground (arith, e, gone, lookup-insert id k (new_process now) m.processes)
start-keeps now false id k m p e gone = ground (arith, e, gone)

-- A child is put out only to make room for a session that has none when all places are taken, and
-- only one that has no turn and was used least recently of those without a turn.
pub ensure_evicts :
    (now : ℕ) (start_ok : Bool) (id k : String) (m : Manager) (p : Process)
    → IsBounded m
    → lookup k m.processes ≡ some p
    → lookup k (ensure now start_ok id m).1.processes ≡ none
    → IsEvictable id m p
unfolding ensure make_room
ensure_evicts now start_ok id k m p b here gone = elim (Option-cases (lookup id m.processes)) [
  | inr (q, e) ↦ absurd (
      ground (
        arith,
        here,
        rw (ensure, e) at gone,
        lookup-insert id k (record q { last_used = now }) m.processes,
      ))
  | inl e ↦ elim (Bool-cases (leb m.max_live (length m.processes))) [
    | inr room ↦ absurd (start-keeps now start_ok id k m p here (rw (ensure, e, room) at gone))
    | inl full ↦ elim (Option-cases (pick_victim m.processes none)) [
      | inl f ↦ absurd (ground (arith, here, rw (ensure, e, full, f) at gone))
      | inr ((vid, v), f) ↦ elim (Bool-cases (vid == k)) [
        | inr other ↦ absurd (
            start-keeps now start_ok id k (record m { processes = remove vid m.processes }) p
              (ground (arith, here, other, lookup-remove vid k m.processes))
              (rw (ensure, e, full, f) at gone))
        | inl same ↦
            let victim =
              pick_victim-IsIdle m.processes m.processes none (vid, v) (λ k p g. g) b.unique
                (λ u g. absurd (ground (arith, g))) f in
            let this : v ≡ p = ground (arith, here, victim.found, same, eq_iff vid k) in
            subst (IsEvictable id m) this (record {
              idle = victim.idle;
              oldest = (pick_victim-le m.processes none (vid, v) f).1;
              absent = e;
              full = ground (arith, full, b.bound);
            })
      ]
    ]
  ]
]

-- A session is refused for want of room exactly if it has no child, all places are taken, and
-- every child has a turn.
pub ensure_refuses :
    (now : ℕ) (start_ok : Bool) (id : String) (m : Manager)
    → IsBounded m
    → ((ensure now start_ok id m).0 ≡ all_busy) ↔ (
        (lookup id m.processes ≡ none)
        × ((m.max_live ≤ length m.processes)
            × ((j : String) (q : Process) → lookup j m.processes ≡ some q → is_busy q ≡ true)))
unfolding ensure make_room start
ensure_refuses now start_ok id m b = (
  (λ refused. elim (Option-cases (lookup id m.processes)) [
    | inr (q, e) ↦ absurd (ground (arith, rw (ensure, e) at refused))
    | inl e ↦ elim (Bool-cases (leb m.max_live (length m.processes))) [
      | inr room ↦ absurd (ground (arith, rw (ensure, e, room) at refused))
      | inl full ↦ elim (Option-cases (pick_victim m.processes none)) [
        | inl f ↦ (e, (ground (arith, full), (pick_victim-none m.processes none f).1))
        | inr (victim, f) ↦ absurd (ground (arith, rw (ensure, e, full, f) at refused))
      ]
    ]
  ]),
  λ (e, (full, busy)).
      let taken : leb m.max_live (length m.processes) ≡ true = ground (arith, full) in
      elim (Option-cases (pick_victim m.processes none)) [
        | inl f ↦ rw (ensure, e, taken, f) refl
        | inr ((vid, v), f) ↦
            let victim =
              pick_victim-IsIdle m.processes m.processes none (vid, v) (λ k p g. g) b.unique
                (λ u g. absurd (ground (arith, g))) f in
            absurd (ground (arith, victim.idle, busy vid v victim.found))
      ],
)

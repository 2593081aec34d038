-- ===== src/Pi/Fork/Branch.antt =====
-- The walk ends, and the command cuts the branch at the end of the turn.
use sr_code.Prelude.{
  ℕ, zero, suc, ◌+◌, ◌≤◌, ◌<◌, String, ◌≡◌, refl, ap, ◌≢◌, ◌⊎◌, inl, inr, Bool, true, false, ◌||◌,
  some, List, [], ◌∷◌, ◌++◌, arith, eq_iff, ◌==◌, nat_has_eq, string_has_eq, same_refl,
  if◌then◌else◌, Bool-cases, Option-cases, length, All,
}
use sr_code.Prelude.Dict.{lookup, insert, lookup-insert}
use mathlib.Core.Option
use mathlib.Core.Path.{subst}
use sr_code.Pi.Fork.{
  RpcEntry, EntriesState, ForkFailure, out_of_fuel, Command, fork_before, clone, index_entries,
  walk, after_point, is_prompt, command_for, cut_branch, active_branch, fork_rpc_command,
}

is_seen : String → List (String × Bool) → Bool
is_seen id seen = Option.get_or (lookup id seen) false

-- How many entries the walk has not passed.
ahead : List (String × RpcEntry) → List (String × Bool) → ℕ
ahead [] seen = 0
ahead ((k, e) ∷ m) seen = let rest = ahead m seen in if is_seen k seen then rest else rest + 1

ahead-le : (m : List (String × RpcEntry)) (seen : List (String × Bool)) → ahead m seen ≤ length m
unfolding ahead
ahead-le [] seen = omega arith
ahead-le ((k, e) ∷ m) seen = ground (arith, ahead-le m seen)

seen-insert :
    (id k : String) (seen : List (String × Bool))
    → is_seen k (insert id true seen) ≡ (if id == k then true else is_seen k seen)
unfolding is_seen
seen-insert id k seen = ground (arith, lookup-insert id k true seen)

ahead-insert-le :
    (id : String) (m : List (String × RpcEntry)) (seen : List (String × Bool))
    → ahead m (insert id true seen) ≤ ahead m seen
unfolding ahead
ahead-insert-le id [] seen = omega arith
ahead-insert-le id ((k, e) ∷ m) seen =
    ground (arith, ahead-insert-le id m seen, seen-insert id k seen)

ahead-insert-lt :
    (id : String) (e : RpcEntry) (m : List (String × RpcEntry)) (seen : List (String × Bool))
    → lookup id m ≡ some e
    → is_seen id seen ≡ false
    → ahead m (insert id true seen) < ahead m seen
unfolding ahead lookup
ahead-insert-lt id e [] seen found new = absurd (ground (arith, found))
ahead-insert-lt id e ((k, f) ∷ m) seen found new = elim (Bool-cases (k == id)) [
  | inl same ↦
      let this : k ≡ id = (eq_iff k id).0 same in
      ground (arith, this, new, same_refl id, ahead-insert-le id m seen, seen-insert id k seen)
  | inr other ↦ ground (
    arith,
    other,
    eq_iff id k,
    eq_iff k id,
    ahead-insert-lt id e m seen (ground (arith, found, other)) new,
    seen-insert id k seen,
  )
]

walk-ends :
    (by_id : List (String × RpcEntry)) (fuel : ℕ) (seen : List (String × Bool)) (id : String)
    (branch : List RpcEntry)
    → ahead by_id seen < fuel
    → walk by_id fuel seen id branch ≢ inl out_of_fuel
unfolding walk is_seen
walk-ends by_id zero seen id branch lt stuck = absurd (ground (arith, lt))
walk-ends by_id (suc fuel) seen id branch lt stuck =
    elim (Bool-cases (id == "" || is_seen id seen)) [
      | inl e ↦ absurd (ground (arith, e, stuck))
      | inr e ↦ elim (Option-cases (lookup id by_id)) [
        | inl f ↦ absurd (ground (arith, e, f, stuck))
        | inr (entry, f) ↦ elim (Option-cases entry.parent_id) [
          | inl g ↦ absurd (ground (arith, e, f, g, stuck))
          | inr (parent, g) ↦
              walk-ends by_id fuel (insert id true seen) parent (entry ∷ branch)
                (let less = ahead-insert-lt id entry by_id seen f (ground (arith, e)) in
                  omega arith)
                (ground (arith, e, f, g, stuck))
        ]
      ]
    ]

cut_branch-ends :
    (after_id : String) (r : ForkFailure ⊎ List RpcEntry)
    → r ≢ inl out_of_fuel
    → cut_branch after_id r ≢ inl out_of_fuel
unfolding cut_branch
cut_branch-ends after_id (inl e) ends stuck = ends (
    ap
      (λ (r : ForkFailure ⊎ Command). elim r as (λ x. ForkFailure ⊎ List RpcEntry) [
        | inl x ↦ inl x
        | inr c ↦ inr []
      ])
      stuck)
cut_branch-ends after_id (inr branch) ends stuck =
    elim (Option-cases (after_point after_id branch)) [
      | inl e ↦ absurd (ground (arith, e, stuck))
      | inr (later, e) ↦ absurd (ground (arith, e, stuck))
    ]

-- The choice of a command ends: the walk over the parents does not run out of its fuel, also if the
-- parents of the entries run in a circle.
pub fork_rpc_command-ends :
    (state : EntriesState) (after_id : String) → fork_rpc_command state after_id ≢ inl out_of_fuel
unfolding fork_rpc_command active_branch
fork_rpc_command-ends state after_id stuck =
    let by_id = index_entries state.entries [] in
    let ends : cut_branch after_id (active_branch by_id state.leaf_id) ≢ inl out_of_fuel =
      cut_branch-ends after_id (active_branch by_id state.leaf_id) (
        walk-ends by_id (length by_id + 2) [] state.leaf_id []
          (let le = ahead-le by_id [] in omega arith)) in
    elim (Bool-cases (after_id == "")) [
      | inl e ↦ absurd (ground (arith, e, stuck))
      | inr e ↦ elim (Option-cases (lookup after_id by_id)) [
        | inl f ↦ absurd (ground (arith, e, f, stuck))
        | inr (point, f) ↦ elim (Bool-cases (state.leaf_id == "")) [
          | inl g ↦ absurd (ground (arith, e, f, g, stuck))
          | inr g ↦ ends (ground (arith, e, f, g, stuck))
        ]
      ]
    ]

-- The branch up to the fork point, and after it.
pub record IsAt (after_id : String) (branch later : List RpcEntry) : Type 0 where
  pub before : List RpcEntry
  pub point : RpcEntry
  pub split : branch ≡ before ++ point ∷ later
  pub named : point.id ≡ after_id

after_point-IsAt :
    (after_id : String) (branch later : List RpcEntry)
    → after_point after_id branch ≡ some later
    → IsAt after_id branch later
unfolding after_point
after_point-IsAt after_id [] later e = absurd (ground (arith, e))
after_point-IsAt after_id (x ∷ xs) later e = elim (Bool-cases (x.id == after_id)) [
  | inl f ↦
      let same : xs ≡ later = ground (arith, e, f) in
      record {
        before = [];
        point = x;
        split = ap (λ ys. x ∷ ys) same;
        named = (eq_iff x.id after_id).0 f;
      }
  | inr f ↦
      let r = after_point-IsAt after_id xs later (ground (arith, e, f)) in
      record {
        before = x ∷ r.before;
        point = r.point;
        split = ap (λ ys. x ∷ ys) r.split;
        named = r.named;
      }
]

-- No prompt stands in the list.
abbrev pub NoPrompt : List RpcEntry → Type 0
NoPrompt = All (λ e. is_prompt e ≡ false)

-- What a command keeps of the entries after the point: what stands before the prompt it names, or all.
pub IsCut : List RpcEntry → Command → Type 0
IsCut later clone = NoPrompt later
IsCut later (fork_before id) =
    (between : List RpcEntry) × (prompt : RpcEntry) × (rest : List RpcEntry) × (later
      ≡ between ++ prompt ∷ rest)
    × NoPrompt between
    × (is_prompt prompt ≡ true)
    × (prompt.id ≡ id)

cons-IsCut :
    (e : RpcEntry) (later : List RpcEntry) (c : Command)
    → is_prompt e ≡ false
    → IsCut later c
    → IsCut (e ∷ later) c
unfolding IsCut
cons-IsCut e later clone other cut = (other, cut)
cons-IsCut e later (fork_before id) other (between, prompt, rest, split, none_yet, here, named) =
    (e ∷ between, prompt, rest, ap (λ ys. e ∷ ys) split, (other, none_yet), here, named)

command_for-IsCut : (later : List RpcEntry) → IsCut later (command_for later)
unfolding command_for IsCut
command_for-IsCut [] = tt
command_for-IsCut (e ∷ later) = elim (Bool-cases (is_prompt e)) [
  | inl f ↦ rw f ([], e, later, refl, tt, f, refl)
  | inr f ↦ rw f (cons-IsCut e later (command_for later) f (command_for-IsCut later))
]

cut_branch-cuts :
    (after_id : String) (r : ForkFailure ⊎ List RpcEntry) (c : Command)
    → cut_branch after_id r ≡ inr c
    → (branch : List RpcEntry) × (r ≡ inr branch)
      × ((later : List RpcEntry) × IsAt after_id branch later × IsCut later c)
unfolding cut_branch
cut_branch-cuts after_id (inl f) c e = absurd (ground (arith, e))
cut_branch-cuts after_id (inr branch) c e = elim (Option-cases (after_point after_id branch)) [
  | inl f ↦ absurd (ground (arith, e, f))
  | inr (later, f) ↦
      let same : command_for later ≡ c = ground (arith, e, f) in
      (
        branch,
        refl,
        (
          later,
          after_point-IsAt after_id branch later f,
          subst (IsCut later) same (command_for-IsCut later),
        ),
      )
]

-- If there is a command, then the fork point stands on the active branch, and of the entries after it
-- the command keeps those before the next prompt, which it names, or all if none of them is a prompt.
pub fork_rpc_command-cuts :
    (state : EntriesState) (after_id : String) (c : Command)
    → fork_rpc_command state after_id ≡ inr c
    → (branch : List RpcEntry) × (active_branch (index_entries state.entries []) state.leaf_id
        ≡ inr branch)
      × ((later : List RpcEntry) × IsAt after_id branch later × IsCut later c)
unfolding fork_rpc_command
fork_rpc_command-cuts state after_id c e =
    let by_id = index_entries state.entries [] in
    let cut : cut_branch after_id (active_branch by_id state.leaf_id) ≡ inr c =
      elim (Bool-cases (after_id == "")) [
        | inl f ↦ absurd (ground (arith, e, f))
        | inr f ↦ elim (Option-cases (lookup after_id by_id)) [
          | inl g ↦ absurd (ground (arith, e, f, g))
          | inr (point, g) ↦ elim (Bool-cases (state.leaf_id == "")) [
            | inl h ↦ absurd (ground (arith, e, f, g, h))
            | inr h ↦ ground (arith, e, f, g, h)
          ]
        ]
      ] in
    cut_branch-cuts after_id (active_branch by_id state.leaf_id) c cut

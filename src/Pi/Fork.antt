-- ===== src/Pi/Fork.antt =====
-- internal/pi/fork.go: forkRPCCommand, which turns a fork point of the transcript into a command to pi.
mod Branch
mod Examples
use sr_code.Prelude.{
  ℕ, zero, suc, ◌+◌, String, ◌⊎◌, inl, inr, Bool, true, false, not, ◌&&◌, ◌||◌, Option, none, some,
  List, [], ◌∷◌, ◌==◌, nat_has_eq, string_has_eq, if◌then◌else◌, length,
}
use sr_code.Prelude.Dict.{lookup, insert}
use mathlib.Core.Option

-- `parent_id` is nil at the root; `role` is that of the message.
pub record RpcEntry : Type 0 where
  pub kind : String
  pub id : String
  pub parent_id : Option String
  pub role : String

pub record EntriesState : Type 0 where
  pub entries : List RpcEntry
  pub leaf_id : String

pub data ForkFailure : Type 0 where
  no_point not_found no_leaf broken_chain off_branch out_of_fuel : ForkFailure

-- The two commands; a fork names the prompt before which it cuts.
pub data Command : Type 0 where
  fork_before : String → Command
  clone : Command

unfoldable pub index_entries : List RpcEntry → List (String × RpcEntry) → List (String × RpcEntry)
unfolding insert
index_entries [] by_id = by_id
index_entries (e ∷ es) by_id =
    index_entries es (if not (e.id == "") then insert e.id e by_id else by_id)

-- The loop up the parents: `seen` are the ids behind, `branch` the entries from the one after. (The
-- source gathers them in reverse order and turns them round.)
unfoldable pub walk :
    List (String × RpcEntry)
    → ℕ
    → List (String × Bool)
    → String
    → List RpcEntry
    → ForkFailure ⊎ List RpcEntry
unfolding lookup insert
walk by_id zero seen id branch = inl out_of_fuel
walk by_id (suc fuel) seen id branch =
    if id == "" || Option.get_or (lookup id seen) false
    then inr branch
    else elim (lookup id by_id) [
      | none ↦ inl broken_chain
      | some e ↦ elim e.parent_id [
        | none ↦ inr (e ∷ branch)
        | some parent ↦ walk by_id fuel (insert id true seen) parent (e ∷ branch)
      ]
    ]

-- What stands on the branch after the fork point, if it is on it.
unfoldable pub after_point : String → List RpcEntry → Option (List RpcEntry)
after_point after_id [] = none
after_point after_id (e ∷ es) =
    let rest = after_point after_id es in if e.id == after_id then some es else rest

unfoldable pub is_prompt : RpcEntry → Bool
is_prompt e = e.kind == "message" && (e.role == "user")

unfoldable pub command_for : List RpcEntry → Command
unfolding is_prompt
command_for [] = clone
command_for (e ∷ es) = let rest = command_for es in if is_prompt e then fork_before e.id else rest

-- What is done with the branch.
unfoldable pub cut_branch : String → ForkFailure ⊎ List RpcEntry → ForkFailure ⊎ Command
unfolding after_point command_for
cut_branch after_id (inl e) = inl e
cut_branch after_id (inr branch) = elim (after_point after_id branch) [
  | none ↦ inl off_branch
  | some later ↦ inr (command_for later)
]

-- The fuel suffices, since no id is walked over twice.
unfoldable pub active_branch : List (String × RpcEntry) → String → ForkFailure ⊎ List RpcEntry
unfolding walk
active_branch by_id leaf_id = walk by_id (length by_id + 2) [] leaf_id []

unfoldable pub fork_rpc_command : EntriesState → String → ForkFailure ⊎ Command
unfolding index_entries lookup cut_branch active_branch
fork_rpc_command state after_id =
    let by_id = index_entries state.entries [] in
    if after_id == "" then inl no_point else elim (lookup after_id by_id) [
      | none ↦ inl not_found
      | some e ↦
          if state.leaf_id == ""
          then inl no_leaf
          else cut_branch after_id (active_branch by_id state.leaf_id)
    ]

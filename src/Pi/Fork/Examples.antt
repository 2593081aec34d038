-- ===== src/Pi/Fork/Examples.antt =====
-- Two turns on the active branch, and one beside it.
use sr_code.Prelude.{
  String, ◌≡◌, refl, ◌≢◌, inl, inr, Option, none, some, List, [], ◌∷◌, nat_has_eq, string_has_eq,
}
use sr_code.Prelude.Dict.{lookup, insert}
use sr_code.Pi.Fork.{
  RpcEntry, EntriesState, off_branch, out_of_fuel, fork_before, clone, index_entries, walk,
  after_point, is_prompt, command_for, cut_branch, active_branch, fork_rpc_command,
}
use sr_code.Pi.Fork.Branch.{fork_rpc_command-ends, IsAt, IsCut, fork_rpc_command-cuts}

abbrev entry : String → Option String → String → RpcEntry
entry id parent role = record { kind = "message"; id = id; parent_id = parent; role = role }

abbrev state : EntriesState
state = record {
  entries =
      entry "a" none "user"
      ∷ entry "b" (some "a") "assistant"
      ∷ entry "x" (some "a") "assistant"
      ∷ entry "c" (some "b") "user"
      ∷ entry "d" (some "c") "assistant"
      ∷ [];
  leaf_id = "d";
}

-- After the first turn the command names the second prompt.
first_turn : fork_rpc_command state "b" ≡ inr (fork_before "c")
unfolding fork_rpc_command index_entries active_branch walk cut_branch after_point command_for
    is_prompt lookup insert
first_turn = refl

last_turn : fork_rpc_command state "d" ≡ inr clone
unfolding fork_rpc_command index_entries active_branch walk cut_branch after_point command_for
    is_prompt lookup insert
last_turn = refl

beside : fork_rpc_command state "x" ≡ inl off_branch
unfolding fork_rpc_command index_entries active_branch walk cut_branch after_point command_for
    is_prompt lookup insert
beside = refl

fork_rpc_command-cuts_example :
    (branch : List RpcEntry) × (active_branch (index_entries state.entries []) state.leaf_id
      ≡ inr branch)
    × ((later : List RpcEntry) × IsAt "b" branch later × IsCut later (fork_before "c"))
fork_rpc_command-cuts_example = fork_rpc_command-cuts state "b" (fork_before "c") first_turn

fork_rpc_command-ends_example : fork_rpc_command state "b" ≢ inl out_of_fuel
fork_rpc_command-ends_example = fork_rpc_command-ends state "b"

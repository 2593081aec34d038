-- ===== src/Claudestream/Examples.antt =====
-- One child with two prompts.
use sr_code.Prelude.{
  ℕ, ◌≡◌, refl, true, false, none, some, [], ◌∷◌, ◌++◌, arith, nat_has_eq, string_has_eq,
}
use sr_code.Prelude.Dict.{lookup, insert, remove}
use sr_code.Claudestream.{
  TurnRequest, Process, finish, enqueue, send_write, Line, usage_of, process_exited, finish_all,
  died,
}
use sr_code.Claudestream.Turns.{has_turn, IsSound, enqueue-IsSound}
use sr_code.Claudestream.Ends.{
  died-answers, exit_before_write_panics, turns_left, failed_write_drops_last,
}
use sr_code.Claudestream.Pool.{Manager, is_busy, pick_victim, start, make_room, ensure}
use sr_code.Claudestream.Capacity.{IsBounded, IsEvictable, ensure_evicts}

abbrev idle : Process
idle = record { turns = []; requests = []; next = 0; last_used = 0; stopping = false }

idle-IsSound : IsSound idle
unfolding lookup
idle-IsSound = record { waiting = tt; fresh = λ i le. refl }

abbrev asked : Process
asked = (enqueue 2 (enqueue 1 idle).1.1).1.1

enqueue-IsSound_example : IsSound asked
enqueue-IsSound_example =
    enqueue-IsSound 2 (enqueue 1 idle).1.1 (enqueue-IsSound 1 idle idle-IsSound)

abbrev result_line : Line
result_line = record {
  kind = "result";
  subtype = "success";
  is_error = false;
  message_model = "";
  model_usage = ("claude-opus-5[1m]", 1000000) ∷ [];
  event_type = "";
  delta_type = "";
  delta_text = "";
}

died-answers_example :
    (q : Process) × ((died asked ≡ some q)
      × ((q.turns ≡ [])
          × (((i : ℕ)
                → has_turn i asked.turns ≡ true
                → (r : TurnRequest) × ((lookup i q.requests ≡ some r)
                    × (r.answer ≡ some process_exited)))
              × ((i : ℕ)
                  → has_turn i asked.turns ≡ false
                  → lookup i q.requests ≡ lookup i asked.requests))))
died-answers_example = died-answers asked enqueue-IsSound_example

abbrev exited : Process
exited = record {
  turns = [];
  requests = (0, record { answer = some process_exited; deltas = []; model = "" }) ∷ [];
  next = 1;
  last_used = 1;
  stopping = true;
}

exit_before_write_panics_example : send_write true exited ≡ none
unfolding died enqueue insert finish_all finish lookup
exit_before_write_panics_example = exit_before_write_panics 1 true idle exited refl

failed_write_drops_last_example :
    (turns_left (send_write false (enqueue 1 idle).1.1) ≡ some [])
    × (turns_left (send_write false asked) ≡ some ([] ++ some 0 ∷ []))
failed_write_drops_last_example = failed_write_drops_last 1 2 idle

-- The window of a model is found though the key has a suffix.
window : usage_of "claude-opus-5" (("claude-opus-5[1m]", 1000000) ∷ []) ≡ ("claude-opus-5", 1000000)
unfolding usage_of lookup
window = refl

abbrev one_child : Manager
one_child = record { max_live = 1; processes = ("a", idle) ∷ [] }

one_child-IsBounded : IsBounded one_child
unfolding lookup
one_child-IsBounded = record { unique = (refl, tt); bound = omega arith; positive = omega arith }

a_was_there : lookup "a" one_child.processes ≡ some idle
unfolding lookup
a_was_there = refl

a_is_gone : lookup "a" (ensure 5 true "b" one_child).1.processes ≡ none
unfolding ensure make_room start lookup insert remove pick_victim is_busy
a_is_gone = refl

ensure_evicts_example : IsEvictable "b" one_child idle
ensure_evicts_example =
    ensure_evicts 5 true "b" "a" one_child idle one_child-IsBounded a_was_there a_is_gone

-- ===== src/Sender/Tail/Examples.antt =====
-- A log of four lines, of which the second completes an earlier turn, in two polls that cut a line.
use sr_code.Prelude.{
  ℕ, String, ◌≡◌, refl, true, false, none, ◌⊎◌, List, [], ◌∷◌, ◌++◌, nat_eq, nat_has_eq,
  string_has_eq,
}
use sr_code.Sender.Tail.{
  Tail, StreamEvent, error_event, opens, ticks, deadline, not_appeared, tail_turn, open_when_ready,
  begin_tail, line_event, exit_event, TailConfig, start, send, emit_exit, complete_line, trim_line,
  take_line, read_byte, read_all, cancel, read_polls,
}
use sr_code.Sender.Tail.Turn.{complete_lines, turn_events, concat, read_polls-turn_events}
use sr_code.Sender.Tail.Exit.{starts, polls, cancels, NoExit, one_exit_at_the_end}

abbrev cfg : TailConfig
cfg = record {
  turn_complete = λ line. elim line [ [] ↦ false | b ∷ bs ↦ nat_eq b 33 ];
  turn_aborted = λ line. false;
}

abbrev first_poll : List ℕ
first_poll = 65 ∷ 13 ∷ 10 ∷ 33 ∷ 10 ∷ 66 ∷ []

abbrev second_poll : List ℕ
second_poll = 67 ∷ 10 ∷ 33 ∷ 10 ∷ 68 ∷ 10 ∷ []

-- The line that the first poll has cut goes out whole, and what stands behind the end does not.
whole_line :
    (read_polls cfg (first_poll ∷ second_poll ∷ []) (start 1)).out
    ≡ line_event (65 ∷ []) ∷ line_event (33 ∷ []) ∷ line_event (66 ∷ 67 ∷ []) ∷ exit_event "" ∷ []
unfolding read_polls read_all read_byte take_line trim_line complete_line emit_exit send
whole_line = refl

read_polls-turn_events_example :
    (read_polls cfg (first_poll ∷ second_poll ∷ []) (start 1)).out
    ≡ turn_events cfg 1 (complete_lines [] (concat (first_poll ∷ second_poll ∷ [])))
read_polls-turn_events_example = read_polls-turn_events cfg 1 (first_poll ∷ second_poll ∷ [])

abbrev cancelled : Tail
cancelled = cancel (read_all cfg first_poll (tail_turn "log" 1 (ticks ∷ opens ∷ []) none))

one_exit_at_the_end_example :
    (cancelled.is_closed ≡ false → NoExit cancelled.out)
    × (cancelled.is_closed ≡ true
        → ((before : List StreamEvent) × (reason : String) × NoExit before
            × (cancelled.out ≡ before ++ exit_event reason ∷ []))
          ⊎ (cancelled.out ≡ error_event (not_appeared "log") ∷ []))
one_exit_at_the_end_example =
    one_exit_at_the_end cfg "log" 1 cancelled
      (cancels (polls first_poll (starts (ticks ∷ opens ∷ []) none)))

-- The log does not appear: the channel is closed without an exit.
no_exit_after_deadline : tail_turn "log" 1 (ticks ∷ deadline false ∷ []) none ≡ record {
  pending = [];
  skip_completions = 1;
  out = error_event (not_appeared "log") ∷ [];
  is_closed = true;
}
unfolding tail_turn open_when_ready begin_tail send
no_exit_after_deadline = refl

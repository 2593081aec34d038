-- ===== src/Codexrollout/Fork/Examples.antt =====
-- A rollout of two turns, forked after the first.
use sr_code.Prelude.{
  String, ◌≡◌, refl, true, false, some, List, [], ◌∷◌, ◌==◌, nat_has_eq, string_has_eq,
}
use sr_code.Prelude.Dict.{lookup, insert}
use sr_code.Codexrollout.Fork.{
  Line, Files, is_turn_complete_type, is_task_complete, Render, rewrite_fork_header, copy_through,
  install, finish_copy, fork_lines, fork_copy,
}
use sr_code.Codexrollout.Fork.Prefix.{texts, IsThrough, fork_copy-IsThrough}
use Prim.Native.String

abbrev header : Line
header = record {
  text = "meta";
  kind = "session_meta";
  is_object = true;
  null_payload = false;
  event = "";
  turn_id = "";
}

abbrev prompt : Line
prompt = record {
  text = "hi";
  kind = "response_item";
  is_object = true;
  null_payload = false;
  event = "";
  turn_id = "";
}

abbrev complete : String → Line
complete turn_id = record {
  text = "done";
  kind = "event_msg";
  is_object = true;
  null_payload = false;
  event = "task_complete";
  turn_id = turn_id;
}

abbrev turns : List Line
turns = prompt ∷ complete "t1" ∷ prompt ∷ complete "t2" ∷ []

abbrev render : Render
render text new_id src_id = String.◌++◌ text new_id

abbrev files : Files
files = ("a.jsonl", "x" ∷ []) ∷ []

-- The second turn is not copied.
first_turn :
    lookup "b.jsonl"
      ((fork_copy render true [] (some (header ∷ turns)) "b.jsonl" "t1" "n" "s" files).1)
    ≡ some ("metan" ∷ "hi" ∷ "done" ∷ [])
unfolding fork_copy fork_lines rewrite_fork_header copy_through is_task_complete
    is_turn_complete_type finish_copy install lookup insert
first_turn = refl

fork_copy-IsThrough_example :
    (first : Line) × (ls : List Line) × (some (header ∷ turns) ≡ some (first ∷ ls))
    × (first.kind ≡ "session_meta")
    × (first.is_object ≡ true)
    × (first.null_payload ≡ false)
    × ((kept_lines : List Line) × IsThrough "t1" ls kept_lines
        × (lookup "b.jsonl"
              ((fork_copy render true [] (some (header ∷ turns)) "b.jsonl" "t1" "n" "s" files).1)
            ≡ some (render first.text "n" "s" ∷ texts kept_lines))
        × ((other : String)
            → ("b.jsonl" == other) ≡ false
            → lookup other
                ((fork_copy render true [] (some (header ∷ turns)) "b.jsonl" "t1" "n" "s" files).1)
              ≡ lookup other files))
unfolding fork_copy fork_lines rewrite_fork_header copy_through is_task_complete
    is_turn_complete_type finish_copy install
fork_copy-IsThrough_example =
    fork_copy-IsThrough render true [] (some (header ∷ turns)) "b.jsonl" "t1" "n" "s" files refl

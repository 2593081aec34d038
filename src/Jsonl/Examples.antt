-- ===== src/Jsonl/Examples.antt =====
-- A session with one tool call whose result comes in its turn, and one whose result comes late.
use sr_code.Prelude.{
  ℕ, String, ◌≡◌, refl, false, none, some, [], ◌∷◌, map, arith, nat_has_eq, string_has_eq,
  get_elem?,
}
use sr_code.Prelude.Dict.{lookup, insert}
use sr_code.Jsonl.{Block, blocks, Event, TurnPart, Turn, has_tool_result, match_tool_info}
use sr_code.Jsonl.Assembler.{
  Assembler, new_assembler, tool_part, text_part, is_injected, is_prompt, feed_line_parts,
  read_turns_full,
}
use sr_code.Jsonl.Cards.{HasCards, parts_of, IsSound}
use sr_code.Jsonl.Grouping.{ends_turn, feed_line_parts-IsSound, IsResult, call_of, IsFilled}
use sr_code.Jsonl.Stale.{IsUserPrompt, next_turn, stale_result_overwrites}

abbrev block : String → String → String → String → Block
block kind text id tool_use_id = record {
  kind = kind;
  text = text;
  thinking = "";
  id = id;
  name = "Bash";
  target = "ls";
  tool_use_id = tool_use_id;
}

abbrev line : String → ℕ → Block → String → Event
line kind at b rendered = record {
  kind = kind;
  subtype = "";
  session_id = "s";
  timestamp = at;
  uuid = "";
  message = record { model = "m"; usage = none; content = blocks (b ∷ []) };
  is_meta = false;
  source_tool_use_id = "";
  rendered = rendered;
  shown_text = "hello";
}

abbrev call_line : Event
call_line = line "assistant" 1000000 (block "tool_use" "" "t1" "") ""

abbrev result_line : Event
result_line = line "user" 5000000 (block "tool_result" "" "" "t1") "files"

abbrev prompt_line : Event
prompt_line = line "user" 2000000 (block "text" "hello" "" "") ""

abbrev say_line : Event
say_line = line "assistant" 3000000 (block "text" "hi" "" "") ""

new_assembler-IsSound : IsSound new_assembler
unfolding HasCards lookup
new_assembler-IsSound = record { cards = λ id i e. absurd (ground (arith, e)) }

abbrev called : Assembler
called = (feed_line_parts call_line new_assembler).0

feed_line_parts-IsSound_example : IsSound called
unfolding ends_turn is_prompt has_tool_result is_injected
feed_line_parts-IsSound_example =
    feed_line_parts-IsSound call_line new_assembler new_assembler-IsSound
      (λ e. absurd (ground (arith, e)))

result_line-IsResult : IsResult result_line
unfolding has_tool_result is_injected
result_line-IsResult = record { user = refl; result = refl; not_injected = refl; shown = refl }

prompt_line-IsUserPrompt : IsUserPrompt prompt_line
unfolding has_tool_result is_injected
prompt_line-IsUserPrompt = record { user = refl; no_result = refl; not_injected = refl }

abbrev late : Assembler
late = next_turn prompt_line say_line called

late-waits : lookup (call_of result_line late) called.pending_tool ≡ some 0
unfolding next_turn feed_line_parts match_tool_info lookup insert
late-waits = refl

late-said : get_elem? (parts_of late.cur) 0 ≡ some (text_part "text" "hi" 3000000)
unfolding next_turn feed_line_parts text_part lookup insert
late-said = refl

stale_result_overwrites_example :
    (q : TurnPart) × IsFilled
      (call_of result_line late)
      "files"
      0
      (parts_of late.cur)
      late.pending_tool
      (feed_line_parts result_line late).0
      (feed_line_parts result_line late).1.1
      q
stale_result_overwrites_example =
    stale_result_overwrites prompt_line say_line result_line called 0
      (text_part "text" "hi" 3000000) prompt_line-IsUserPrompt refl result_line-IsResult late-waits
      late-said

abbrev shown_part : TurnPart → String × ℕ
shown_part p = (p.content, p.duration_ms)

-- The turn, as `ReadTurns` serves it: the card has its result and how long the call took.
served :
    map (λ (t : Turn). map shown_part t.parts) (read_turns_full (call_line ∷ result_line ∷ []))
    ≡ (("files", 4) ∷ []) ∷ []
unfolding read_turns_full tool_part
served = refl

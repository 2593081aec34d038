-- ===== src/Jsonl/Assembler.antt =====
-- internal/jsonl/jsonl.go: the Assembler, which groups the lines of a session into turns.
use sr_code.Prelude.{
  ℕ, ◌-◌, String, Bool, not, ◌&&◌, ◌||◌, Option, none, some, List, [], ◌∷◌, ◌++◌, map, ltb, nat_eq,
  ◌==◌, nat_has_eq, string_has_eq, if◌then◌else◌, length, drop, get_elem?, set,
}
use sr_code.Prelude.Dict.{lookup, insert, remove}
use mathlib.Core.Option
use sr_code.Jsonl.{
  Block, Event, TurnPart, Turn, ToolInfo, blocks_of, has_tool_result, extract_text, info_of,
  match_tool_info, collect_tool_uses, thinking_block, text_block, ContentBlock,
  assistant_content_blocks, span_ms, stamp_part_durations, touch, add_usage,
}
use sr_code.Jsonl.{str_append}

-- `cur` is the assistant turn in progress; `pending_tool` has the place of the card that stands up
-- for a call without its result.
pub record Assembler : Type 0 where
  pub tool_map : List (String × ToolInfo)
  pub cur : Option Turn
  pub pending_tool : List (String × ℕ)

abbrev pub new_assembler : Assembler
new_assembler = record { tool_map = []; cur = none; pending_tool = [] }

abbrev pub bare_turn : String → ℕ → String → Turn
bare_turn role time model = record {
  role = role;
  content = "";
  parts = [];
  time = time;
  model = model;
  uuid = "";
  usage = none;
  end_time = 0;
}

abbrev pub plain_turn : String → String → ℕ → Turn
plain_turn role content time = record (bare_turn role time "") { content = content }

unfoldable pub tool_part : ToolInfo → String → String → ℕ → TurnPart
tool_part ti content id time = record {
  kind = "tool";
  content = content;
  tool_name = ti.name;
  tool_target = ti.target;
  time = time;
  duration_ms = 0;
  tool_use_id = id;
}

unfoldable pub text_part : String → String → ℕ → TurnPart
text_part kind content time = record {
  kind = kind;
  content = content;
  tool_name = "";
  tool_target = "";
  time = time;
  duration_ms = 0;
  tool_use_id = "";
}

-- The turn in progress, dropped if it has no part.
unfoldable pub committed : Option Turn → List Turn
unfolding stamp_part_durations
committed none = []
committed (some t) = elim t.parts [ [] ↦ [] | p ∷ ps ↦ stamp_part_durations t ∷ [] ]

unfoldable pub flush : Assembler → Assembler × List Turn
unfolding committed
flush a = (record a { cur = none }, committed a.cur)

-- The turn in progress, or a new one, with the model of the message if it has none.
unfoldable pub open_turn : Event → Option Turn → Turn
open_turn ev none = bare_turn "assistant" ev.timestamp ev.message.model
open_turn ev (some t) = if t.model == "" then record t { model = ev.message.model } else t

unfoldable pub mark : Event → Turn → Turn
unfolding touch
mark ev t = touch ev.timestamp (if ev.uuid == "" then t else record t { uuid = ev.uuid })

unfoldable pub append_part : TurnPart → Turn → Turn
append_part p t = record t { parts = t.parts ++ p ∷ [] }

-- The last tool part of the call gets the text at its end; `none` if no part is of the call.
unfoldable pub append_text : String → String → List TurnPart → Option (List TurnPart × TurnPart)
append_text id text [] = none
append_text id text (p ∷ ps) =
    let rest = append_text id text ps in
    elim rest [
      | some (ps', q) ↦ some (p ∷ ps', q)
      | none ↦
          if p.kind == "tool" && p.tool_use_id == id
          then some (
            record p { content = str_append p.content (str_append "\n" text) } ∷ ps,
            record p { content = str_append p.content (str_append "\n" text) },
          )
          else none
    ]

-- An injected text goes to the part of its call in the turn, or into a part of its own.
unfoldable pub meta_into : Event → String → Turn → Assembler → Assembler × Option TurnPart
unfolding append_text append_part tool_part lookup
meta_into ev text t a = elim (append_text ev.source_tool_use_id text t.parts) [
  | some (ps, p) ↦ (record a { cur = some (record t { parts = ps }) }, some p)
  | none ↦
      let p =
        tool_part (info_of ev.source_tool_use_id a.tool_map) text ev.source_tool_use_id
          ev.timestamp in
      (record a { cur = some (append_part p t) }, some p)
]

unfoldable pub feed_meta : Event → String → Assembler → Assembler × Option TurnPart
unfolding mark meta_into
feed_meta ev text a =
    meta_into ev text (mark ev (Option.get_or a.cur (bare_turn "assistant" ev.timestamp ""))) a

-- One empty card for each call that has none.
unfoldable pub place_cards :
    List Block
    → ℕ
    → List (String × ToolInfo)
    → List TurnPart × List (String × ℕ)
    → List TurnPart × List (String × ℕ)
unfolding lookup insert tool_part
place_cards [] ts names c = c
place_cards (b ∷ bs) ts names c =
    if not (b.kind == "tool_use") || b.id == ""
    then place_cards bs ts names c
    else elim (lookup b.id c.1) [
      | some i ↦ place_cards bs ts names c
      | none ↦
          place_cards bs ts names
            (c.0 ++ tool_part (info_of b.id names) "" b.id ts ∷ [], insert b.id (length c.0) c.1)
    ]

-- What a line of the assistant does before its texts are shown.
unfoldable pub enter_assistant : Event → Assembler → Turn × Assembler
unfolding open_turn mark add_usage collect_tool_uses place_cards
enter_assistant ev a =
    let t = add_usage ev.message (mark ev (open_turn ev a.cur)) in
    let names = collect_tool_uses ev.message a.tool_map in
    let c = place_cards (blocks_of ev.message) ev.timestamp names (t.parts, a.pending_tool) in
    (record t { parts = c.0 }, record a { tool_map = names; pending_tool = c.1 })

-- A result takes the start time of its card, and how long the call took.
unfoldable pub filled : ℕ → TurnPart → TurnPart → TurnPart
filled now old p =
    if nat_eq old.time 0
    then p
    else if ltb old.time now
    then record p { time = old.time; duration_ms = span_ms old.time now }
    else record p { time = old.time }

-- A result takes the place of its card in the turn, or is a part of its own.
unfoldable pub result_into : Event → Turn → Assembler → Assembler × Option TurnPart
unfolding match_tool_info tool_part filled append_part lookup remove
result_into ev t a =
    if ev.rendered == ""
    then (record a { cur = some t }, none)
    else let ti = (match_tool_info ev.message a.tool_map).0 in
      let id = (match_tool_info ev.message a.tool_map).1 in
      let p = tool_part ti ev.rendered id ev.timestamp in
      elim (lookup id a.pending_tool) [
        | none ↦ (record a { cur = some (append_part p t) }, some p)
        | some idx ↦ elim (get_elem? t.parts idx) [
          | none ↦ (record a { cur = some (append_part p t) }, some p)
          | some old ↦ (
            record a {
              cur = some (record t { parts = set t.parts idx (filled ev.timestamp old p) });
              pending_tool = remove id a.pending_tool;
            },
            some (filled ev.timestamp old p),
          )
        ]
      ]

unfoldable pub feed_result : Event → Assembler → Assembler × Option TurnPart
unfolding open_turn mark result_into
feed_result ev a = result_into ev (mark ev (open_turn ev a.cur)) a

-- The text of a prompt becomes a turn of its own.
unfoldable pub prompt_turns : Event → List Turn
unfolding extract_text
prompt_turns ev =
    if extract_text ev.message == "" then [] else plain_turn "user" ev.shown_text ev.timestamp ∷ []

unfoldable pub is_injected : Event → Bool
is_injected ev = ev.is_meta && not (ev.source_tool_use_id == "")

unfoldable pub is_prompt : Event → Bool
unfolding is_injected has_tool_result
is_prompt ev = ev.kind == "user" && not (has_tool_result ev.message) && not (is_injected ev)

-- The parts of the line's blocks, in the order of the blocks.
unfoldable pub part_of_block : ℕ → ContentBlock → TurnPart
unfolding text_part
part_of_block ts b = elim b.kind [
  | thinking_block ↦ text_part "thinking" b.text ts
  | text_block ↦ text_part "text" b.text ts
]

-- `part` of the Go function is the last component.
unfoldable pub feed : Event → Assembler → Assembler × (List Turn × Option TurnPart)
unfolding flush is_prompt prompt_turns is_injected feed_meta extract_text enter_assistant text_part
    append_part feed_result
feed ev a =
    if ev.kind == "system" && ev.subtype == "compact_boundary"
    then (
      (flush a).0,
      ((flush a).1 ++ plain_turn "system" "Context compacted" ev.timestamp ∷ [], none),
    )
    else if not (ev.kind == "user") && not (ev.kind == "assistant")
    then (a, ([], none))
    else if is_prompt ev
    then ((flush a).0, ((flush a).1 ++ prompt_turns ev, none))
    else if is_injected ev && ev.kind == "user"
    then (if extract_text ev.message == ""
        then (a, ([], none))
        else let (a', p) = feed_meta ev (extract_text ev.message) a in (a', ([], p)))
    else if ev.kind == "assistant"
    then (let (t, a') = enter_assistant ev a in
        let before = length (open_turn ev a.cur).parts in
        let p = text_part "text" (extract_text ev.message) ev.timestamp in
        if extract_text ev.message == ""
        then (record a' { cur = some t }, ([], get_elem? t.parts before))
        else (record a' { cur = some (append_part p t) }, ([], some p)))
    else let (a', p) = feed_result ev a in (a', ([], p))

unfoldable pub to_list : Option TurnPart → List TurnPart
to_list none = []
to_list (some p) = p ∷ []

-- What `Feed` gives, with its part as a list.
unfoldable pub fed_line : Event → Assembler → Assembler × (List Turn × List TurnPart)
unfolding feed to_list
fed_line ev a = let (a', (done, p)) = feed ev a in (a', (done, to_list p))

-- A line of the assistant with the blocks that it shows.
unfoldable pub show_blocks :
    Event → Assembler → List ContentBlock → Assembler × (List Turn × List TurnPart)
unfolding fed_line enter_assistant part_of_block
show_blocks ev a [] = fed_line ev a
show_blocks ev a (b ∷ bs) =
    let (t, a') = enter_assistant ev a in
    let texts = map (part_of_block ev.timestamp) (b ∷ bs) in
    (
      record a' { cur = some (record t { parts = t.parts ++ texts }) },
      ([], drop (length (open_turn ev a.cur).parts) t.parts ++ texts),
    )

unfoldable pub feed_line_parts : Event → Assembler → Assembler × (List Turn × List TurnPart)
unfolding fed_line show_blocks assistant_content_blocks
feed_line_parts ev a =
    if not (ev.kind == "assistant")
    then fed_line ev a
    else show_blocks ev a (assistant_content_blocks ev.message)

-- The lines that decode, one after another.
unfoldable pub feed_all : List Event → Assembler → Assembler × List Turn
unfolding feed_line_parts
feed_all [] a = (a, [])
feed_all (ev ∷ evs) a =
    let (a', (done, parts)) = feed_line_parts ev a in
    let (a'', more) = feed_all evs a' in (a'', done ++ more)

-- `readTurnsFull`
unfoldable pub read_turns_full : List Event → List Turn
unfolding feed_all flush
read_turns_full evs = let (a, done) = feed_all evs new_assembler in done ++ (flush a).1

-- `readTurnsTailWindow` on the lines of the window; a limit is positive.
unfoldable pub read_turns_tail_window : List Event → ℕ → List Turn × ℕ
unfolding read_turns_full
read_turns_tail_window evs limit =
    let raw = read_turns_full evs in
    (if ltb limit (length raw) then drop (length raw - limit) raw else raw, length raw)

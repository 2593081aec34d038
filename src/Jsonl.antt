-- ===== src/Jsonl.antt =====
-- internal/jsonl/jsonl.go and internal/core/transcript.go: the lines of a session file, and the
-- display parts that they become. A line is its decoded JSON; a time is in nanoseconds, 0 if the
-- line has none.
pub mod Assembler
pub mod Cards
pub mod Grouping
pub mod Stale
mod Fork
mod Prefix
mod Copied
mod Examples
mod ForkExamples
use sr_code.Prelude.{
  ℕ, ◌+◌, ◌-◌, ◌/◌, String, Bool, false, not, ◌&&◌, ◌||◌, Option, none, some, List, [], ◌∷◌, ltb,
  nat_eq, ◌==◌, nat_has_eq, string_has_eq, if◌then◌else◌,
}
use sr_code.Prelude.Dict.{lookup, insert}
use mathlib.Core.Option
pub use Prim.Native.String.{◌++◌ as str_append}

-- One block of a message's content; a field that the JSON does not have is empty. `target` is what
-- `toolTarget` makes of the input.
pub record Block : Type 0 where
  pub kind : String
  pub text : String
  pub thinking : String
  pub id : String
  pub name : String
  pub target : String
  pub tool_use_id : String

pub data Content : Type 0 where
  plain : String → Content
  blocks : List Block → Content
  unreadable : Content

pub record TokenUsage : Type 0 where
  pub input : ℕ
  pub output : ℕ
  pub cache_read : ℕ
  pub cache_write : ℕ

pub record Message : Type 0 where
  pub model : String
  pub usage : Option TokenUsage
  pub content : Content

-- `rendered` is what `renderToolResult` makes of the line, `shown_text` what
-- `compactTaskNotification` makes of its text.
pub record Event : Type 0 where
  pub kind : String
  pub subtype : String
  pub session_id : String
  pub timestamp : ℕ
  pub uuid : String
  pub message : Message
  pub is_meta : Bool
  pub source_tool_use_id : String
  pub rendered : String
  pub shown_text : String

pub record TurnPart : Type 0 where
  pub kind : String
  pub content : String
  pub tool_name : String
  pub tool_target : String
  pub time : ℕ
  pub duration_ms : ℕ
  pub tool_use_id : String

pub record Turn : Type 0 where
  pub role : String
  pub content : String
  pub parts : List TurnPart
  pub time : ℕ
  pub model : String
  pub uuid : String
  pub usage : Option TokenUsage
  pub end_time : ℕ

pub record ToolInfo : Type 0 where
  pub name : String
  pub target : String

-- Blocks of the content, if it is a list of them.
abbrev pub blocks_of : Message → List Block
blocks_of m = elim m.content [ plain s ↦ [] | blocks bs ↦ bs | unreadable ↦ [] ]

has_result_block : List Block → Bool
has_result_block [] = false
has_result_block (b ∷ bs) = b.kind == "tool_result" || has_result_block bs

unfoldable pub has_tool_result : Message → Bool
unfolding has_result_block
has_tool_result m = has_result_block (blocks_of m)

-- The texts of the text blocks that are not empty.
block_texts : List Block → List String
block_texts [] = []
block_texts (b ∷ bs) =
    let rest = block_texts bs in
    if b.kind == "text" && not (b.text == "") then b.text ∷ rest else rest

-- `strings.Join(parts, "\n")`
join_lines : List String → String
join_lines [] = ""
join_lines (s ∷ []) = s
join_lines (s ∷ (t ∷ ts)) = str_append s (str_append "\n" (join_lines (t ∷ ts)))

-- `extractUserText` and `extractAssistantText`, which have the same body
unfoldable pub extract_text : Message → String
unfolding block_texts join_lines
extract_text m = elim m.content [
  | plain s ↦ s
  | blocks bs ↦ join_lines (block_texts bs)
  | unreadable ↦ ""
]

first_result_id : List Block → String
first_result_id [] = ""
first_result_id (b ∷ bs) =
    let rest = first_result_id bs in
    if b.kind == "tool_result" && not (b.tool_use_id == "") then b.tool_use_id else rest

abbrev pub no_tool : ToolInfo
no_tool = record { name = ""; target = "" }

-- A missing key reads as the zero value.
abbrev pub info_of : String → List (String × ToolInfo) → ToolInfo
info_of id names = Option.get_or (lookup id names) no_tool

unfoldable pub match_tool_info : Message → List (String × ToolInfo) → ToolInfo × String
unfolding first_result_id lookup
match_tool_info m names =
    let id = first_result_id (blocks_of m) in
    if id == "" then (no_tool, "") else (info_of id names, id)

collect_blocks : List Block → List (String × ToolInfo) → List (String × ToolInfo)
unfolding insert
collect_blocks [] dst = dst
collect_blocks (b ∷ bs) dst = collect_blocks bs (
    if b.kind == "tool_use" && not (b.id == "") && not (b.name == "")
    then insert b.id (record { name = b.name; target = b.target }) dst
    else dst)

unfoldable pub collect_tool_uses : Message → List (String × ToolInfo) → List (String × ToolInfo)
unfolding collect_blocks
collect_tool_uses m dst = collect_blocks (blocks_of m) dst

pub data BlockKind : Type 0 where
  thinking_block : BlockKind
  text_block : BlockKind

pub record ContentBlock : Type 0 where
  pub kind : BlockKind
  pub text : String

shown_blocks : List Block → List ContentBlock
shown_blocks [] = []
shown_blocks (b ∷ bs) =
    let rest = shown_blocks bs in
    if b.kind == "text"
    then (if b.text == "" then rest else record { kind = text_block; text = b.text } ∷ rest)
    else if b.kind == "thinking"
    then (if b.thinking == ""
        then rest
        else record { kind = thinking_block; text = b.thinking } ∷ rest)
    else rest

unfoldable pub assistant_content_blocks : Message → List ContentBlock
unfolding shown_blocks
assistant_content_blocks m = elim m.content [
  | plain s ↦ if s == "" then [] else record { kind = text_block; text = s } ∷ []
  | blocks bs ↦ shown_blocks bs
  | unreadable ↦ []
]

-- `ev.Timestamp.Sub(start)`, in milliseconds, if it is positive
abbrev pub span_ms : ℕ → ℕ → ℕ
span_ms start end = (end - start) / 1000000

-- The time at which a part ends: at the next part, or at the end of the turn.
end_of : ℕ → List TurnPart → ℕ
end_of end_time [] = end_time
end_of end_time (p ∷ ps) = if nat_eq p.time 0 then end_time else p.time

stamp : ℕ → List TurnPart → TurnPart → TurnPart
unfolding end_of
stamp end_time rest p =
    if not (p.kind == "thinking") || nat_eq p.time 0
    then p
    else if nat_eq (end_of end_time rest) 0
    then p
    else if ltb p.time (end_of end_time rest)
    then record p { duration_ms = span_ms p.time (end_of end_time rest) }
    else p

pub stamp_all : ℕ → List TurnPart → List TurnPart
unfolding stamp
stamp_all end_time [] = []
stamp_all end_time (p ∷ ps) = stamp end_time ps p ∷ stamp_all end_time ps

unfoldable pub stamp_part_durations : Turn → Turn
unfolding stamp_all
stamp_part_durations t = record t { parts = stamp_all t.end_time t.parts }

unfoldable pub touch : ℕ → Turn → Turn
touch ts t = if nat_eq ts 0 then t else record t { end_time = ts }

unfoldable pub add_usage : Message → Turn → Turn
add_usage m t = elim m.usage [
  | none ↦ t
  | some u ↦ record t {
    usage = elim t.usage [
      | none ↦ some u
      | some v ↦ some (record {
        input = v.input + u.input;
        output = v.output + u.output;
        cache_read = v.cache_read + u.cache_read;
        cache_write = v.cache_write + u.cache_write;
      })
    ];
  }
]

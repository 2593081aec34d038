-- ===== src/Codexrollout/Fork.antt =====
-- internal/codexrollout/fork.go: a rollout is copied through one of its turns. A line has its text and
-- what it decodes to, where what is missing is empty; the writing of the new header, by encoding/json,
-- is an argument.
mod Prefix
mod Examples
use sr_code.Prelude.{
  String, Bool, true, false, not, ◌&&◌, ◌||◌, Option, none, some, List, [], ◌∷◌, ◌++◌, ◌==◌,
  nat_has_eq, string_has_eq, if◌then◌else◌,
}
use sr_code.Prelude.Dict.{insert}
use mathlib.Core.Option

-- `kind` is the line's `type`, and `event` that of its payload; `is_object` says that the line decodes
-- to an object, and its payload to an object or null, which is `null_payload`.
pub record Line : Type 0 where
  pub text : String
  pub kind : String
  pub is_object : Bool
  pub null_payload : Bool
  pub event : String
  pub turn_id : String

-- The bytes of a file, as its lines.
abbrev pub Files : Type 0
Files = List (String × List String)

pub data ForkError : Type 0 where
  no_source empty_source bad_header header_panic turn_not_found not_written : ForkError

pub data Header : Type 0 where
  bad panics : Header
  rewritten : String → Header

unfoldable pub is_turn_complete_type : String → Bool
is_turn_complete_type event = event == "task_complete" || event == "turn_complete"

unfoldable pub is_task_complete : Line → String → Bool
unfolding is_turn_complete_type
is_task_complete l turn_id =
    if not (l.kind == "event_msg" && l.is_object)
    then false
    else is_turn_complete_type l.event && (l.turn_id == turn_id)

-- From the text of the header, the new id and the id of the source.
abbrev pub Render : Type 0
Render = String → String → String → String

-- A null payload decodes to a nil map, and to write into that panics.
unfoldable pub rewrite_fork_header : Render → Line → String → String → Header
rewrite_fork_header render header new_id src_id =
    if not (header.kind == "session_meta" && header.is_object)
    then bad
    else if header.null_payload
    then panics
    else rewritten (render header.text new_id src_id)

-- The loop over the lines after the header, with what has been written to the buffer.
unfoldable pub copy_through : String → List String → List Line → List String × Bool
unfolding is_task_complete
copy_through turn_id out [] = (out, false)
copy_through turn_id out (l ∷ ls) =
    let longer = out ++ l.text ∷ [] in
    let rest = copy_through turn_id longer ls in
    if is_task_complete l turn_id then (longer, true) else rest

-- `writable` is whether the directory can be made and the file be written; what a write that fails
-- leaves in the file is `left`.
unfoldable pub install :
    Bool → List String → String → List String → Files → Option ForkError × Files
unfolding insert
install writable left dst content files =
    if writable then (none, insert dst content files) else (some not_written, insert dst left files)

unfoldable pub finish_copy :
    Bool → List String → String → List String × Bool → Files → Option ForkError × Files
unfolding install
finish_copy writable left dst (content, forked) files =
    if not forked then (some turn_not_found, files) else install writable left dst content files

unfoldable pub fork_lines :
    Render
    → Bool
    → List String
    → String
    → String
    → String
    → String
    → List Line
    → Files
    → Option ForkError × Files
unfolding rewrite_fork_header copy_through finish_copy
fork_lines render writable left dst turn_id new_id src_id [] files = (some empty_source, files)
fork_lines render writable left dst turn_id new_id src_id (header ∷ ls) files =
    elim (rewrite_fork_header render header new_id src_id) [
      | bad ↦ (some bad_header, files)
      | panics ↦ (some header_panic, files)
      | rewritten text ↦ finish_copy writable left dst (copy_through turn_id (text ∷ []) ls) files
    ]

-- `source` are the lines of the source file, if it can be opened.
unfoldable pub fork_copy :
    Render
    → Bool
    → List String
    → Option (List Line)
    → String
    → String
    → String
    → String
    → Files
    → Option ForkError × Files
unfolding fork_lines
fork_copy render writable left source dst turn_id new_id src_id files = elim source [
  | none ↦ (some no_source, files)
  | some lines ↦ fork_lines render writable left dst turn_id new_id src_id lines files
]

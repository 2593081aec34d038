-- ===== src/Jsonl/Fork.antt =====
-- internal/jsonl/fork.go: a session's file copied up to the end of one turn. A file is its lines.
use sr_code.Prelude.{
  ℕ, ◌+◌, String, Bool, true, false, not, ◌&&◌, ◌||◌, Option, none, some, List, [], ◌∷◌, ◌++◌,
  nat_eq, ◌==◌, nat_has_eq, string_has_eq, if◌then◌else◌,
}
use sr_code.Prelude.Dict.{lookup, insert, remove}
use sr_code.Jsonl.{Event, has_tool_result}
use sr_code.Jsonl.{str_append}

pub record Scan : Type 0 where
  pub out : List String
  pub seen : Bool
  pub completed : Bool
  pub parsed : ℕ
  pub replaced : ℕ

pub data Forked : Type 0 where
  forked : List String → Forked
  not_found : Forked
  not_completed : Forked
  mismatch : Forked

-- `"sessionId":"<id>"`
unfoldable pub needle : String → String
needle id = str_append "\"sessionId\":\"" (str_append id "\"")

unfoldable pub is_turn_complete : Event → Bool
is_turn_complete ev = ev.kind == "system" && ev.subtype == "turn_duration"

-- The line starts the next turn.
unfoldable pub is_cut : Event → Bool
unfolding has_tool_result
is_cut ev = ev.kind == "user" && not (has_tool_result ev.message)

unfoldable pub note : String → String → Event → Scan → Scan
unfolding is_turn_complete
note after old ev st = record st {
  completed = st.completed || (st.seen && is_turn_complete ev);
  parsed = if ev.session_id == old then st.parsed + 1 else st.parsed;
  seen = st.seen || ev.uuid == after;
}

-- The temporary file is written and renamed; files stand by their paths. `partial` is what a failed
-- write leaves, if anything.
unfoldable pub install :
    Bool
    → Bool
    → Option (List String)
    → String
    → List String
    → List (String × List String)
    → Bool × List (String × List String)
unfolding insert remove
install false rename_ok none dst out fs = (false, fs)
install false rename_ok (some left) dst out fs = (false, insert (str_append dst ".tmp") left fs)
install true false partial dst out fs =
    (false, remove (str_append dst ".tmp") (insert (str_append dst ".tmp") out fs))
install true true partial dst out fs =
    (true, insert dst out (remove (str_append dst ".tmp") (insert (str_append dst ".tmp") out fs)))

-- `json.Unmarshal`, `bytes.Contains` and `bytes.ReplaceAll` are the libraries'.
module _ (decode : String → Option Event) (contains : String → String → Bool)
    (replace_all : String → String → String → String) where
  unfoldable pub rewrite : String → String → String → String
  unfolding needle
  rewrite old new line =
      if contains line (needle old) then replace_all line (needle old) (needle new) else line

  unfoldable pub copy : String → String → String → Scan → Scan
  unfolding rewrite
  copy old new line st = record st {
    out = st.out ++ rewrite old new line ∷ [];
    replaced = if contains line (needle old) then st.replaced + 1 else st.replaced;
  }

  unfoldable pub scan : String → String → String → List String → Scan → Scan
  unfolding copy note is_cut
  scan after old new [] st = st
  scan after old new (line ∷ lines) st = elim (decode line) [
    | none ↦ scan after old new lines (copy old new line st)
    | some ev ↦ elim (st.seen && is_cut ev) [
      | true ↦ record st { completed = true }
      | false ↦ scan after old new lines (copy old new line (note after old ev st))
    ]
  ]

  unfoldable pub verdict : Scan → Forked
  verdict st =
      if not st.seen
      then not_found
      else if not st.completed
      then not_completed
      else if not (nat_eq st.replaced st.parsed)
      then mismatch
      else forked st.out

  unfoldable pub fork_prefix : String → String → String → List String → Forked
  unfolding scan verdict
  fork_prefix after old new lines = verdict (
      scan after old new lines
        (record { out = []; seen = false; completed = false; parsed = 0; replaced = 0 }))

  -- A target that is there, a session that cannot be read and a prefix that is refused are errors.
  unfoldable pub fork_copy :
      Bool
      → Bool
      → Option (List String)
      → String
      → String
      → String
      → String
      → String
      → List (String × List String)
      → Bool × List (String × List String)
  unfolding fork_prefix lookup install
  fork_copy write_ok rename_ok partial src dst after old new fs =
      if after == "" then (false, fs) else elim (lookup dst fs) [
        | some there ↦ (false, fs)
        | none ↦ elim (lookup src fs) [
          | none ↦ (false, fs)
          | some lines ↦ elim (fork_prefix after old new lines) [
            | not_found ↦ (false, fs)
            | not_completed ↦ (false, fs)
            | mismatch ↦ (false, fs)
            | forked out ↦ install write_ok rename_ok partial dst out fs
          ]
        ]
      ]

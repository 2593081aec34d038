-- ===== src/Jsonl/ForkExamples.antt =====
-- A session of two turns, forked after the first.
use sr_code.Prelude.{
  String, ◌≡◌, refl, ◌≢◌, Bool, false, not, Option, none, some, List, [], ◌∷◌, arith, eq_iff, ◌==◌,
  nat_has_eq, string_has_eq, if◌then◌else◌,
}
use sr_code.Jsonl.{plain, Event, has_tool_result}
use sr_code.Jsonl.Fork.{forked, needle, rewrite, fork_prefix}
use sr_code.Jsonl.Prefix.{IsTurnPrefix, fork_prefix-IsTurnPrefix}
use sr_code.Jsonl.{str_append}

abbrev event : String → String → String → Event
event kind subtype uuid = record {
  kind = kind;
  subtype = subtype;
  session_id = "s";
  timestamp = 0;
  uuid = uuid;
  message = record { model = ""; usage = none; content = plain "text" };
  is_meta = false;
  source_tool_use_id = "";
  rendered = "";
  shown_text = "";
}

-- Stand-ins for the libraries: every line names the session, and ends in "!" once it is rewritten.
abbrev decode_line : String → Option Event
decode_line line =
    if line == "ask"
    then some (event "user" "" "u1")
    else if line == "say"
    then some (event "assistant" "" "u2")
    else if line == "ask again"
    then some (event "user" "" "u3")
    else none

abbrev names_it : String → String → Bool
names_it line needle = not (line == "broken")

abbrev renamed : String → String → String → String
renamed line from to = if line == "ask" then "ask!" else "say!"

abbrev session : List String
session = "ask" ∷ ("broken" ∷ ("say" ∷ ("ask again" ∷ [])))

abbrev fork_lines : List String
fork_lines = "ask!" ∷ ("broken" ∷ ("say!" ∷ []))

session_forks : fork_prefix decode_line names_it renamed "u2" "s" "t" session ≡ forked fork_lines
unfolding fork_prefix rewrite has_tool_result
session_forks = refl

fork_prefix-IsTurnPrefix_example :
    IsTurnPrefix decode_line names_it renamed "u2" "s" "t" session [] fork_lines
fork_prefix-IsTurnPrefix_example =
    fork_prefix-IsTurnPrefix decode_line names_it renamed "u2" "s" "t" session fork_lines
      session_forks

abbrev source : String
source = "s.jsonl"

abbrev target : String
target = "t.jsonl"

abbrev temporary : String
temporary = str_append target ".tmp"

abbrev files : List (String × List String)
files = (source, session) ∷ []

apart : source ≢ target
apart e = absurd (ground (arith, (eq_iff source target).1 e))

apart_from_temporary : source ≢ temporary
apart_from_temporary e = absurd (ground (arith, (eq_iff source temporary).1 e))

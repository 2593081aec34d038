-- ===== src/Claudestream.antt =====
-- internal/claudestream/manager.go: the turns of one child process, from the prompt that is queued
-- to the result that its sender gets.
mod Turns
mod Ends
mod Pool
mod Eviction
mod Capacity
mod Examples
use sr_code.Prelude.{
  ℕ, ◌+◌, String, Bool, true, false, not, ◌&&◌, ◌||◌, Option, none, some, List, [], ◌∷◌, ◌++◌, map,
  ltb, nat_eq, ◌==◌, nat_has_eq, string_has_eq, if◌then◌else◌, length,
}
use sr_code.Prelude.Dict.{lookup, insert}
use mathlib.Core.Option
use Prim.Native.Char.{code}

pub record Result : Type 0 where
  pub is_error : Bool
  pub subtype : String
  pub model : String
  pub context_window : ℕ

-- `answer` is what was sent on `done` before it was closed.
pub record TurnRequest : Type 0 where
  pub answer : Option Result
  pub deltas : List String
  pub model : String

-- `turns` points into the requests; `none` is a spontaneous turn, the nil entry.
pub record Process : Type 0 where
  pub turns : List (Option ℕ)
  pub requests : List (ℕ × TurnRequest)
  pub next : ℕ
  pub last_used : ℕ
  pub stopping : Bool

abbrev pub new_request : TurnRequest
new_request = record { answer = none; deltas = []; model = "" }

-- `none` is a panic: the close of a channel that is closed.
unfoldable pub finish : ℕ → Result → List (ℕ × TurnRequest) → Option (List (ℕ × TurnRequest))
unfolding lookup insert
finish i res requests = elim (lookup i requests) [
  | none ↦ none
  | some r ↦ elim r.answer [
    | some earlier ↦ none
    | none ↦ some (insert i (record r { answer = some res }) requests)
  ]
]

-- `Send` up to its write: the new request and the number of turns before it.
unfoldable pub enqueue : ℕ → Process → ℕ × (ℕ × Process)
unfolding insert
enqueue now p = (
  p.next,
  (
    length p.turns,
    record p {
      turns = p.turns ++ some p.next ∷ [];
      requests = insert p.next new_request p.requests;
      next = p.next + 1;
      last_used = now;
    },
  ),
)

-- `p.turns[:len(p.turns)-1]`, which panics on no turn
unfoldable pub drop_last : List (Option ℕ) → Option (List (Option ℕ))
drop_last [] = none
drop_last (t ∷ []) = some []
drop_last (t ∷ (u ∷ ts)) = Option.map (λ rest. t ∷ rest) (drop_last (u ∷ ts))

unfoldable pub rollback : Process → Option Process
unfolding drop_last
rollback p = Option.map (λ ts. record p { turns = ts }) (drop_last p.turns)

-- `write`, and what `Send` does on its error; the flag is whether the prompt was written.
unfoldable pub send_write : Bool → Process → Option (Bool × Process)
unfolding rollback
send_write pipe_ok p =
    if not p.stopping && pipe_ok then some (true, p) else Option.map (λ q. (false, q)) (rollback p)

-- What a line of the child's output decodes to.
pub record Line : Type 0 where
  pub kind : String
  pub subtype : String
  pub is_error : Bool
  pub message_model : String
  pub model_usage : List (String × ℕ)
  pub event_type : String
  pub delta_type : String
  pub delta_text : String

unfoldable pub marks_spontaneous_turn : String → String → String → Bool
marks_spontaneous_turn typ subtype event_type =
    if typ == "control_response" || typ == "rate_limit_event" || typ == "command_lifecycle"
    then false
    else if typ == "system"
    then subtype == "task_started" || subtype == "turn_started"
    else if typ == "stream_event"
    then event_type == "message_start"
    else typ == "assistant" || typ == "user"

-- `strings.Cut(k, "[")`, its first component
pub base : String → String
base String.[] = String.[]
base (String.◌∷◌ c s) = if nat_eq (code c) 91 then String.[] else String.◌∷◌ c (base s)

find_base : String → List (String × ℕ) → Option ℕ
unfolding base
find_base model [] = none
find_base model ((k, v) ∷ usage) =
    let rest = find_base model usage in if base k == model then some v else rest

fallback : String → List (String × ℕ) → String × ℕ
unfolding base
fallback model [] = (model, 0)
fallback model ((k, v) ∷ []) = (base k, v)
fallback model (k ∷ (l ∷ ks)) = (model, 0)

-- The model and the context window of a result.
unfoldable pub usage_of : String → List (String × ℕ) → String × ℕ
unfolding lookup find_base fallback
usage_of model usage = elim (lookup model usage) [
  | some v ↦ (model, v)
  | none ↦ elim (find_base model usage) [ some v ↦ (model, v) | none ↦ fallback model usage ]
]

unfoldable pub result_of : Line → String → Result
unfolding usage_of
result_of l model = record {
  is_error = l.is_error;
  subtype = l.subtype;
  model = (usage_of model l.model_usage).0;
  context_window = (usage_of model l.model_usage).1;
}

-- A preview that finds the 256 places of the channel taken is dropped.
unfoldable pub preview : Line → TurnRequest → TurnRequest
preview l r =
    let shown =
      if l.kind == "stream_event"
        && l.event_type == "content_block_delta"
        && l.delta_type == "text_delta"
        && not (l.delta_text == "")
        && ltb (length r.deltas) 256
      then record r { deltas = r.deltas ++ l.delta_text ∷ [] }
      else r in
    if l.message_model == "" then shown else record shown { model = l.message_model }

-- The first turn sees the line, if it has a request.
unfoldable pub see : Line → List (Option ℕ) → List (ℕ × TurnRequest) → List (ℕ × TurnRequest)
unfolding lookup insert preview
see l [] requests = requests
see l (none ∷ ts) requests = requests
see l (some i ∷ ts) requests = elim (lookup i requests) [
  | none ↦ requests
  | some r ↦ insert i (preview l r) requests
]

unfoldable pub mark_turn : Line → List (Option ℕ) → List (Option ℕ)
unfolding marks_spontaneous_turn
mark_turn l [] = if marks_spontaneous_turn l.kind l.subtype l.event_type then none ∷ [] else []
mark_turn l (t ∷ ts) = t ∷ ts

-- The answer to the request of the turn that ends.
unfoldable pub answer_turn :
    Line → Option ℕ → List (ℕ × TurnRequest) → Option (List (ℕ × TurnRequest))
unfolding finish lookup result_of
answer_turn l none requests = some requests
answer_turn l (some i) requests =
    finish i (result_of l (elim (lookup i requests) [ none ↦ "" | some r ↦ r.model ])) requests

unfoldable pub end_turn : Line → ℕ → Process → Option Process
unfolding answer_turn
end_turn l now p = elim p.turns [
  | [] ↦ some (record p { last_used = now })
  | t ∷ ts ↦
      Option.map (λ rs. record p { turns = ts; requests = rs; last_used = now })
        (answer_turn l t p.requests)
]

-- `handleLine` but for the control requests.
unfoldable pub handle_line : Line → ℕ → Process → Option Process
unfolding end_turn see mark_turn
handle_line l now p =
    if l.kind == "control_request" || l.kind == "control_cancel_request"
    then some p
    else if l.kind == "result"
    then end_turn l now p
    else some (
        let turns = mark_turn l p.turns in
        record p { turns = turns; requests = see l turns p.requests })

abbrev pub process_exited : Result
process_exited = record {
  is_error = true;
  subtype = "process_exited";
  model = "";
  context_window = 0;
}

unfoldable pub finish_all :
    List (Option ℕ) → List (ℕ × TurnRequest) → Option (List (ℕ × TurnRequest))
unfolding finish
finish_all [] requests = some requests
finish_all (none ∷ ts) requests = finish_all ts requests
finish_all (some i ∷ ts) requests = elim (finish i process_exited requests) [
  | none ↦ none
  | some rs ↦ finish_all ts rs
]

-- The child has exited.
unfoldable pub died : Process → Option Process
unfolding finish_all
died p =
    Option.map (λ rs. record p { turns = []; requests = rs; stopping = true })
      (finish_all p.turns p.requests)

-- What `stop` sets before it closes the child's input.
unfoldable pub stop : Process → Process
stop p = record p { stopping = true }

-- ===== src/Sender/Tail.antt =====
-- internal/sender/tail.go: the goroutine of tailTurn, from the wait for the log on. What the waits, the
-- seek and the reads find is an argument; so are the backend's tests of a line.
mod Turn
mod Exit
mod Examples
use sr_code.Prelude.{
  ℕ, zero, suc, String, Bool, true, false, ◌&&◌, ◌||◌, Option, none, some, List, [], ◌∷◌, ◌++◌,
  nat_eq, if◌then◌else◌,
}
use mathlib.Core.Option
use Prim.Native.String.{◌++◌ as str_append}

abbrev pub is_empty {ℓ} : {A : Type ℓ} → List A → Bool
is_empty [] = true
is_empty (x ∷ xs) = false

-- A line that goes out keeps its bytes; its type is read from them. An exit has its reason.
pub data StreamEvent : Type 0 where
  line_event : List ℕ → StreamEvent
  error_event : String → StreamEvent
  exit_event : String → StreamEvent

pub record TailConfig : Type 0 where
  pub turn_complete : List ℕ → Bool
  pub turn_aborted : List ℕ → Bool

-- `skip_completions` is the configuration's, counted down; `is_closed` says that the channel is closed.
pub record Tail : Type 0 where
  pub pending : List ℕ
  pub skip_completions : ℕ
  pub out : List StreamEvent
  pub is_closed : Bool

abbrev pub start : ℕ → Tail
start skip = record { pending = []; skip_completions = skip; out = []; is_closed = false }

unfoldable pub send : StreamEvent → Tail → Tail
send ev t = record t { out = t.out ++ ev ∷ [] }

-- `emitExitReason`, and `emitExit` with no reason; then the channel is closed.
unfoldable pub emit_exit : String → Tail → Tail
unfolding send
emit_exit reason t = record (send (exit_event reason) t) { is_closed = true }

unfoldable pub emit_io_error : String → Tail → Tail
unfolding send emit_exit
emit_io_error message t = emit_exit "tail_error" (send (error_event message) t)

-- One round of `openWhenReady`: the log is there; or it is not, and the context is done, the deadline has
-- passed, or the ticker goes. After the deadline the context may be done when the caller looks.
pub data Try : Type 0 where
  opens ctx_done ticks : Try
  deadline : Bool → Try

-- A failed open has the test of the context after it.
pub data Opened : Type 0 where
  still_waits is_open : Opened
  failed : Bool → Opened

unfoldable pub not_appeared : String → String
not_appeared path = str_append "session jsonl did not appear: " path

-- `openWhenReady`, over the rounds so far.
unfoldable pub open_when_ready : String → List Try → Tail → Opened × Tail
unfolding send not_appeared
open_when_ready path [] t = (still_waits, t)
open_when_ready path (opens ∷ tries) t = (is_open, t)
open_when_ready path (ctx_done ∷ tries) t = (failed true, t)
open_when_ready path (deadline done ∷ tries) t =
    (failed done, send (error_event (not_appeared path)) t)
open_when_ready path (ticks ∷ tries) t = open_when_ready path tries t

-- What the goroutine does up to its loop; `seek_error` is that of the seek to the offset.
unfoldable pub begin_tail : Opened → Option String → Tail → Tail
unfolding emit_exit emit_io_error
begin_tail still_waits seek_error t = t
begin_tail (failed true) seek_error t = emit_exit "" t
begin_tail (failed false) seek_error t = record t { is_closed = true }
begin_tail is_open seek_error t = elim seek_error [
  | none ↦ t
  | some err ↦ emit_io_error (str_append "tail seek: " err) t
]

unfoldable pub tail_turn : String → ℕ → List Try → Option String → Tail
unfolding open_when_ready begin_tail
tail_turn path skip tries seek_error =
    let (opened, t) = open_when_ready path tries (start skip) in begin_tail opened seek_error t

unfoldable pub complete_line : List ℕ → Tail → Tail
unfolding send emit_exit
complete_line line t = elim t.skip_completions [
  | zero ↦ emit_exit "" t
  | suc n ↦ send (line_event line) (record t { skip_completions = n })
]

unfoldable pub aborted_line : List ℕ → Tail → Tail
unfolding send emit_exit
aborted_line line t =
    emit_exit "turn_aborted"
      (send (error_event "turn aborted before completion") (send (line_event line) t))

-- `bytes.TrimRight(pending, "\r\n")`
unfoldable pub trim_line : List ℕ → List ℕ
trim_line [] = []
trim_line (b ∷ bs) =
    let rest = trim_line bs in
    if (nat_eq b 10 || nat_eq b 13) && is_empty rest then [] else b ∷ rest

-- What the loop does with a line without its end.
unfoldable pub take_line : TailConfig → List ℕ → Tail → Tail
unfolding send complete_line aborted_line
take_line cfg line t =
    if is_empty line
    then t
    else if cfg.turn_complete line
    then complete_line line t
    else if cfg.turn_aborted line
    then aborted_line line t
    else send (line_event line) t

-- A byte more of `pending`; with `\n` the line is complete.
unfoldable pub read_byte : TailConfig → ℕ → Tail → Tail
unfolding take_line trim_line
read_byte cfg b t =
    if nat_eq b 10
    then take_line cfg (trim_line (t.pending ++ b ∷ [])) (record t { pending = [] })
    else record t { pending = t.pending ++ b ∷ [] }

-- The inner loop, to the end of the file or of the turn.
unfoldable pub read_all : TailConfig → List ℕ → Tail → Tail
unfolding read_byte
read_all cfg [] t = t
read_all cfg (b ∷ bs) t = if t.is_closed then t else read_all cfg bs (read_byte cfg b t)

-- A read fails.
unfoldable pub fail_read : String → Tail → Tail
unfolding emit_io_error
fail_read err t = if t.is_closed then t else emit_io_error (str_append "tail read: " err) t

-- The context is cancelled.
unfoldable pub cancel : Tail → Tail
unfolding emit_exit
cancel t = if t.is_closed then t else emit_exit "" t

-- The outer loop over the polls.
unfoldable pub read_polls : TailConfig → List (List ℕ) → Tail → Tail
unfolding read_all
read_polls cfg [] t = t
read_polls cfg (bytes ∷ polls) t = read_polls cfg polls (read_all cfg bytes t)

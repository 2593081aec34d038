-- ===== src/Hook.antt =====
-- internal/hook/hook.go: the broker of permission prompts. Go's maps are association lists, and the
-- goroutines that block in `Submit` are calls of the state, each numbered; a run of the program is a
-- sequence of steps, a step being what happens between two points where a goroutine can be suspended.
-- The random id of a new prompt (`newID`) and the time are arguments.
mod Prompts
mod Calls
mod AutoApprove
mod Notify
mod Examples
use sr_code.Prelude.{
  ℕ, String, Bool, true, false, not, ◌&&◌, Option, none, some, List, [], ◌∷◌, map, ◌==◌, nat_has_eq,
  string_has_eq, if◌then◌else◌,
}
use sr_code.Prelude.Dict.{lookup, insert, remove}
use mathlib.Core.Option

pub record Pending : Type 0 where
  pub id : String
  pub session_id : String
  pub event : String
  pub tool_name : String
  pub tool_input : String
  pub cwd : String
  pub allow_always : Bool
  pub created_at : ℕ

pub record Response : Type 0 where
  pub behavior : String
  pub reason : String
  pub scope : String
  pub answers : List (String × String)

-- `response` is the channel of capacity one.
pub record PendingEntry : Type 0 where
  pub prompt : Pending
  pub response : Option Response

pub record Event : Type 0 where
  pub session_id : String
  pub tool_use_id : String
  pub event : String
  pub tool_name : String
  pub tool_input : String
  pub cwd : String
  pub allow_always : Bool

-- What `Submit` returns: a response, or the error of its context.
pub data Outcome : Type 0 where
  answered : Response → Outcome
  ctx_error : Outcome

-- The part of the manager that a prompt passes through.
pub record Manager : Type 0 where
  pub pending : List (String × PendingEntry)
  pub auto_approve : List (String × Bool)
  pub auto_path : String

pub data Error : Type 0 where
  not_found session_scope_needs_allow session_not_available already_resolved : Error

unfoldable pub is_auto_approve : String → Manager → Bool
unfolding lookup
is_auto_approve sid m = Option.get_or (lookup sid m.auto_approve) false

abbrev pub auto_response : Response
auto_response = record { behavior = "allow"; reason = "auto-approve"; scope = ""; answers = [] }

-- `none` is `(Response{}, false)`: the user is asked.
unfoldable pub quick_decide : Event → Manager → Option Response
unfolding is_auto_approve
quick_decide ev m =
    if ev.tool_name == "AskUserQuestion"
    then none
    else if is_auto_approve ev.session_id m
    then some auto_response
    else none

unfoldable pub new_entry : Event → String → ℕ → PendingEntry
new_entry ev id now = record {
  prompt = record {
    id = id;
    session_id = ev.session_id;
    event = ev.event;
    tool_name = ev.tool_name;
    tool_input = ev.tool_input;
    cwd = ev.cwd;
    allow_always = ev.allow_always;
    created_at = now;
  };
  response = none;
}

-- How far a call of `submit` has come: it waits in its `select`, or has left it and not yet run the
-- deferred deletion, or has returned.
pub data Progress : Type 0 where
  returned : Outcome → Progress
  waiting : String → Progress
  leaving : String → Outcome → Progress

-- `submit` up to its `select`.
unfoldable pub submit : Event → String → ℕ → Manager → Progress × Manager
unfolding quick_decide insert new_entry
submit ev id now m = elim (quick_decide ev m) [
  | some r ↦ (returned (answered r), m)
  | none ↦ (waiting id, record m { pending = insert id (new_entry ev id now) m.pending })
]

-- The `select`: a call that waits goes on if a response is there, which it takes out of the channel, or
-- if its context is done. (With both ready Go picks either: `prefer_context` is its choice.)
unfoldable pub wake : Bool → Bool → Progress → Manager → Progress × Manager
unfolding lookup insert
wake ctx_done prefer_context (returned o) m = (returned o, m)
wake ctx_done prefer_context (leaving id o) m = (leaving id o, m)
wake ctx_done prefer_context (waiting id) m = elim (lookup id m.pending) [
  | none ↦ (if ctx_done then leaving id ctx_error else waiting id, m)
  | some p ↦ elim p.response [
    | none ↦ (if ctx_done then leaving id ctx_error else waiting id, m)
    | some r ↦ if ctx_done && prefer_context then (leaving id ctx_error, m) else (
      leaving id (answered r),
      record m { pending = insert id (record p { response = none }) m.pending },
    )
  ]
]

-- The deferred deletion.
unfoldable pub clean_up : Progress → Manager → Progress × Manager
unfolding remove
clean_up (returned o) m = (returned o, m)
clean_up (waiting id) m = (waiting id, m)
clean_up (leaving id o) m = (returned o, record m { pending = remove id m.pending })

unfoldable pub deliver : String → PendingEntry → Response → Manager → Option Error × Manager
unfolding insert
deliver id p r m = elim p.response [
  | some earlier ↦ (some already_resolved, m)
  | none ↦ (none, record m { pending = insert id (record p { response = some r }) m.pending })
]

-- `Respond` up to its send: the lookup, and the checks of what it has found. `none` is no error.
unfoldable pub begin_respond : String → Response → Manager → Option Error
unfolding lookup
begin_respond id r m = elim (lookup id m.pending) [
  | none ↦ some not_found
  | some p ↦
      if r.scope == "session"
      then (if not (r.behavior == "allow")
          then some session_scope_needs_allow
          else if not p.prompt.allow_always
          then some session_not_available
          else none)
      else none
]

-- `Respond` with nothing between its lookup and its send.
unfoldable pub respond : String → Response → Manager → Option Error × Manager
unfolding lookup deliver
respond id r m = elim (lookup id m.pending) [
  | none ↦ (some not_found, m)
  | some p ↦
      if r.scope == "session"
      then (if not (r.behavior == "allow")
          then (some session_scope_needs_allow, m)
          else if not p.prompt.allow_always
          then (some session_not_available, m)
          else deliver id p r m)
      else deliver id p r m
]

unfoldable pub list : Manager → List Pending
list m = map (λ p. p.1.prompt) m.pending

-- The file of the flags decodes to a map, or cannot be read.
pub record World : Type 0 where
  pub manager : Manager
  pub disk : Option (List (String × Bool))

load_flags : List (String × Bool) → List (String × Bool) → List (String × Bool)
unfolding insert
load_flags [] m = m
load_flags ((k, v) ∷ rest) m = load_flags rest (if v then insert k true m else m)

unfoldable pub new : String → Option (List (String × Bool)) → Manager
unfolding load_flags
new auto_path disk =
    let empty : Manager = record { pending = []; auto_approve = []; auto_path = auto_path } in
    if auto_path == ""
    then empty
    else elim disk [ none ↦ empty | some f ↦ record empty { auto_approve = load_flags f [] } ]

-- `writable` is whether the write of the temporary file and the rename succeed.
unfoldable pub set_auto_approve : Bool → String → Bool → World → World
unfolding insert remove
set_auto_approve writable sid enabled w =
    let flags =
      if enabled
      then insert sid true w.manager.auto_approve
      else remove sid w.manager.auto_approve in
    record {
      manager = record w.manager { auto_approve = flags };
      disk = if w.manager.auto_path == "" then w.disk else if writable then some flags else w.disk;
    }

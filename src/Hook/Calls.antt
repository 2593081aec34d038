-- ===== src/Hook/Calls.antt =====
-- Any number of calls of `submit` and of `Respond` at once, and changes of the flags, in any order. A
-- call of either can be suspended between its lookup, its channel operation and its deletion.
mod Owners
pub mod Sound
pub mod Ended
mod Channels
pub mod Answers
use sr_code.Prelude.{ℕ, String, ◌≡◌, Bool, Option, none, some, List, [], nat_has_eq, string_has_eq}
use sr_code.Prelude.Dict.{lookup, insert, remove}
use mathlib.Core.Option
use sr_code.Hook.{
  Response, PendingEntry, Event, Manager, Error, not_found, already_resolved, Progress, returned,
  waiting, leaving, submit, wake, clean_up, deliver, begin_respond,
}

-- `replies` are the calls of `Respond` that have found their entry and not yet sent; `gone` the entries
-- that are out of the map, which such a call may still hold. An entry is known by its prompt's id.
pub record System : Type 0 where
  pub manager : Manager
  pub calls : List (ℕ × Progress)
  pub replies : List (ℕ × (String × Response))
  pub gone : List (String × PendingEntry)

abbrev pub idle : System
idle = record {
  manager = record { pending = []; auto_approve = []; auto_path = "" };
  calls = [];
  replies = [];
  gone = [];
}

abbrev pub entered : ℕ → Event → String → ℕ → System → System
entered n ev id now s = record s {
  manager = (submit ev id now s.manager).1;
  calls = insert n (submit ev id now s.manager).0 s.calls;
}

abbrev pub resumed : ℕ → Progress → Bool → Bool → System → System
resumed n q ctx_done prefer_context s = record s {
  manager = (wake ctx_done prefer_context q s.manager).1;
  calls = insert n (wake ctx_done prefer_context q s.manager).0 s.calls;
}

-- The entry that goes out of the map.
abbrev pub dropped : Progress → System → List (String × PendingEntry)
dropped (returned o) s = s.gone
dropped (waiting id) s = s.gone
dropped (leaving id o) s = elim (lookup id s.manager.pending) [
  | none ↦ s.gone
  | some p ↦ insert id p s.gone
]

abbrev pub cleaned : ℕ → Progress → System → System
cleaned n q s = record s {
  manager = (clean_up q s.manager).1;
  calls = insert n (clean_up q s.manager).0 s.calls;
  gone = dropped q s;
}

-- The send, to an entry that may have left the map.
unfoldable pub send_response : String → Response → System → Option Error × System
unfolding lookup insert deliver
send_response id r s = elim (lookup id s.manager.pending) [
  | some p ↦ let (err, m) = deliver id p r s.manager in (err, record s { manager = m })
  | none ↦ elim (lookup id s.gone) [
    | none ↦ (some not_found, s)
    | some p ↦ elim p.response [
      | some earlier ↦ (some already_resolved, s)
      | none ↦ (none, record s { gone = insert id (record p { response = some r }) s.gone })
    ]
  ]
]

abbrev pub sent : ℕ → String → Response → System → System
sent k id r s = record ((send_response id r s).1) { replies = remove k s.replies }

-- The random id of a new prompt is one that has not been used.
pub data Step (s : System) : System → Type 0 where
  enters :
      (n : ℕ) (ev : Event) (id : String) (now : ℕ)
      → lookup n s.calls ≡ none
      → lookup id s.manager.pending ≡ none
      → lookup id s.gone ≡ none
      → Step s (entered n ev id now s)
  resumes :
      (n : ℕ) (q : Progress) (ctx_done prefer_context : Bool)
      → lookup n s.calls ≡ some q
      → Step s (resumed n q ctx_done prefer_context s)
  cleans : (n : ℕ) (q : Progress) → lookup n s.calls ≡ some q → Step s (cleaned n q s)
  replies :
      (k : ℕ) (id : String) (r : Response)
      → begin_respond id r s.manager ≡ none
      → Step s (record s { replies = insert k (id, r) s.replies })
  sends :
      (k : ℕ) (id : String) (r : Response)
      → lookup k s.replies ≡ some (id, r)
      → Step s (sent k id r s)
  flags :
      (m : List (String × Bool))
      → Step s (record s { manager = record s.manager { auto_approve = m } })

-- From one state to another in any number of steps.
pub data Run (s : System) : System → Type 0 where
  here : Run s s
  further : {t u : System} → Run s t → Step t u → Run s u

-- ===== src/Router/Foreign.antt =====
-- internal/router/foreignwatch.go: the watch, for one session, over the turns that usher did not start.
-- The log is the list of its bytes, each with a mark that usher's turn wrote it, which the code does
-- not see. A pass of the watcher is cut where it takes and gives up `sendMu`.
mod Regions
mod Steps
mod Once
mod Examples
use sr_code.Prelude.{
  ℕ, ◌-◌, Bool, true, false, not, ◌&&◌, ◌||◌, Option, none, some, List, [], ◌∷◌, map, leb, nat_eq,
  if◌then◌else◌, length, take, drop,
}
use mathlib.Core.Option

-- How far the pass has come: the size of the file is known, or has also been compared with the base.
pub data Scan : Type 0 where
  idle : Scan
  measured : ℕ → Scan
  judged : ℕ → ℕ → Scan

-- `relayed` has the regions that were given to the handler, the latest first.
pub record Watch : Type 0 where
  pub log : List (ℕ × Bool)
  pub busy : Bool
  pub queued : Bool
  pub foreign_base : Option ℕ
  pub scan : Scan
  pub relayed : List (ℕ × ℕ)

abbrev pub new : Bool → List (ℕ × Bool) → Watch
new queued log = record {
  log = log;
  busy = false;
  queued = queued;
  foreign_base = none;
  scan = idle;
  relayed = [];
}

abbrev is_empty {ℓ} : {A : Type ℓ} → List A → Bool
is_empty [] = true
is_empty (x ∷ xs) = false

unfoldable pub set_foreign_base : ℕ → Watch → Watch
set_foreign_base size w = record w { foreign_base = some size }

-- The file is there, and its size can be read.
unfoldable pub bump_foreign_base : Watch → Watch
unfolding set_foreign_base
bump_foreign_base w = set_foreign_base (length w.log) w

-- The session's part of `markSendIdle`.
unfoldable pub turn_ends : Watch → Watch
unfolding bump_foreign_base
turn_ends w = bump_foreign_base (record w { busy = false })

unfoldable pub stat : Watch → Watch
stat w = record w { scan = measured (length w.log) }

-- The first critical section: a file that is seen for the first time is taken as read.
unfoldable pub judge : ℕ → Watch → Watch
unfolding set_foreign_base
judge size w = elim w.foreign_base [
  | none ↦ record (set_foreign_base size w) { scan = idle }
  | some base ↦
      if w.busy || w.queued || leb size base
      then record w { scan = idle }
      else record w { scan = judged base size }
]

abbrev pub is_line_end : ℕ → Bool
is_line_end b = nat_eq b 10 || nat_eq b 13

-- `bytes.TrimRight(buf, "\r\n")`
pub trim_line_ends : List ℕ → List ℕ
trim_line_ends [] = []
trim_line_ends (b ∷ bs) =
    let rest = trim_line_ends bs in if is_line_end b && is_empty rest then [] else b ∷ rest

-- What follows the last `\n`, or all.
pub after_last : List ℕ → List ℕ → List ℕ
after_last line [] = line
after_last line (b ∷ bs) = after_last (if nat_eq b 10 then bs else line) bs

abbrev pub window : ℕ
window = 8192

unfoldable pub last_file_line : ℕ → List ℕ → List ℕ
unfolding trim_line_ends after_last
last_file_line size bytes =
    let buf = trim_line_ends (drop (size - window) (take size bytes)) in after_last buf buf

unfoldable pub bytes_of : List (ℕ × Bool) → List ℕ
bytes_of log = map (λ b. b.0) log

-- `nowBusy || r.foreignBase[id] != base`, where a missing base reads as 0
unfoldable pub is_overtaken : ℕ → Watch → Bool
is_overtaken base w = w.busy || not (nat_eq (Option.get_or w.foreign_base 0) base)

-- The second critical section, and the relay.
unfoldable pub commit : ℕ → ℕ → Watch → Watch
unfolding set_foreign_base is_overtaken
commit base size w =
    if is_overtaken base w
    then record w { scan = idle }
    else record (set_foreign_base size w) { scan = idle; relayed = (base, size) ∷ w.relayed }

-- The rest of a pass after its first critical section; `is_turn_complete` is the backend's test of a
-- line.
unfoldable pub finish : (List ℕ → Bool) → ℕ → ℕ → Watch → Watch
unfolding last_file_line bytes_of commit
finish is_turn_complete base size w =
    if is_turn_complete (last_file_line size (bytes_of w.log))
    then commit base size w
    else record w { scan = idle }

-- The bytes of the log that a region has.
unfoldable pub region : ℕ → ℕ → List (ℕ × Bool) → List (ℕ × Bool)
region base size log = take (size - base) (drop base log)

abbrev pub mark : Bool → List ℕ → List (ℕ × Bool)
mark own bytes = map (λ b. (b, own)) bytes

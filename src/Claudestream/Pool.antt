-- ===== src/Claudestream/Pool.antt =====
-- internal/claudestream/manager.go: the live children, at most `max_live` of them.
use sr_code.Prelude.{
  ℕ, zero, suc, String, Bool, true, false, not, ◌&&◌, Option, none, some, List, [], ◌∷◌, map, ltb,
  leb, nat_has_eq, string_has_eq, if◌then◌else◌, length,
}
use sr_code.Prelude.Dict.{lookup, insert, remove}
use sr_code.Prelude.Int.{ℤ, pos, negsuc}
use sr_code.Claudestream.{Process}

pub record Manager : Type 0 where
  pub max_live : ℕ
  pub processes : List (String × Process)

unfoldable pub new : ℤ → Manager
new (pos (suc n)) = record { max_live = suc n; processes = [] }
new (pos zero) = record { max_live = 8; processes = [] }
new (negsuc n) = record { max_live = 8; processes = [] }

abbrev pub new_process : ℕ → Process
new_process now = record { turns = []; requests = []; next = 0; last_used = now; stopping = false }

unfoldable pub is_busy : Process → Bool
is_busy p = ltb 0 (length p.turns)

-- One round of the loop over the children; the victim so far is `v`.
unfoldable pub better : String × Process → Option (String × Process) → Option (String × Process)
unfolding is_busy
better (id, p) none = if is_busy p then none else some (id, p)
better (id, p) (some (vid, v)) =
    if not (is_busy p) && ltb p.last_used v.last_used then some (id, p) else some (vid, v)

unfoldable pub pick_victim :
    List (String × Process) → Option (String × Process) → Option (String × Process)
unfolding better
pick_victim [] v = v
pick_victim (e ∷ es) v = pick_victim es (better e v)

pub data Ensured : Type 0 where
  existing : Ensured
  started : Ensured
  all_busy : Ensured
  start_failed : Ensured

-- The start of the child is outside the program; `start_ok` is whether it succeeds.
unfoldable pub start : ℕ → Bool → String → Manager → Ensured × Manager
unfolding insert
start now start_ok id m =
    if start_ok
    then (started, record m { processes = insert id (new_process now) m.processes })
    else (start_failed, m)

unfoldable pub make_room : ℕ → Bool → String → Manager → Ensured × Manager
unfolding start pick_victim remove
make_room now start_ok id m =
    if leb m.max_live (length m.processes)
    then elim (pick_victim m.processes none) [
      | none ↦ (all_busy, m)
      | some (vid, v) ↦ start now start_ok id (record m { processes = remove vid m.processes })
    ]
    else start now start_ok id m

unfoldable pub ensure : ℕ → Bool → String → Manager → Ensured × Manager
unfolding make_room lookup insert
ensure now start_ok id m = elim (lookup id m.processes) [
  | some p ↦
      (existing, record m { processes = insert id (record p { last_used = now }) m.processes })
  | none ↦ make_room now start_ok id m
]

unfoldable pub kill : String → Manager → Manager
unfolding remove
kill id m = record m { processes = remove id m.processes }

-- A child that has exited goes, unless another one has taken its place.
unfoldable pub exited : String → Bool → Manager → Manager
unfolding remove
exited id is_current m = if is_current then record m { processes = remove id m.processes } else m

unfoldable pub has : String → Manager → Bool
unfolding lookup
has id m = elim (lookup id m.processes) [ none ↦ false | some p ↦ true ]

unfoldable pub live_sessions : Manager → List String
live_sessions m = map (λ e. e.0) m.processes

abbrev pub shutdown : Manager → Manager
shutdown m = record m { processes = [] }

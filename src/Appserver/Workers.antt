-- ===== src/Appserver/Workers.antt =====
-- internal/appserver/manager.go: one worker for each live session. A worker is shared by the map and
-- by the goroutines that have found it there, so that the map has its address. What happens between two
-- holds of `mu` is one function; what the clients say of themselves in it is an argument.
mod Victim
mod Capacity
mod Kill
mod Examples
use sr_code.Prelude.{
  ℕ, ◌+◌, ◌-◌, String, Bool, true, false, not, ◌&&◌, ◌||◌, Option, none, some, List, [], ◌∷◌, ltb,
  leb, nat_eq, ◌==◌, nat_has_eq, string_has_eq, if◌then◌else◌, length,
}
use sr_code.Prelude.Dict.{lookup, insert, remove}
use mathlib.Core.Option

-- `client` is the number of the client; `ready` that of the channel, `none` being nil.
pub record Worker : Type 0 where
  pub client : ℕ
  pub ready : Option ℕ
  pub err : Bool
  pub busy : Bool
  pub last_used : ℕ
  pub model : String

pub record Manager : Type 0 where
  pub max_live : ℕ
  pub workers : List (String × ℕ)
  pub heap : List (ℕ × Worker)
  pub closed : List (ℕ × Bool)
  pub starting : ℕ

-- `Running` and `Busy` of the clients.
pub record Clients : Type 0 where
  pub is_running : ℕ → Bool
  pub has_turn : ℕ → String → Bool

abbrev pub new_manager : ℕ → Manager
new_manager max_live = record {
  max_live = if leb max_live 0 then 8 else max_live;
  workers = [];
  heap = [];
  closed = [];
  starting = 0;
}

abbrev pub is_set {ℓ} : {A : Type ℓ} → Option A → Bool
is_set none = false
is_set (some a) = true

-- The worker may be put out.
unfoldable pub is_idle : Clients → String → Worker → Bool
is_idle clients id w = not (is_set w.ready || w.busy || clients.has_turn w.client id)

-- The victim so far is the better one.
unfoldable pub stands : Clients → Worker → Worker → Bool
stands clients w victim =
    let w_running = clients.is_running w.client in
    let victim_running = clients.is_running victim.client in
    (w_running && not victim_running)
    || (not (w_running && not victim_running)
        && not (victim_running && not w_running)
        && not (ltb w.last_used victim.last_used))

unfoldable pub choose :
    Clients → String → Worker → Option (String × Worker) → Option (String × Worker)
unfolding is_idle stands
choose clients id w none = if is_idle clients id w then some (id, w) else none
choose clients id w (some (victim_id, victim)) =
    if not (is_idle clients id w) || stands clients w victim
    then some (victim_id, victim)
    else some (id, w)

-- The loop over the workers.
unfoldable pub pick :
    Clients
    → List (ℕ × Worker)
    → List (String × ℕ)
    → Option (String × Worker)
    → Option (String × Worker)
unfolding choose lookup
pick clients heap [] victim = victim
pick clients heap ((id, at) ∷ rest) victim =
    pick clients heap rest
      (elim (lookup at heap) [ none ↦ victim | some w ↦ choose clients id w victim ])

-- What `reserve` returns: a free place, the client that was put out, or an error.
pub data Reserved : Type 0 where
  free_place : Reserved
  put_out : ℕ → Reserved
  all_busy : Reserved

unfoldable pub reserve : Clients → Manager → Reserved × Manager
unfolding pick remove
reserve clients m =
    if ltb (length m.workers + m.starting) m.max_live
    then (free_place, record m { starting = m.starting + 1 })
    else elim (pick clients m.heap m.workers none) [
      | none ↦ (all_busy, m)
      | some (victim_id, victim) ↦ (
        put_out victim.client,
        record m { workers = remove victim_id m.workers; starting = m.starting + 1 },
      )
    ]

unfoldable pub finish_start : Manager → Manager
finish_start m = record m { starting = m.starting - 1 }

-- `at` is the address of a new worker.
unfoldable pub thread_started : String → ℕ → ℕ → ℕ → Manager → Manager
unfolding insert finish_start
thread_started id at client now m =
    let w : Worker = record {
      client = client;
      ready = none;
      err = false;
      busy = false;
      last_used = now;
      model = "";
    } in
    record (finish_start m) { workers = insert id at m.workers; heap = insert at w m.heap }

-- Another caller may have put a worker into the map; then this one is dropped.
unfoldable pub resume_begins : String → ℕ → Worker → Manager → Bool × Manager
unfolding lookup insert finish_start
resume_begins id at w m = elim (lookup id m.workers) [
  | some existing ↦ (false, finish_start m)
  | none ↦ (
    true,
    record (finish_start m) { workers = insert id at m.workers; heap = insert at w m.heap },
  )
]

unfoldable pub is_owned : String → ℕ → Manager → Bool
unfolding lookup
is_owned id at m = elim (lookup id m.workers) [ none ↦ false | some other ↦ nat_eq other at ]

-- `channel` is the worker's own; `failed` is the error of the client's resume.
unfoldable pub resume_ends : String → ℕ → Worker → ℕ → Bool → Manager → Manager
unfolding insert remove is_owned
resume_ends id at w channel failed m =
    let owned = is_owned id at m in
    let err = failed || not owned in
    record m {
      workers = if err && owned then remove id m.workers else m.workers;
      heap = insert at (record w { err = err; ready = none }) m.heap;
      closed = insert channel true m.closed;
    }

-- What a caller of `getOrResume` finds.
pub data Found : Type 0 where
  is_ready : ℕ → Bool → Found
  wait_for : ℕ → Found
  replaced : ℕ → Found
  missing : Found

abbrev set_model : String → Worker → Worker
set_model model w = if model == "" then w else record w { model = model }

-- A worker with another model is taken out of the map, and its client is shut down.
unfoldable pub find_worker : String → ℕ → Worker → String → ℕ → Manager → Found × Manager
unfolding insert remove
find_worker id at w model now m =
    if not (model == "") && not (w.model == "") && not (model == w.model)
    then (replaced w.client, record m { workers = remove id m.workers })
    else elim w.ready [
      | none ↦ (
        is_ready at w.err,
        record m { heap = insert at (record (set_model model w) { last_used = now }) m.heap },
      )
      | some channel ↦ (wait_for channel, record m { heap = insert at (set_model model w) m.heap })
    ]

unfoldable pub get_or_resume : String → String → ℕ → Manager → Found × Manager
unfolding lookup find_worker
get_or_resume id model now m = elim (lookup id m.workers) [
  | none ↦ (missing, m)
  | some at ↦ elim (lookup at m.heap) [
    | none ↦ (missing, m)
    | some w ↦ find_worker id at w model now m
  ]
]

-- The turn is refused if one is on the way.
unfoldable pub begin_turn : Clients → String → ℕ → Worker → ℕ → Manager → Bool × Manager
unfolding insert
begin_turn clients id at w now m =
    if w.busy || clients.has_turn w.client id
    then (false, m)
    else (true, record m { heap = insert at (record w { busy = true; last_used = now }) m.heap })

unfoldable pub end_turn : String → ℕ → Worker → ℕ → Manager → Manager
unfolding insert is_owned
end_turn id at w now m =
    if is_owned id at m
    then record m { heap = insert at (record w { busy = false; last_used = now }) m.heap }
    else m

-- `Kill` under the lock: the worker, which is no longer in the map.
unfoldable pub kill : String → Manager → Option ℕ × Manager
unfolding lookup remove
kill id m = (lookup id m.workers, record m { workers = remove id m.workers })

-- Every address in use is that of a worker. The two reads of `w.ready` in `Kill` and `Shutdown`, which do not hold the lock: the test, and the
-- channel from which is received.
unfoldable pub tests_ready : ℕ → Manager → Bool
unfolding lookup
tests_ready at m = elim (lookup at m.heap) [ none ↦ false | some w ↦ is_set w.ready ]

pub data Receive : Type 0 where
  goes_on : Receive
  waits : ℕ → Receive
  blocks_forever : Receive

unfoldable pub receive_ready : ℕ → Manager → Receive
unfolding lookup
receive_ready at m = elim (lookup at m.heap) [
  | none ↦ blocks_forever
  | some w ↦ elim w.ready [
    | none ↦ blocks_forever
    | some channel ↦
        if Option.get_or (lookup channel m.closed) false then goes_on else waits channel
  ]
]

unfoldable pub shutdown : Manager → Manager
shutdown m = record m { workers = [] }

unfoldable pub has : Clients → String → Manager → Bool
unfolding lookup
has clients id m = elim (lookup id m.workers) [
  | none ↦ false
  | some at ↦ elim (lookup at m.heap) [
    | none ↦ false
    | some w ↦ not (is_set w.ready) && not w.err && clients.is_running w.client
  ]
]

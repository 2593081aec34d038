-- ===== src/Router/Queue.antt =====
-- internal/router/router.go: the turns of the sessions. A session runs one turn at a time, and what
-- is sent meanwhile waits in its queue. A token (the Go pointer) is a number; the goroutine of a
-- turn is an executor under the number of its token.
mod Fifo
mod Owned
mod Launching
mod Leaving
mod Serving
mod Steps
mod Ends
mod Order
mod Bounds
mod Examples
use sr_code.Prelude.{
  ℕ, ◌+◌, String, Bool, true, false, not, ◌||◌, Option, none, some, List, [], ◌∷◌, ◌++◌, map, leb,
  nat_eq, nat_has_eq, string_has_eq, if◌then◌else◌, length,
}
use sr_code.Prelude.Dict.{lookup, insert, remove}
use mathlib.Core.Option

pub record PendingSend : Type 0 where
  pub text : String
  pub model : String

-- How a send leaves the queue: a goroutine takes it, or it is dropped.
pub data Outcome : Type 0 where
  taken : Outcome
  dropped : Outcome

-- `launch` is the send that the goroutine has still to start, between the critical section that
-- took it and `startTurn`.
pub record Executor : Type 0 where
  pub session : String
  pub launch : Option PendingSend

-- Three histories, in order: `accepted` has the sends that were taken in without an error, `settled`
-- those that have left the queue (or never had to wait), and `launched` those whose goroutine has
-- started the turn, or has found the session gone.
pub record Router : Type 0 where
  pub active_send : List (String × ℕ)
  pub send_queue : List (String × List PendingSend)
  pub executors : List (ℕ × Executor)
  pub next_token : ℕ
  pub accepted : List (String × PendingSend)
  pub settled : List (String × (PendingSend × Outcome))
  pub launched : List (String × (PendingSend × Bool))

abbrev pub max_queued_sends : ℕ
max_queued_sends = 32

abbrev pub new : Router
new = record {
  active_send = [];
  send_queue = [];
  executors = [];
  next_token = 0;
  accepted = [];
  settled = [];
  launched = [];
}

-- The queue of a session; a missing key reads as nil.
unfoldable pub queue_of : String → Router → List PendingSend
unfolding lookup
queue_of id r = Option.get_or (lookup id r.send_queue) []

unfoldable pub is_busy : String → Router → Bool
unfolding lookup
is_busy id r = elim (lookup id r.active_send) [ none ↦ false | some tok ↦ true ]

abbrev pub is_nil {ℓ} : {A : Type ℓ} → List A → Bool
is_nil [] = true
is_nil (x ∷ xs) = false

pub data Sent : Type 0 where
  runs : Sent
  waits : Sent
  refused : Sent

-- A new token for the send, which is about to start.
unfoldable pub activate : String → PendingSend → Router → Router
unfolding insert
activate id p r = record r {
  active_send = insert id r.next_token r.active_send;
  executors = insert r.next_token (record { session = id; launch = some p }) r.executors;
  next_token = r.next_token + 1;
  settled = r.settled ++ (id, (p, taken)) ∷ [];
}

-- `enqueueSend` for a session that exists and can be written.
unfoldable pub enqueue_send : String → PendingSend → Router → Sent × Router
unfolding activate queue_of is_busy insert
enqueue_send id p r =
    if is_busy id r || not (is_nil (queue_of id r))
    then (if leb max_queued_sends (length (queue_of id r)) then (refused, r) else (
      waits,
      record r {
        send_queue = insert id (queue_of id r ++ p ∷ []) r.send_queue;
        accepted = r.accepted ++ (id, p) ∷ [];
      },
    ))
    else (runs, activate id p (record r { accepted = r.accepted ++ (id, p) ∷ [] }))

-- `startTurn`, once the send's `pre` has run.
unfoldable pub start_turn : ℕ → Executor → PendingSend → Router → Router
unfolding insert
start_turn tok e p r = record r {
  executors = insert tok (record e { launch = none }) r.executors;
  launched = r.launched ++ (e.session, (p, true)) ∷ [];
}

-- `beginNewSession`: the backend has started the first turn of the new session.
unfoldable pub begin_new_session : String → PendingSend → Router → Router
unfolding activate start_turn
begin_new_session id p r =
    start_turn r.next_token (record { session = id; launch = some p }) p
      (activate id p (record r { accepted = r.accepted ++ (id, p) ∷ [] }))

-- The session has vanished while the send was queued; the goroutine goes on to `releaseSend`.
unfoldable pub abort_launch : ℕ → Executor → PendingSend → Router → Router
unfolding insert
abort_launch tok e p r = record r {
  executors = insert tok (record e { launch = none }) r.executors;
  launched = r.launched ++ (e.session, (p, false)) ∷ [];
}

-- The bit is cleared if it is the token's own.
unfoldable pub clear_active : String → ℕ → Router → Router
unfolding lookup remove
clear_active id tok r = elim (lookup id r.active_send) [
  | none ↦ r
  | some cur ↦ if nat_eq cur tok then record r { active_send = remove id r.active_send } else r
]

-- The running bit goes before the turn's last event is published.
unfoldable pub mark_send_idle : String → ℕ → Router → Router
unfolding clear_active
mark_send_idle id tok r = clear_active id tok r

-- The next send of a session without a turn.
unfoldable pub promote : String → Router → Router
unfolding activate queue_of is_busy insert remove
promote id r = if is_busy id r then r else elim (queue_of id r) [
  | [] ↦ r
  | p ∷ [] ↦ activate id p (record r { send_queue = remove id r.send_queue })
  | p ∷ (q ∷ ps) ↦ activate id p (record r { send_queue = insert id (q ∷ ps) r.send_queue })
]

-- `releaseSend` up to its launch of the next turn; the goroutine of the token is done.
unfoldable pub release_send : String → ℕ → Router → Router
unfolding clear_active promote remove
release_send id tok r =
    promote id (let r' = clear_active id tok r in record r' { executors = remove tok r'.executors })

abbrev pub drop_all : String → List PendingSend → List (String × (PendingSend × Outcome))
drop_all id ps = map (λ p. (id, (p, dropped))) ps

-- Every send that waits is dropped, and each is told so.
unfoldable pub flush_send_queue : String → Router → Router
unfolding queue_of remove
flush_send_queue id r = record r {
  send_queue = remove id r.send_queue;
  settled = r.settled ++ drop_all id (queue_of id r);
}

-- `CancelSend`: an error without a turn; the turn itself ends when its context is cancelled. If the
-- turn ends between the test and the flush, what is left to do is `flush_send_queue`.
unfoldable pub cancel_send : String → Router → Bool × Router
unfolding is_busy flush_send_queue
cancel_send id r = if is_busy id r then (true, flush_send_queue id r) else (false, r)

-- `stopLive`, which drops the queue with or without a turn.
unfoldable pub stop_live : String → Router → Router
unfolding flush_send_queue
stop_live id r = flush_send_queue id r

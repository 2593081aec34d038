-- ===== src/Router/Queue/Order.antt =====
-- What the queues promise in every state that the router can come to.
use sr_code.Prelude.{
  ℕ, String, ◌≡◌, ap, ◌∙◌, ◌≢◌, inl, inr, some, [], ◌++◌, arith, nat_has_eq, string_has_eq,
  Option-cases, List-cases,
}
use sr_code.Prelude.Dict.{lookup}
use mathlib.Core.List.{append-nil}
use sr_code.Router.Queue.{PendingSend, Executor, Router, queue_of}
use sr_code.Router.Queue.Fifo.{of, firsts, takens, launching}
use sr_code.Router.Queue.Launching.{launching-idle}
use sr_code.Router.Queue.Steps.{Reach}
use sr_code.Router.Queue.Ends.{reach-IsSound}

-- In every state that the router can come to, for each session: the sends that were accepted are, in
-- this order, those that have left the queue followed by those that wait in it; and the sends that a
-- goroutine has taken are, in the same order, those that were launched (or found their session gone)
-- followed by the one that is about to be launched.
pub sends_in_order :
    (r : Router)
    → Reach r
    → (id : String)
    → (of id r.accepted ≡ firsts (of id r.settled) ++ queue_of id r)
      × (takens (of id r.settled) ≡ firsts (of id r.launched) ++ launching id r)
sends_in_order r reach id =
    let s = reach-IsSound reach in (s.is_fifo.queued id, s.is_fifo.ordered id)

-- In every state that the router can come to, a session without a goroutine has no send that waits:
-- all that were accepted have left the queue, and all that a goroutine has taken were launched (or
-- found their session gone).
pub no_send_is_stranded :
    (r : Router)
    → Reach r
    → (id : String) → ((tok : ℕ) (e : Executor) → lookup tok r.executors ≡ some e → e.session ≢ id)
    → (of id r.accepted ≡ firsts (of id r.settled))
      × (takens (of id r.settled) ≡ firsts (of id r.launched))
no_send_is_stranded r reach id none_left =
    let s = reach-IsSound reach in
    let empty : queue_of id r ≡ [] = elim (List-cases (queue_of id r)) [
      | inl e ↦ e
      | inr (p, ps, e) ↦
          let (tok, f, found, whose) =
            s.is_served.served id (λ none. absurd (ground (arith, e, none))) in
          absurd (none_left tok f found whose)
    ] in
    let idle : launching id r ≡ [] = elim (Option-cases (lookup id r.active_send)) [
      | inl e ↦ launching-idle id r e
      | inr (tok, e) ↦
          let (f, found, whose) = s.is_owned.live id tok e in absurd (none_left tok f found whose)
    ] in
    (
      rw (s.is_fifo.queued id, empty) (append-nil (firsts (of id r.settled))),
      rw (s.is_fifo.ordered id, idle) (append-nil (firsts (of id r.launched))),
    )

-- In every state that the router can come to, no two goroutines are about to launch a turn of the
-- same session, and the one that is has the session's running bit.
pub one_launch_at_a_time :
    (r : Router)
    → Reach r
    → (tok tok' : ℕ) (e e' : Executor) (p p' : PendingSend) → lookup tok r.executors ≡ some e
    → lookup tok' r.executors ≡ some e'
    → e.launch ≡ some p
    → e'.launch ≡ some p'
    → e.session ≡ e'.session
    → (tok ≡ tok') × (lookup e.session r.active_send ≡ some tok)
one_launch_at_a_time r reach tok tok' e e' p p' at at' here here' same =
    let o = (reach-IsSound reach).is_owned in
    let bit : lookup e.session r.active_send ≡ some tok = o.owned tok e p at here in
    let bit' : lookup e'.session r.active_send ≡ some tok' = o.owned tok' e' p' at' here' in
    (ground (arith, bit, ap (λ s. lookup s r.active_send) same ∙ bit'), bit)

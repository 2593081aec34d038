-- ===== src/Router/Queue/Bounds.antt =====
-- The length of the queues.
use sr_code.Prelude.{
  ℕ, ◌≤◌, String, ◌≡◌, refl, sym, ◌↔◌, inl, inr, not, ◌||◌, [], ◌∷◌, ◌++◌, arith, eq_iff, leb,
  nat_has_eq, string_has_eq, Bool-cases, Option-cases, List-cases, length, length-append,
}
use sr_code.Prelude.Dict.{lookup, remove, lookup-insert, lookup-remove}
use mathlib.Core.Path.{subst}
use sr_code.Router.Queue.{
  PendingSend, Router, max_queued_sends, queue_of, is_busy, is_nil, refused, activate, enqueue_send,
  start_turn, begin_new_session, abort_launch, clear_active, mark_send_idle, promote, release_send,
  flush_send_queue, cancel_send, stop_live,
}
use sr_code.Router.Queue.Steps.{
  sends, begins, starts, vanishes, idles, releases, cancels, stops, Reach, starts_empty, then_step,
}

IsShort : Router → Type 0
IsShort r = (id : String) → length (queue_of id r) ≤ max_queued_sends

clear_active-queue_of :
    (id sid : String) (tok : ℕ) (r : Router) → queue_of sid (clear_active id tok r) ≡ queue_of sid r
unfolding clear_active queue_of
clear_active-queue_of id sid tok r = elim (Option-cases (lookup id r.active_send)) [
  | inl e ↦ rw (clear_active, e) refl
  | inr (cur, e) ↦ rw (clear_active, e) (ground arith)
]

promote-IsShort : (id : String) (r : Router) → IsShort r → IsShort (promote id r)
unfolding promote queue_of activate IsShort
promote-IsShort id r s = elim (Bool-cases (is_busy id r)) [
  | inl busy ↦ rw (promote, busy) s
  | inr idle ↦ elim (List-cases (queue_of id r)) [
    | inl e ↦ rw (promote, idle, e) s
    | inr (p, [], e) ↦
        rw (promote, idle, e) (λ sid. ground (arith, s sid, lookup-remove id sid r.send_queue))
    | inr (p, q ∷ ps, e) ↦
        rw (promote, idle, e)
          (λ sid.
            ground
              (arith, s sid, s id, e, eq_iff id sid, lookup-insert id sid (q ∷ ps) r.send_queue))
  ]
]

release_send-IsShort :
    (id : String) (tok : ℕ) (r : Router) → IsShort r → IsShort (release_send id tok r)
unfolding release_send queue_of IsShort
release_send-IsShort id tok r s =
    let c : Router = clear_active id tok r in
    promote-IsShort id (record c { executors = remove tok c.executors })
      (λ sid.
        subst (λ q. length q ≤ max_queued_sends) (sym (clear_active-queue_of id sid tok r)) (s sid))

flush-IsShort : (id : String) (r : Router) → IsShort r → IsShort (flush_send_queue id r)
unfolding flush_send_queue queue_of IsShort
flush-IsShort id r s sid = ground (arith, s sid, lookup-remove id sid r.send_queue)

enqueue_send-IsShort :
    (id : String) (p : PendingSend) (r : Router) → IsShort r → IsShort ((enqueue_send id p r).1)
unfolding enqueue_send queue_of activate IsShort
enqueue_send-IsShort id p r s = elim (Bool-cases (is_busy id r || not (is_nil (queue_of id r)))) [
  | inl behind ↦ elim (Bool-cases (leb max_queued_sends (length (queue_of id r)))) [
    | inl full ↦ rw (enqueue_send, behind, full) s
    | inr room ↦
        rw (enqueue_send, behind, room)
          (λ sid. ground (
            arith,
            s sid,
            room,
            length-append (queue_of id r) (p ∷ []),
            lookup-insert id sid (queue_of id r ++ p ∷ []) r.send_queue,
          ))
  ]
  | inr first ↦ rw (enqueue_send, first) s
]

cancel_send-IsShort : (id : String) (r : Router) → IsShort r → IsShort ((cancel_send id r).1)
unfolding cancel_send
cancel_send-IsShort id r s = elim (Bool-cases (is_busy id r)) [
  | inl e ↦ rw (cancel_send, e) (flush-IsShort id r s)
  | inr e ↦ rw (cancel_send, e) s
]

reach-IsShort : {r : Router} → Reach r → IsShort r
unfolding start_turn abort_launch stop_live mark_send_idle begin_new_session activate queue_of
    lookup IsShort
reach-IsShort starts_empty = λ id. omega arith
reach-IsShort (then_step {r} reach (sends id p)) = enqueue_send-IsShort id p r (reach-IsShort reach)
reach-IsShort (then_step reach (begins id p idle empty)) = reach-IsShort reach
reach-IsShort (then_step reach (starts tok e p at here)) = reach-IsShort reach
reach-IsShort (then_step reach (vanishes tok e p at here)) = reach-IsShort reach
reach-IsShort (then_step {r} reach (idles tok e at done)) = λ sid.
    subst (λ q. length q ≤ max_queued_sends) (sym (clear_active-queue_of e.session sid tok r))
      (reach-IsShort reach sid)
reach-IsShort (then_step {r} reach (releases tok e at done)) =
    release_send-IsShort e.session tok r (reach-IsShort reach)
reach-IsShort (then_step {r} reach (cancels id)) = cancel_send-IsShort id r (reach-IsShort reach)
reach-IsShort (then_step {r} reach (stops id)) = flush-IsShort id r (reach-IsShort reach)

-- In every state that the router can come to, a send is refused exactly if `max_queued_sends` sends
-- of its session wait, and more than those never wait, before the send or after it.
pub full_queue_refuses :
    (r : Router)
    → Reach r
    → (id : String) (p : PendingSend)
    → (((enqueue_send id p r).0 ≡ refused) ↔ (length (queue_of id r) ≡ max_queued_sends))
      × (length (queue_of id r) ≤ max_queued_sends)
      × (length (queue_of id ((enqueue_send id p r).1)) ≤ max_queued_sends)
unfolding enqueue_send IsShort
full_queue_refuses r reach id p =
    let short = reach-IsShort reach id in
    (
      (
        λ e. ground (arith, e, short),
        λ full. elim (List-cases (queue_of id r)) [
          | inl e ↦ absurd (ground (arith, full, e))
          | inr (q, qs, e) ↦ ground (arith, full, e)
        ],
      ),
      short,
      enqueue_send-IsShort id p r (reach-IsShort reach) id,
    )

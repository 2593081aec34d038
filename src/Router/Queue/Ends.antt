-- ===== src/Router/Queue/Ends.antt =====
-- Every step keeps a sound state sound: the sends that are taken in, and the ends of the turns.
use sr_code.Prelude.{
  ℕ, String, ◌≡◌, refl, sym, ◌≢◌, inl, inr, true, false, not, ◌||◌, none, some, [], ◌∷◌, ◌++◌,
  arith, leb, nat_has_eq, string_has_eq, same_refl, Bool-cases, length,
}
use sr_code.Prelude.Dict.{lookup, insert, remove, lookup-insert}
use mathlib.Core.Path.{subst}
use sr_code.Router.Queue.{
  PendingSend, Executor, Router, max_queued_sends, queue_of, is_busy, is_nil, activate,
  enqueue_send, start_turn, begin_new_session, abort_launch, clear_active, mark_send_idle,
  release_send, stop_live,
}
use sr_code.Router.Queue.Fifo.{IsOwned}
use sr_code.Router.Queue.Owned.{
  is_busy-none, clear_active-executors, clear_active-IsOwned, remove-IsOwned, first_in_line,
  clear_active-idle, promote-IsOwned,
}
use sr_code.Router.Queue.Leaving.{
  requeue-IsOwned, wait-IsFifo, clear_active-IsFifo, remove-IsFifo, promote-IsFifo,
}
use sr_code.Router.Queue.Serving.{
  promote-IsServed, wait-IsServed, clear_active-IsServed, remove-IsHeld,
}
use sr_code.Router.Queue.Steps.{
  Step, sends, begins, starts, vanishes, idles, releases, cancels, stops, Reach, starts_empty,
  then_step, IsSound, new-IsSound, flush-IsSound, cancel_send-IsSound, unlaunch-IsSound,
  runs-IsSound,
}

enqueue_send-IsSound :
    (id : String) (p : PendingSend) (r : Router) → IsSound r → IsSound ((enqueue_send id p r).1)
unfolding enqueue_send
enqueue_send-IsSound id p r s = elim (Bool-cases (is_busy id r || not (is_nil (queue_of id r)))) [
  | inl behind ↦ elim (Bool-cases (leb max_queued_sends (length (queue_of id r)))) [
    | inl full ↦ rw (enqueue_send, behind, full) s
    | inr room ↦
        rw (enqueue_send, behind, room)
          (record {
            is_owned =
                requeue-IsOwned (insert id (queue_of id r ++ p ∷ []) r.send_queue)
                  (r.accepted ++ (id, p) ∷ []) r.settled r s.is_owned;
            is_fifo = wait-IsFifo id p r s.is_fifo;
            is_served = wait-IsServed id p r behind s.is_owned s.is_served;
          })
  ]
  | inr first ↦
      rw (enqueue_send, first)
        (runs-IsSound id p r (is_busy-none id r (ground (arith, first))) (first_in_line id r first)
          s)
]

mark_send_idle-IsSound :
    (tok : ℕ) (e : Executor) (r : Router)
    → lookup tok r.executors ≡ some e
    → e.launch ≡ none
    → IsSound r
    → IsSound (mark_send_idle e.session tok r)
unfolding mark_send_idle
mark_send_idle-IsSound tok e r at done s = record {
  is_owned = clear_active-IsOwned tok e r at done s.is_owned;
  is_fifo = clear_active-IsFifo tok e r at done s.is_fifo;
  is_served = clear_active-IsServed e.session tok r s.is_served;
}

-- The state in which `release_send` looks for the next send: the goroutine is no longer counted.
release_send-IsSound :
    (tok : ℕ) (e : Executor) (r : Router)
    → lookup tok r.executors ≡ some e
    → e.launch ≡ none
    → IsSound r
    → IsSound (release_send e.session tok r)
unfolding release_send mark_send_idle
release_send-IsSound tok e r at done s =
    let c : Router = clear_active e.session tok r in
    let at' : lookup tok c.executors ≡ some e =
      subst (λ m. lookup tok m ≡ some e) (sym (clear_active-executors e.session tok r)) at in
    let s' : IsSound c = mark_send_idle-IsSound tok e r at done s in
    let idle : lookup e.session c.active_send ≢ some tok = clear_active-idle e.session tok r in
    let o : IsOwned (record c { executors = remove tok c.executors }) =
      remove-IsOwned tok e c at' idle s'.is_owned in
    record {
      is_owned = promote-IsOwned e.session (record c { executors = remove tok c.executors }) o;
      is_fifo =
          promote-IsFifo e.session (record c { executors = remove tok c.executors }) o
            (remove-IsFifo tok e c at' idle s'.is_owned s'.is_fifo);
      is_served =
          promote-IsServed e.session (record c { executors = remove tok c.executors }) o
            (remove-IsHeld tok e c at' s'.is_served);
    }

begin_new_session-IsSound :
    (id : String) (p : PendingSend) (r : Router)
    → lookup id r.active_send ≡ none
    → queue_of id r ≡ []
    → IsSound r
    → IsSound (begin_new_session id p r)
unfolding begin_new_session start_turn activate
begin_new_session-IsSound id p r idle empty s =
    let e : Executor = record { session = id; launch = some p } in
    unlaunch-IsSound r.next_token e p true
      (activate id p (record r { accepted = r.accepted ++ (id, p) ∷ [] }))
      (ground
        (arith, same_refl r.next_token, lookup-insert r.next_token r.next_token e r.executors))
      refl (runs-IsSound id p r idle empty s)

step-IsSound : {r r' : Router} → Step r r' → IsSound r → IsSound r'
unfolding start_turn abort_launch stop_live
step-IsSound {r} (sends id p) s = enqueue_send-IsSound id p r s
step-IsSound {r} (begins id p idle empty) s = begin_new_session-IsSound id p r idle empty s
step-IsSound {r} (starts tok e p at here) s = unlaunch-IsSound tok e p true r at here s
step-IsSound {r} (vanishes tok e p at here) s = unlaunch-IsSound tok e p false r at here s
step-IsSound {r} (idles tok e at done) s = mark_send_idle-IsSound tok e r at done s
step-IsSound {r} (releases tok e at done) s = release_send-IsSound tok e r at done s
step-IsSound {r} (cancels id) s = cancel_send-IsSound id r s
step-IsSound {r} (stops id) s = flush-IsSound id r s

pub reach-IsSound : {r : Router} → Reach r → IsSound r
reach-IsSound starts_empty = new-IsSound
reach-IsSound (then_step reach step) = step-IsSound step (reach-IsSound reach)

-- ===== src/Router/Queue/Steps.antt =====
-- What the callers and the goroutines may do next, one critical section or one launch at a time.
use sr_code.Prelude.{
  ℕ, String, ◌≡◌, refl, ap, ◌∙◌, inl, inr, Bool, none, some, List, [], ◌∷◌, ◌++◌, arith, eq_iff,
  ◌==◌, nat_has_eq, string_has_eq, if◌then◌else◌, Bool-cases,
}
use sr_code.Prelude.Dict.{lookup, insert}
use mathlib.Core.List.{append-nil, append_assoc}
use sr_code.Router.Queue.{
  PendingSend, Executor, Router, new, queue_of, is_busy, activate, enqueue_send, start_turn,
  begin_new_session, abort_launch, mark_send_idle, release_send, flush_send_queue, cancel_send,
  stop_live,
}
use sr_code.Router.Queue.Fifo.{of, firsts, to_launch, launching, IsOwned, IsFifo, IsServed}
use sr_code.Router.Queue.Owned.{activate-IsOwned, unlaunch-IsOwned, flush-IsOwned}
use sr_code.Router.Queue.Launching.{of-snoc, activate-IsFifo, unlaunch-IsFifo}
use sr_code.Router.Queue.Leaving.{requeue-IsOwned, flush-IsFifo}
use sr_code.Router.Queue.Serving.{
  activate-IsHeld, activate-queue_of, unlaunch-IsServed, flush-IsServed,
}

-- A goroutine that has launched its turn ends it by `mark_send_idle`, or goes to `release_send` at once.
pub data Step (r : Router) : Router → Type 0 where
  sends : (id : String) (p : PendingSend) → Step r ((enqueue_send id p r).1)
  begins :
      (id : String) (p : PendingSend)
      → lookup id r.active_send ≡ none
      → queue_of id r ≡ []
      → Step r (begin_new_session id p r)
  starts :
      (tok : ℕ) (e : Executor) (p : PendingSend)
      → lookup tok r.executors ≡ some e
      → e.launch ≡ some p
      → Step r (start_turn tok e p r)
  vanishes :
      (tok : ℕ) (e : Executor) (p : PendingSend)
      → lookup tok r.executors ≡ some e
      → e.launch ≡ some p
      → Step r (abort_launch tok e p r)
  idles :
      (tok : ℕ) (e : Executor)
      → lookup tok r.executors ≡ some e
      → e.launch ≡ none
      → Step r (mark_send_idle e.session tok r)
  releases :
      (tok : ℕ) (e : Executor)
      → lookup tok r.executors ≡ some e
      → e.launch ≡ none
      → Step r (release_send e.session tok r)
  cancels : (id : String) → Step r ((cancel_send id r).1)
  stops : (id : String) → Step r (stop_live id r)

pub data Reach : Router → Type 0 where
  starts_empty : Reach new
  then_step : {r r' : Router} → Reach r → Step r r' → Reach r'

pub record IsSound (r : Router) : Type 0 where
  pub is_owned : IsOwned r
  pub is_fifo : IsFifo r
  pub is_served : IsServed r

pub new-IsSound : IsSound new
unfolding lookup queue_of launching to_launch
new-IsSound = record {
  is_owned = record {
    owned = λ tok e p at. absurd (ground (arith, at));
    live = λ id tok at. absurd (ground (arith, at));
    fresh = λ tok le. refl;
  };
  is_fifo = record { queued = λ id. refl; ordered = λ id. refl };
  is_served = record { served = λ id waiting. absurd (waiting refl) };
}

pub flush-IsSound : (id : String) (r : Router) → IsSound r → IsSound (flush_send_queue id r)
flush-IsSound id r s = record {
  is_owned = flush-IsOwned id r s.is_owned;
  is_fifo = flush-IsFifo id r s.is_fifo;
  is_served = flush-IsServed id r s.is_served;
}

pub cancel_send-IsSound : (id : String) (r : Router) → IsSound r → IsSound ((cancel_send id r).1)
unfolding cancel_send
cancel_send-IsSound id r s = elim (Bool-cases (is_busy id r)) [
  | inl e ↦ rw (cancel_send, e) (flush-IsSound id r s)
  | inr e ↦ rw (cancel_send, e) s
]

-- The launch of a turn that has, or has not, a session to run in.
pub unlaunch-IsSound :
    (tok : ℕ) (e : Executor) (p : PendingSend) (ok : Bool) (r : Router)
    → lookup tok r.executors ≡ some e
    → e.launch ≡ some p
    → IsSound r
    → IsSound (record r {
      executors = insert tok (record e { launch = none }) r.executors;
      launched = r.launched ++ (e.session, (p, ok)) ∷ [];
    })
unlaunch-IsSound tok e p ok r at here s =
    let l : List (String × (PendingSend × Bool)) = r.launched ++ (e.session, (p, ok)) ∷ [] in
    record {
      is_owned = unlaunch-IsOwned tok e r l at s.is_owned;
      is_fifo = unlaunch-IsFifo tok e p ok r at here s.is_owned s.is_fifo;
      is_served = unlaunch-IsServed tok e l r at s.is_served;
    }

-- A send that finds neither a turn nor a queue is accepted and has the turn.
pub runs-IsSound :
    (id : String) (p : PendingSend) (r : Router)
    → lookup id r.active_send ≡ none
    → queue_of id r ≡ []
    → IsSound r
    → IsSound (activate id p (record r { accepted = r.accepted ++ (id, p) ∷ [] }))
unfolding queue_of launching to_launch
runs-IsSound id p r idle empty s =
    let r' : Router = record r { accepted = r.accepted ++ (id, p) ∷ [] } in
    let o : IsOwned r' = requeue-IsOwned r.send_queue r'.accepted r.settled r s.is_owned in
    let joined : (sid : String)
        → queue_of sid r ++ (if id == sid then p ∷ [] else [])
          ≡ (if id == sid then p ∷ [] else []) ++ queue_of sid r =
      λ sid. ground (arith, empty, eq_iff id sid, append-nil (queue_of sid r)) in
    record {
      is_owned = activate-IsOwned id p r' idle o;
      is_fifo =
          activate-IsFifo id p r' idle o
            (λ sid.
              of-snoc id sid r.accepted p
              ∙ (rw (s.is_fifo.queued sid) refl
                  ∙ (append_assoc (firsts (of sid r.settled)) (queue_of sid r)
                        (if id == sid then p ∷ [] else [])
                      ∙ ap (λ q. firsts (of sid r.settled) ++ q) (joined sid))))
            s.is_fifo.ordered;
      is_served = record {
        served = λ sid waiting. activate-IsHeld id sid p r' o (
            s.is_served.served sid
              (λ none_left. waiting (activate-queue_of id sid p r' ∙ none_left)));
      };
    }

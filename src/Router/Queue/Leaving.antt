-- ===== src/Router/Queue/Leaving.antt =====
-- The two equations of `IsFifo` while sends are queued, dropped and promoted, and while goroutines end.
use sr_code.Prelude.{
  ℕ, String, ◌≡◌, refl, sym, ap, ◌∙◌, ◌≢◌, inl, inr, none, some, List, [], ◌∷◌, ◌++◌, arith, eq_iff,
  nat_eq, nat_eq_iff, ◌==◌, nat_has_eq, string_has_eq, if◌then◌else◌, Bool-cases, Option-cases,
  List-cases,
}
use sr_code.Prelude.Dict.{lookup, insert, remove, lookup-insert, lookup-remove}
use mathlib.Core.List.{append-nil, append_assoc}
use sr_code.Router.Queue.{
  PendingSend, Outcome, Executor, Router, queue_of, is_busy, activate, clear_active, promote,
  drop_all, flush_send_queue,
}
use sr_code.Router.Queue.Fifo.{
  of, firsts, takens, to_list, to_launch, launching, of-append, firsts-append, takens-append,
  firsts-drop_all, takens-drop_all, IsOwned, IsFifo,
}
use sr_code.Router.Queue.Owned.{is_busy-none}
use sr_code.Router.Queue.Launching.{
  launching-idle, launching-active, to_launch-found, of-snoc, activate-IsFifo,
}

pub requeue-IsOwned :
    (queue : List (String × List PendingSend)) (a : List (String × PendingSend))
    (s : List (String × (PendingSend × Outcome))) (r : Router)
    → IsOwned r
    → IsOwned (record r { send_queue = queue; accepted = a; settled = s })
requeue-IsOwned queue a s r o = record { owned = o.owned; live = o.live; fresh = o.fresh }

-- A send is accepted and waits.
pub wait-IsFifo :
    (id : String) (p : PendingSend) (r : Router)
    → IsFifo r
    → IsFifo (record r {
      send_queue = insert id (queue_of id r ++ p ∷ []) r.send_queue;
      accepted = r.accepted ++ (id, p) ∷ [];
    })
unfolding queue_of launching to_launch
wait-IsFifo id p r f =
    let r' : Router = record r {
      send_queue = insert id (queue_of id r ++ p ∷ []) r.send_queue;
      accepted = r.accepted ++ (id, p) ∷ [];
    } in
    let longer : (sid : String)
        → queue_of sid r' ≡ queue_of sid r ++ (if id == sid then p ∷ [] else []) =
      λ sid. ground (
        arith,
        eq_iff id sid,
        append-nil (queue_of sid r),
        lookup-insert id sid (queue_of id r ++ p ∷ []) r.send_queue,
      ) in
    record {
      queued = λ sid.
          of-snoc id sid r.accepted p
          ∙ (rw (f.queued sid) refl
              ∙ (append_assoc (firsts (of sid r.settled)) (queue_of sid r)
                    (if id == sid then p ∷ [] else [])
                  ∙ ap (λ q. firsts (of sid r.settled) ++ q) (sym (longer sid))));
      ordered = f.ordered;
    }

-- A queue is dropped.
pub flush-IsFifo : (id : String) (r : Router) → IsFifo r → IsFifo (flush_send_queue id r)
unfolding flush_send_queue queue_of launching to_launch
flush-IsFifo id r f =
    let r' = flush_send_queue id r in
    let gone : (sid : String)
        → (if id == sid then queue_of id r else []) ++ queue_of sid r' ≡ queue_of sid r =
      λ sid.
        ground
          (arith, eq_iff id sid, append-nil (queue_of sid r), lookup-remove id sid r.send_queue) in
    record {
      queued = λ sid.
          f.queued sid
          ∙ (ap (λ q. firsts (of sid r.settled) ++ q) (sym (gone sid))
              ∙ (sym (
                    append_assoc (firsts (of sid r.settled))
                      (if id == sid then queue_of id r else []) (queue_of sid r'))
                  ∙ ap (λ q. q ++ queue_of sid r')
                      (ap (λ q. firsts (of sid r.settled) ++ q)
                          (sym (firsts-drop_all id sid (queue_of id r)))
                        ∙ (sym (
                              firsts-append (of sid r.settled)
                                (of sid (drop_all id (queue_of id r))))
                            ∙ ap firsts
                                (sym (of-append sid r.settled (drop_all id (queue_of id r))))))));
      ordered = λ sid.
          ap takens (of-append sid r.settled (drop_all id (queue_of id r)))
          ∙ (takens-append (of sid r.settled) (of sid (drop_all id (queue_of id r)))
              ∙ (rw (takens-drop_all id sid (queue_of id r), append-nil (takens (of sid r.settled)))
                  (f.ordered sid)));
    }

-- The running bit of a goroutine that has launched its turn goes, or stays another's.
pub clear_active-IsFifo :
    (tok : ℕ) (e : Executor) (r : Router)
    → lookup tok r.executors ≡ some e
    → e.launch ≡ none
    → IsFifo r
    → IsFifo (clear_active e.session tok r)
unfolding clear_active queue_of launching to_launch
clear_active-IsFifo tok e r at done f = elim (Option-cases (lookup e.session r.active_send)) [
  | inl c ↦ rw (clear_active, c) f
  | inr (cur, c) ↦ elim (Bool-cases (nat_eq cur tok)) [
    | inr g ↦ rw (clear_active, c, g) f
    | inl g ↦
        let r' : Router = record r { active_send = remove e.session r.active_send } in
        let idle : to_launch tok r ≡ [] = to_launch-found tok e r at ∙ ap to_list done in
        let same_launch : (sid : String) → launching sid r' ≡ launching sid r = λ sid.
          elim (Bool-cases (e.session == sid)) [
            | inl same ↦
                launching-idle sid r'
                  (ground (arith, same, lookup-remove e.session sid r.active_send))
                ∙ sym (
                    launching-active sid tok r
                      (ground (arith, c, g, same, nat_eq_iff cur tok, eq_iff e.session sid))
                    ∙ idle)
            | inr other ↦
                let kept_bit : lookup sid r'.active_send ≡ lookup sid r.active_send =
                  rw other at (lookup-remove e.session sid r.active_send) in
                elim (Option-cases (lookup sid r.active_send)) [
                  | inl d ↦ launching-idle sid r' (kept_bit ∙ d) ∙ sym (launching-idle sid r d)
                  | inr (k, d) ↦
                      launching-active sid k r' (kept_bit ∙ d) ∙ sym (launching-active sid k r d)
                ]
          ] in
        rw (clear_active, c, g)
          (record {
            queued = f.queued;
            ordered = λ sid.
                f.ordered sid ∙ ap (λ ps. firsts (of sid r.launched) ++ ps) (sym (same_launch sid));
          })
  ]
]

-- A goroutine without the running bit ends.
pub remove-IsFifo :
    (tok : ℕ) (e : Executor) (r : Router)
    → lookup tok r.executors ≡ some e
    → lookup e.session r.active_send ≢ some tok
    → IsOwned r
    → IsFifo r
    → IsFifo (record r { executors = remove tok r.executors })
unfolding queue_of launching to_launch
remove-IsFifo tok e r at idle o f =
    let r' : Router = record r { executors = remove tok r.executors } in
    let same_launch : (sid : String) → launching sid r' ≡ launching sid r = λ sid.
      elim (Option-cases (lookup sid r.active_send)) [
        | inl d ↦ launching-idle sid r' d ∙ sym (launching-idle sid r d)
        | inr (k, d) ↦
            let (g, found, whose) = o.live sid k d in
            launching-active sid k r' d
            ∙ (to_launch-found k g r' (
                  ground (
                    arith,
                    found,
                    at,
                    idle,
                    d,
                    whose,
                    lookup-remove tok k r.executors,
                    nat_eq_iff tok k,
                  ))
                ∙ sym (launching-active sid k r d ∙ to_launch-found k g r found))
      ] in
    record {
      queued = f.queued;
      ordered = λ sid.
          f.ordered sid ∙ ap (λ ps. firsts (of sid r.launched) ++ ps) (sym (same_launch sid));
    }

-- The first of the queue gets the turn.
promoted-IsFifo :
    (id : String) (p : PendingSend) (queue : List (String × List PendingSend)) (r : Router)
    → lookup id r.active_send ≡ none
    → ((sid : String)
        → queue_of sid r
          ≡ (if id == sid then p ∷ [] else []) ++ queue_of sid (record r { send_queue = queue }))
    → IsOwned r
    → IsFifo r
    → IsFifo (activate id p (record r { send_queue = queue }))
unfolding queue_of launching to_launch
promoted-IsFifo id p queue r idle splits o f =
    activate-IsFifo id p (record r { send_queue = queue }) idle
      (requeue-IsOwned queue r.accepted r.settled r o)
      (λ sid. f.queued sid ∙ ap (λ q. firsts (of sid r.settled) ++ q) (splits sid)) f.ordered

pub promote-IsFifo : (id : String) (r : Router) → IsOwned r → IsFifo r → IsFifo (promote id r)
unfolding promote queue_of
promote-IsFifo id r o f = elim (Bool-cases (is_busy id r)) [
  | inl busy ↦ rw (promote, busy) f
  | inr idle ↦ elim (List-cases (queue_of id r)) [
    | inl e ↦ rw (promote, idle, e) f
    | inr (p, [], e) ↦
        rw (promote, idle, e)
          (promoted-IsFifo id p (remove id r.send_queue) r (is_busy-none id r idle)
            (λ sid. ground (arith, e, eq_iff id sid, lookup-remove id sid r.send_queue)) o f)
    | inr (p, q ∷ ps, e) ↦
        rw (promote, idle, e)
          (promoted-IsFifo id p (insert id (q ∷ ps) r.send_queue) r (is_busy-none id r idle)
            (λ sid. ground (arith, e, eq_iff id sid, lookup-insert id sid (q ∷ ps) r.send_queue)) o
            f)
  ]
]

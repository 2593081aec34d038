-- ===== src/Router/Queue/Launching.antt =====
-- The two equations of `IsFifo`, through every change of the state.
use sr_code.Prelude.{
  ℕ, String, ◌≡◌, refl, sym, ap, ◌∙◌, inl, inr, Bool, none, some, List, [], ◌∷◌, ◌++◌, arith,
  eq_iff, nat_eq_iff, ◌==◌, nat_has_eq, string_has_eq, same_refl, if◌then◌else◌, Bool-cases,
  Option-cases,
}
use sr_code.Prelude.Dict.{lookup, insert, lookup-insert}
use mathlib.Core.Path.{subst}
use mathlib.Core.List.{append-nil, append_assoc}
use sr_code.Router.Queue.{PendingSend, Outcome, taken, Executor, Router, queue_of, activate}
use sr_code.Router.Queue.Fifo.{
  of, firsts, takens, to_list, to_launch, launching, of-append, firsts-append, takens-append,
  IsOwned, IsFifo,
}

pub launching-idle :
    (id : String) (r : Router) → lookup id r.active_send ≡ none → launching id r ≡ []
unfolding launching
launching-idle id r e = rw (launching, e) refl

pub launching-active :
    (id : String) (tok : ℕ) (r : Router)
    → lookup id r.active_send ≡ some tok
    → launching id r ≡ to_launch tok r
unfolding launching
launching-active id tok r e = rw (launching, e) refl

pub to_launch-found :
    (tok : ℕ) (e : Executor) (r : Router)
    → lookup tok r.executors ≡ some e
    → to_launch tok r ≡ to_list e.launch
unfolding to_launch
to_launch-found tok e r f = rw (to_launch, f) refl

activate-launching :
    (id sid : String) (p : PendingSend) (r : Router)
    → IsOwned r
    → launching sid (activate id p r) ≡ (if id == sid then p ∷ [] else launching sid r)
unfolding activate
activate-launching id sid p r o =
    let e : Executor = record { session = id; launch = some p } in
    let unused : lookup r.next_token r.executors ≡ none = o.fresh r.next_token (omega arith) in
    elim (Bool-cases (id == sid)) [
      | inl same ↦ rw same (
          launching-active sid r.next_token (activate id p r)
            (ground (arith, same, lookup-insert id sid r.next_token r.active_send))
          ∙ to_launch-found r.next_token e (activate id p r) (
              ground (
                arith,
                same_refl r.next_token,
                lookup-insert r.next_token r.next_token e r.executors,
              )))
      | inr other ↦ elim (Option-cases (lookup sid r.active_send)) [
        | inl f ↦ rw other (
            launching-idle sid (activate id p r)
              (ground (arith, f, other, lookup-insert id sid r.next_token r.active_send))
            ∙ sym (launching-idle sid r f))
        | inr (tok, f) ↦
            let (g, found, whose) = o.live sid tok f in
            rw other (
              launching-active sid tok (activate id p r)
                (ground (arith, f, other, lookup-insert id sid r.next_token r.active_send))
              ∙ (to_launch-found tok g (activate id p r) (
                    ground (
                      arith,
                      found,
                      unused,
                      lookup-insert r.next_token tok e r.executors,
                      nat_eq_iff r.next_token tok,
                    ))
                  ∙ sym (launching-active sid tok r f ∙ to_launch-found tok g r found)))
      ]
    ]

pub of-snoc {ℓ} :
    {A : Type ℓ} (id sid : String) (xs : List (String × A)) (a : A)
    → of sid (xs ++ (id, a) ∷ []) ≡ of sid xs ++ (if id == sid then a ∷ [] else [])
of-snoc id sid xs a = of-append sid xs ((id, a) ∷ []) ∙ ground arith

firsts-snoc {ℓ} :
    {A : Type ℓ} (id sid : String) (xs : List (String × (PendingSend × A))) (p : PendingSend)
    (a : A)
    → firsts (of sid (xs ++ (id, (p, a)) ∷ []))
      ≡ firsts (of sid xs) ++ (if id == sid then p ∷ [] else [])
firsts-snoc id sid xs p a = elim (Bool-cases (id == sid)) [
  | inl e ↦
      rw e
        (ap firsts (rw e at (of-snoc id sid xs (p, a))) ∙ firsts-append (of sid xs) ((p, a) ∷ []))
  | inr e ↦ rw e (ap firsts (rw e at (of-snoc id sid xs (p, a))) ∙ firsts-append (of sid xs) [])
]

takens-snoc :
    (id sid : String) (xs : List (String × (PendingSend × Outcome))) (p : PendingSend)
    → takens (of sid (xs ++ (id, (p, taken)) ∷ []))
      ≡ takens (of sid xs) ++ (if id == sid then p ∷ [] else [])
takens-snoc id sid xs p = elim (Bool-cases (id == sid)) [
  | inl e ↦ rw e (
      ap takens (rw e at (of-snoc id sid xs (p, taken)))
      ∙ takens-append (of sid xs) ((p, taken) ∷ []))
  | inr e ↦ rw e (ap takens (rw e at (of-snoc id sid xs (p, taken))) ∙ takens-append (of sid xs) [])
]

-- The turn of a send: what stood before the queue now is with a goroutine.
pub activate-IsFifo :
    (id : String) (p : PendingSend) (r : Router)
    → lookup id r.active_send ≡ none
    → IsOwned r
    → ((sid : String)
        → of sid r.accepted
          ≡ firsts (of sid r.settled) ++ ((if id == sid then p ∷ [] else []) ++ queue_of sid r))
    → ((sid : String) → takens (of sid r.settled) ≡ firsts (of sid r.launched) ++ launching sid r)
    → IsFifo (activate id p r)
unfolding activate queue_of
activate-IsFifo id p r idle o queued ordered = record {
  queued = λ sid.
      queued sid
      ∙ (sym (
            append_assoc (firsts (of sid r.settled)) (if id == sid then p ∷ [] else [])
              (queue_of sid r))
          ∙ ap (λ ps. ps ++ queue_of sid r) (sym (firsts-snoc id sid r.settled p taken)));
  ordered = λ sid. takens-snoc id sid r.settled p ∙ (elim (Bool-cases (id == sid)) [
    | inl same ↦
        let none_yet : launching sid r ≡ [] =
          launching-idle sid r
            (subst (λ j. lookup j r.active_send ≡ none) ((eq_iff id sid).0 same) idle) in
        rw same (
          rw (ordered sid, none_yet, append-nil (firsts (of sid r.launched)))
            (ap (λ ps. firsts (of sid r.launched) ++ ps)
              (sym (rw same at (activate-launching id sid p r o)))))
    | inr other ↦
        rw (other, append-nil (takens (of sid r.settled)))
          (ordered sid
            ∙ ap (λ ps. firsts (of sid r.launched) ++ ps)
                (sym (rw other at (activate-launching id sid p r o))))
  ]);
}

-- The launch of a goroutine moves its send into the history of launches.
pub unlaunch-IsFifo :
    (tok : ℕ) (e : Executor) (p : PendingSend) (ok : Bool) (r : Router)
    → lookup tok r.executors ≡ some e
    → e.launch ≡ some p
    → IsOwned r
    → IsFifo r
    → IsFifo (record r {
      executors = insert tok (record e { launch = none }) r.executors;
      launched = r.launched ++ (e.session, (p, ok)) ∷ [];
    })
unfolding queue_of launching to_launch
unlaunch-IsFifo tok e p ok r at here o f =
    let e' : Executor = record e { launch = none } in
    let r' : Router = record r {
      executors = insert tok e' r.executors;
      launched = r.launched ++ (e.session, (p, ok)) ∷ [];
    } in
    let bit : lookup e.session r.active_send ≡ some tok = o.owned tok e p at here in
    record {
      queued = f.queued;
      ordered = λ sid. f.ordered sid ∙ (elim (Bool-cases (e.session == sid)) [
        | inl same ↦
            let its : lookup sid r.active_send ≡ some tok =
              subst (λ j. lookup j r.active_send ≡ some tok) ((eq_iff e.session sid).0 same) bit in
            let before : launching sid r ≡ p ∷ [] =
              launching-active sid tok r its ∙ (to_launch-found tok e r at ∙ ap to_list here) in
            let after : launching sid r' ≡ [] =
              launching-active sid tok r' its
              ∙ to_launch-found tok e' r'
                  (ground (arith, same_refl tok, lookup-insert tok tok e' r.executors)) in
            let more : firsts (of sid r'.launched) ≡ firsts (of sid r.launched) ++ p ∷ [] =
              rw same at (firsts-snoc e.session sid r.launched p ok) in
            rw (before, after, more) (sym (append-nil (firsts (of sid r.launched) ++ p ∷ [])))
        | inr other ↦
            let more : firsts (of sid r'.launched) ≡ firsts (of sid r.launched) ++ [] =
              rw other at (firsts-snoc e.session sid r.launched p ok) in
            let same_launch : launching sid r' ≡ launching sid r =
              elim (Option-cases (lookup sid r.active_send)) [
                | inl idle ↦ launching-idle sid r' idle ∙ sym (launching-idle sid r idle)
                | inr (k, busy) ↦
                    let (g, found, whose) = o.live sid k busy in
                    launching-active sid k r' busy
                    ∙ (to_launch-found k g r' (
                          ground (
                            arith,
                            found,
                            at,
                            whose,
                            other,
                            eq_iff e.session sid,
                            nat_eq_iff tok k,
                            lookup-insert tok k e' r.executors,
                          ))
                        ∙ sym (launching-active sid k r busy ∙ to_launch-found k g r found))
              ] in
            rw (same_launch, more, append-nil (firsts (of sid r.launched))) refl
      ]);
    }

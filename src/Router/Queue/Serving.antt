-- ===== src/Router/Queue/Serving.antt =====
-- A waiting send is never left without a goroutine that will find it, and the queue stays short.
use sr_code.Prelude.{
  ℕ, String, ◌≡◌, refl, sym, ap, ◌∙◌, ◌≢◌, inl, inr, Bool, true, false, not, ◌||◌, none, some, List,
  [], ◌∷◌, ◌++◌, arith, eq_iff, nat_eq, nat_eq_iff, ◌==◌, nat_has_eq, string_has_eq, same_refl,
  Bool-cases, Option-cases, List-cases,
}
use sr_code.Prelude.Dict.{lookup, insert, remove, lookup-insert, lookup-remove}
use mathlib.Core.Path.{subst}
use sr_code.Router.Queue.{
  PendingSend, Executor, Router, queue_of, is_busy, is_nil, activate, clear_active, promote,
  flush_send_queue,
}
use sr_code.Router.Queue.Fifo.{IsOwned, IsHeld, IsServed}

pub activate-IsHeld :
    (id sid : String) (p : PendingSend) (r : Router)
    → IsOwned r
    → IsHeld sid r
    → IsHeld sid (activate id p r)
unfolding activate
activate-IsHeld id sid p r o (tok, e, at, whose) = (
  tok,
  e,
  ground (
    arith,
    at,
    o.fresh tok,
    nat_eq_iff r.next_token tok,
    lookup-insert r.next_token tok (record { session = id; launch = some p }) r.executors,
  ),
  whose,
)

activated-IsHeld : (id : String) (p : PendingSend) (r : Router) → IsHeld id (activate id p r)
unfolding activate
activated-IsHeld id p r =
    let e : Executor = record { session = id; launch = some p } in
    (
      r.next_token,
      e,
      ground (arith, same_refl r.next_token, lookup-insert r.next_token r.next_token e r.executors),
      refl,
    )

-- The goroutine of a turn that is on the way holds its session.
pub busy-IsHeld : (id : String) (r : Router) → IsOwned r → is_busy id r ≡ true → IsHeld id r
unfolding is_busy
busy-IsHeld id r o busy = elim (Option-cases (lookup id r.active_send)) [
  | inl e ↦ absurd (ground (arith, e, busy))
  | inr (tok, e) ↦ let (f, found, whose) = o.live id tok e in (tok, f, found, whose)
]

pub activate-queue_of :
    (id sid : String) (p : PendingSend) (r : Router)
    → queue_of sid (activate id p r) ≡ queue_of sid r
unfolding queue_of activate
activate-queue_of id sid p r = refl

promoted-IsServed :
    (id : String) (p : PendingSend) (queue : List (String × List PendingSend)) (r : Router)
    → IsOwned r
    → ((sid : String) → (id == sid) ≡ false → queue_of sid r ≢ [] → IsHeld sid r)
    → ((sid : String)
        → (id == sid) ≡ false
        → queue_of sid (record r { send_queue = queue }) ≡ queue_of sid r)
    → IsServed (activate id p (record r { send_queue = queue }))
unfolding queue_of
promoted-IsServed id p queue r o others same =
    let r' : Router = record r { send_queue = queue } in
    let o' : IsOwned r' = record { owned = o.owned; live = o.live; fresh = o.fresh } in
    record {
      served = λ sid waiting. elim (Bool-cases (id == sid)) [
        | inl e ↦
            subst (λ j. IsHeld j (activate id p r')) ((eq_iff id sid).0 e)
              (activated-IsHeld id p r')
        | inr e ↦
            activate-IsHeld id sid p r' o' (
              others sid e
                (λ empty. waiting (activate-queue_of id sid p r' ∙ (same sid e ∙ empty))))
      ];
    }

-- The promotion makes up for a goroutine that is about to end.
pub promote-IsServed :
    (id : String) (r : Router)
    → IsOwned r
    → ((sid : String) → (id == sid) ≡ false → queue_of sid r ≢ [] → IsHeld sid r)
    → IsServed (promote id r)
unfolding promote queue_of
promote-IsServed id r o others = elim (Bool-cases (is_busy id r)) [
  | inl busy ↦
      rw (promote, busy)
        (record {
          served = λ sid waiting. elim (Bool-cases (id == sid)) [
            | inl e ↦ subst (λ j. IsHeld j r) ((eq_iff id sid).0 e) (busy-IsHeld id r o busy)
            | inr e ↦ others sid e waiting
          ];
        })
  | inr idle ↦ elim (List-cases (queue_of id r)) [
    | inl e ↦
        rw (promote, idle, e)
          (record {
            served = λ sid waiting. elim (Bool-cases (id == sid)) [
              | inl f ↦ absurd (waiting (subst (λ j. queue_of j r ≡ []) ((eq_iff id sid).0 f) e))
              | inr f ↦ others sid f waiting
            ];
          })
    | inr (p, [], e) ↦
        rw (promote, idle, e)
          (promoted-IsServed id p (remove id r.send_queue) r o others
            (λ sid f. ground (arith, f, lookup-remove id sid r.send_queue)))
    | inr (p, q ∷ ps, e) ↦
        rw (promote, idle, e)
          (promoted-IsServed id p (insert id (q ∷ ps) r.send_queue) r o others
            (λ sid f. ground (arith, f, lookup-insert id sid (q ∷ ps) r.send_queue)))
  ]
]

-- A send that waits waits behind a turn, or behind another that waits.
pub wait-IsServed :
    (id : String) (p : PendingSend) (r : Router)
    → (is_busy id r || not (is_nil (queue_of id r))) ≡ true
    → IsOwned r
    → IsServed r
    → IsServed (record r {
      send_queue = insert id (queue_of id r ++ p ∷ []) r.send_queue;
      accepted = r.accepted ++ (id, p) ∷ [];
    })
unfolding queue_of
wait-IsServed id p r behind o s =
    let before : IsHeld id r = elim (Bool-cases (is_busy id r)) [
      | inl busy ↦ busy-IsHeld id r o busy
      | inr idle ↦ s.served id (λ empty. absurd (ground (arith, behind, idle, empty)))
    ] in
    record {
      served = λ sid waiting. elim (Bool-cases (id == sid)) [
        | inl e ↦ subst (λ j. IsHeld j r) ((eq_iff id sid).0 e) before
        | inr e ↦ s.served sid (λ empty.
            waiting (
              ground
                (arith, empty, e, lookup-insert id sid (queue_of id r ++ p ∷ []) r.send_queue)))
      ];
    }

-- A goroutine stays with its session when it has launched its turn.
pub unlaunch-IsServed :
    (tok : ℕ) (e : Executor) (l : List (String × (PendingSend × Bool))) (r : Router)
    → lookup tok r.executors ≡ some e
    → IsServed r
    → IsServed
        (record r { executors = insert tok (record e { launch = none }) r.executors; launched = l })
unfolding queue_of
unlaunch-IsServed tok e l r at s = record {
  served = λ sid waiting.
      let (k, g, found, whose) = s.served sid waiting in
      let e' : Executor = record e { launch = none } in
      elim (Bool-cases (nat_eq tok k)) [
        | inl same ↦
            let this : g ≡ e = ground (arith, found, at, same, nat_eq_iff tok k) in
            (
              tok,
              e',
              ground (arith, same_refl tok, lookup-insert tok tok e' r.executors),
              ap (λ h. h.session) (sym this) ∙ whose,
            )
        | inr other ↦
            (k, g, ground (arith, found, other, lookup-insert tok k e' r.executors), whose)
      ];
}

pub flush-IsServed : (id : String) (r : Router) → IsServed r → IsServed (flush_send_queue id r)
unfolding flush_send_queue queue_of
flush-IsServed id r s = record {
  served = λ sid waiting.
      s.served sid (λ empty. waiting (ground (arith, empty, lookup-remove id sid r.send_queue)));
}

-- The queues stand as they were when a running bit is cleared.
pub clear_active-IsServed :
    (id : String) (tok : ℕ) (r : Router) → IsServed r → IsServed (clear_active id tok r)
unfolding clear_active queue_of
clear_active-IsServed id tok r s = elim (Option-cases (lookup id r.active_send)) [
  | inl e ↦ rw (clear_active, e) s
  | inr (cur, e) ↦ elim (Bool-cases (nat_eq cur tok)) [
    | inl f ↦ rw (clear_active, e, f) (record { served = s.served })
    | inr f ↦ rw (clear_active, e, f) s
  ]
]

-- The end of a goroutine leaves the goroutines of the other sessions.
pub remove-IsHeld :
    (tok : ℕ) (e : Executor) (r : Router)
    → lookup tok r.executors ≡ some e
    → IsServed r
    → (sid : String) → (e.session == sid) ≡ false
    → queue_of sid (record r { executors = remove tok r.executors }) ≢ []
    → IsHeld sid (record r { executors = remove tok r.executors })
unfolding queue_of
remove-IsHeld tok e r at s sid other waiting =
    let (k, g, found, whose) = s.served sid waiting in
    (
      k,
      g,
      ground (
        arith,
        found,
        at,
        other,
        whose,
        eq_iff e.session sid,
        lookup-remove tok k r.executors,
        nat_eq_iff tok k,
      ),
      whose,
    )

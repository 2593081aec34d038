-- ===== src/Router/Queue/Owned.antt =====
-- Which goroutine has the running bit, through every operation.
use sr_code.Prelude.{
  ℕ, String, ◌≡◌, refl, sym, ap, ◌∙◌, ◌≢◌, inl, inr, Bool, false, not, ◌||◌, Option, none, some,
  List, [], ◌∷◌, arith, eq_iff, nat_eq, nat_eq_iff, ◌==◌, nat_has_eq, string_has_eq, same_refl,
  if◌then◌else◌, Bool-cases, Option-cases, List-cases,
}
use sr_code.Prelude.Dict.{lookup, insert, remove, lookup-insert, lookup-remove}
use sr_code.Router.Queue.{
  PendingSend, Executor, Router, queue_of, is_busy, is_nil, activate, clear_active, promote,
  flush_send_queue,
}
use sr_code.Router.Queue.Fifo.{IsOwned}

pub is_busy-none :
    (id : String) (r : Router) → is_busy id r ≡ false → lookup id r.active_send ≡ none
unfolding is_busy
is_busy-none id r e = elim (Option-cases (lookup id r.active_send)) [
  | inl f ↦ f
  | inr (tok, f) ↦ absurd (ground (arith, e, f))
]

pub activate-IsOwned :
    (id : String) (p : PendingSend) (r : Router)
    → lookup id r.active_send ≡ none
    → IsOwned r
    → IsOwned (activate id p r)
unfolding activate
activate-IsOwned id p r idle o =
    let e : Executor = record { session = id; launch = some p } in
    let unused : lookup r.next_token r.executors ≡ none = o.fresh r.next_token (omega arith) in
    record {
      owned = λ tok f q at here. ground (
        arith,
        at,
        here,
        idle,
        o.owned tok f q,
        lookup-insert r.next_token tok e r.executors,
        lookup-insert id f.session r.next_token r.active_send,
        eq_iff id f.session,
        nat_eq_iff r.next_token tok,
      );
      live = λ sid tok at. elim (Bool-cases (id == sid)) [
        | inl same ↦
            let this : r.next_token ≡ tok =
              ground (arith, at, same, lookup-insert id sid r.next_token r.active_send) in
            (
              e,
              ground (
                arith,
                this,
                lookup-insert r.next_token tok e r.executors,
                nat_eq_iff r.next_token tok,
              ),
              (eq_iff id sid).0 same,
            )
        | inr other ↦
            let (f, there, whose) =
              o.live sid tok
                (ground (arith, at, other, lookup-insert id sid r.next_token r.active_send)) in
            (
              f,
              ground (
                arith,
                there,
                unused,
                lookup-insert r.next_token tok e r.executors,
                nat_eq_iff r.next_token tok,
              ),
              whose,
            )
      ];
      fresh = λ tok le. ground (
        arith,
        le,
        o.fresh tok,
        lookup-insert r.next_token tok e r.executors,
        nat_eq_iff r.next_token tok,
      );
    }

-- The launch of a goroutine is over.
pub unlaunch-IsOwned :
    (tok : ℕ) (e : Executor) (r : Router) (l : List (String × (PendingSend × Bool)))
    → lookup tok r.executors ≡ some e
    → IsOwned r
    → IsOwned
        (record r { executors = insert tok (record e { launch = none }) r.executors; launched = l })
unlaunch-IsOwned tok e r l at o =
    let e' : Executor = record e { launch = none } in
    record {
      owned = λ k f q there here. ground (
        arith,
        there,
        here,
        at,
        o.owned k f q,
        lookup-insert tok k e' r.executors,
        nat_eq_iff tok k,
      );
      live = λ sid k there.
          let (f, found, whose) = o.live sid k there in
          elim (Bool-cases (nat_eq tok k)) [
            | inl same ↦
                let this : f ≡ e = ground (arith, found, at, same, nat_eq_iff tok k) in
                (
                  e',
                  ground (arith, same, lookup-insert tok k e' r.executors),
                  ap (λ g. g.session) (sym this) ∙ whose,
                )
            | inr other ↦
                (f, ground (arith, found, other, lookup-insert tok k e' r.executors), whose)
          ];
      fresh = λ k le.
          ground (arith, o.fresh k le, at, lookup-insert tok k e' r.executors, nat_eq_iff tok k);
    }

pub cleared : ℕ → Option ℕ → Option ℕ
cleared tok none = none
cleared tok (some cur) = if nat_eq cur tok then none else some cur

pub clear_active-lookup :
    (id sid : String) (tok : ℕ) (r : Router)
    → lookup sid (clear_active id tok r).active_send
      ≡ (if id == sid then cleared tok (lookup id r.active_send) else lookup sid r.active_send)
unfolding clear_active cleared
clear_active-lookup id sid tok r = elim (Option-cases (lookup id r.active_send)) [
  | inl e ↦ rw (clear_active, e) (ground (arith, e, eq_iff id sid))
  | inr (cur, e) ↦ elim (Bool-cases (nat_eq cur tok)) [
    | inl f ↦ rw (clear_active, e, f) (lookup-remove id sid r.active_send)
    | inr f ↦ rw (clear_active, e, f) (ground (arith, e, eq_iff id sid))
  ]
]

pub clear_active-executors :
    (id : String) (tok : ℕ) (r : Router) → (clear_active id tok r).executors ≡ r.executors
unfolding clear_active
clear_active-executors id tok r = elim (Option-cases (lookup id r.active_send)) [
  | inl e ↦ rw (clear_active, e) refl
  | inr (cur, e) ↦ rw (clear_active, e) (ground arith)
]

-- The running bit of a goroutine that has launched its turn goes, or stays another's.
pub clear_active-IsOwned :
    (tok : ℕ) (e : Executor) (r : Router)
    → lookup tok r.executors ≡ some e
    → e.launch ≡ none
    → IsOwned r
    → IsOwned (clear_active e.session tok r)
unfolding clear_active
clear_active-IsOwned tok e r at done o = elim (Option-cases (lookup e.session r.active_send)) [
  | inl f ↦ rw (clear_active, f) o
  | inr (cur, f) ↦ elim (Bool-cases (nat_eq cur tok)) [
    | inr g ↦ rw (clear_active, f, g) o
    | inl g ↦
        rw (clear_active, f, g)
          (record {
            owned = λ k h q there here. ground (
              arith,
              there,
              here,
              at,
              done,
              f,
              g,
              o.owned k h q there here,
              lookup-remove e.session h.session r.active_send,
              eq_iff e.session h.session,
              nat_eq_iff cur tok,
            );
            live = λ sid k there.
                o.live sid k (ground (arith, there, lookup-remove e.session sid r.active_send));
            fresh = o.fresh;
          })
  ]
]

-- A goroutine without the running bit ends.
pub remove-IsOwned :
    (tok : ℕ) (e : Executor) (r : Router)
    → lookup tok r.executors ≡ some e
    → lookup e.session r.active_send ≢ some tok
    → IsOwned r
    → IsOwned (record r { executors = remove tok r.executors })
remove-IsOwned tok e r at idle o = record {
  owned = λ k f q there here.
      o.owned k f q (ground (arith, there, lookup-remove tok k r.executors)) here;
  live = λ sid k there.
      let (f, found, whose) = o.live sid k there in
      (
        f,
        ground (
          arith,
          found,
          at,
          idle,
          there,
          whose,
          lookup-remove tok k r.executors,
          nat_eq_iff tok k,
        ),
        whose,
      );
  fresh = λ k le. ground (arith, o.fresh k le, lookup-remove tok k r.executors);
}

pub flush-IsOwned : (id : String) (r : Router) → IsOwned r → IsOwned (flush_send_queue id r)
unfolding flush_send_queue
flush-IsOwned id r o = record { owned = o.owned; live = o.live; fresh = o.fresh }

pub first_in_line :
    (id : String) (r : Router)
    → (is_busy id r || not (is_nil (queue_of id r))) ≡ false
    → queue_of id r ≡ []
first_in_line id r first = elim (List-cases (queue_of id r)) [
  | inl e ↦ e
  | inr (q, qs, e) ↦ absurd (ground (arith, first, e))
]

cleared-idle : (tok : ℕ) (o : Option ℕ) → cleared tok o ≢ some tok
unfolding cleared
cleared-idle tok none e = absurd (ground (arith, e))
cleared-idle tok (some cur) e = absurd (ground (arith, e, nat_eq_iff cur tok))

-- Once a goroutine has cleared its running bit, it does not have it.
pub clear_active-idle :
    (id : String) (tok : ℕ) (r : Router) → lookup id (clear_active id tok r).active_send ≢ some tok
clear_active-idle id tok r at =
    cleared-idle tok (lookup id r.active_send)
      (sym (rw (same_refl id) at (clear_active-lookup id id tok r)) ∙ at)

pub promote-IsOwned : (id : String) (r : Router) → IsOwned r → IsOwned (promote id r)
unfolding promote
promote-IsOwned id r o = elim (Bool-cases (is_busy id r)) [
  | inl busy ↦ rw (promote, busy) o
  | inr idle ↦ elim (List-cases (queue_of id r)) [
    | inl e ↦ rw (promote, idle, e) o
    | inr (p, [], e) ↦
        rw (promote, idle, e)
          (activate-IsOwned id p (record r { send_queue = remove id r.send_queue })
            (is_busy-none id r idle) (record { owned = o.owned; live = o.live; fresh = o.fresh }))
    | inr (p, q ∷ ps, e) ↦
        rw (promote, idle, e)
          (activate-IsOwned id p (record r { send_queue = insert id (q ∷ ps) r.send_queue })
            (is_busy-none id r idle) (record { owned = o.owned; live = o.live; fresh = o.fresh }))
  ]
]

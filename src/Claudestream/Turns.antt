-- ===== src/Claudestream/Turns.antt =====
-- The queue of turns of one child: every request in it waits for its one answer.
use sr_code.Prelude.{
  ℕ, ◌≤◌, ◌≡◌, refl, ◌≢◌, inl, inr, Bool, false, not, ◌&&◌, ◌||◌, Option, none, some, List, [], ◌∷◌,
  ◌++◌, arith, nat_eq, nat_eq_iff, nat_has_eq, string_has_eq, Bool-cases, Option-cases,
}
use sr_code.Prelude.Dict.{lookup, insert, lookup-insert}
use mathlib.Core.Path.{subst}
use sr_code.Claudestream.{
  Result, TurnRequest, Process, new_request, finish, enqueue, drop_last, rollback, send_write, Line,
  result_of, handle_line,
}

unfoldable pub has_turn : ℕ → List (Option ℕ) → Bool
has_turn i [] = false
has_turn i (none ∷ ts) = has_turn i ts
has_turn i (some j ∷ ts) = nat_eq i j || has_turn i ts

-- Every request of the queue has no answer yet, and stands in the queue once.
abbrev pub Waiting : List (Option ℕ) → List (ℕ × TurnRequest) → Type 0
Waiting [] requests = Unit
Waiting (none ∷ ts) requests = Waiting ts requests
Waiting (some i ∷ ts) requests =
    ((r : TurnRequest) × ((lookup i requests ≡ some r) × (r.answer ≡ none)))
    × ((has_turn i ts ≡ false) × Waiting ts requests)

pub record IsSound (p : Process) : Type 0 where
  pub waiting : Waiting p.turns p.requests
  pub fresh : (i : ℕ) → p.next ≤ i → lookup i p.requests ≡ none

pub Waiting-insert_absent :
    (ts : List (Option ℕ)) (i : ℕ) (r : TurnRequest) (m : List (ℕ × TurnRequest))
    → has_turn i ts ≡ false
    → Waiting ts m
    → Waiting ts (insert i r m)
unfolding has_turn
Waiting-insert_absent [] i r m absent w = tt
Waiting-insert_absent (none ∷ ts) i r m absent w = Waiting-insert_absent ts i r m absent w
Waiting-insert_absent (some j ∷ ts) i r m absent w =
    let other : nat_eq i j ≡ false = ground (arith, absent) in
    let later : has_turn i ts ≡ false = ground (arith, absent) in
    (
      (w.0.0, (ground (arith, w.0.1.0, other, lookup-insert i j r m), w.0.1.1)),
      (w.1.0, Waiting-insert_absent ts i r m later w.1.1),
    )

pub Waiting-insert :
    (ts : List (Option ℕ)) (i : ℕ) (r : TurnRequest) (m : List (ℕ × TurnRequest))
    → r.answer ≡ none
    → Waiting ts m
    → Waiting ts (insert i r m)
Waiting-insert [] i r m idle w = tt
Waiting-insert (none ∷ ts) i r m idle w = Waiting-insert ts i r m idle w
Waiting-insert (some j ∷ ts) i r m idle w = elim (Bool-cases (nat_eq i j)) [
  | inl e ↦ (
    (r, (ground (arith, e, lookup-insert i j r m), idle)),
    (w.1.0, Waiting-insert ts i r m idle w.1.1),
  )
  | inr e ↦ (
    (w.0.0, (ground (arith, e, w.0.1.0, lookup-insert i j r m), w.0.1.1)),
    (w.1.0, Waiting-insert ts i r m idle w.1.1),
  )
]

Waiting-absent :
    (ts : List (Option ℕ)) (i : ℕ) (m : List (ℕ × TurnRequest))
    → lookup i m ≡ none
    → Waiting ts m
    → has_turn i ts ≡ false
unfolding has_turn
Waiting-absent [] i m e w = refl
Waiting-absent (none ∷ ts) i m e w = Waiting-absent ts i m e w
Waiting-absent (some j ∷ ts) i m e w =
    ground (arith, Waiting-absent ts i m e w.1.1, w.0.1.0, e, nat_eq_iff i j)

has_turn-append :
    (j i : ℕ) (ts : List (Option ℕ))
    → has_turn j (ts ++ some i ∷ []) ≡ (has_turn j ts || nat_eq j i)
unfolding has_turn
has_turn-append j i [] = ground arith
has_turn-append j i (none ∷ ts) = has_turn-append j i ts
has_turn-append j i (some k ∷ ts) = ground (arith, has_turn-append j i ts)

Waiting-append :
    (ts : List (Option ℕ)) (i : ℕ) (r : TurnRequest) (m : List (ℕ × TurnRequest))
    → has_turn i ts ≡ false
    → lookup i m ≡ some r
    → r.answer ≡ none
    → Waiting ts m
    → Waiting (ts ++ some i ∷ []) m
unfolding has_turn
Waiting-append [] i r m absent e idle w = ((r, (e, idle)), (refl, tt))
Waiting-append (none ∷ ts) i r m absent e idle w = Waiting-append ts i r m absent e idle w
Waiting-append (some j ∷ ts) i r m absent e idle w = (
  w.0,
  (
    ground (arith, absent, w.1.0, has_turn-append j i ts, nat_eq_iff i j, nat_eq_iff j i),
    Waiting-append ts i r m (ground (arith, absent)) e idle w.1.1,
  ),
)

drop_last-append :
    (ts us : List (Option ℕ)) → drop_last ts ≡ some us → (t : Option ℕ) × (ts ≡ us ++ t ∷ [])
unfolding drop_last
drop_last-append [] us e = absurd (ground (arith, e))
drop_last-append (t ∷ []) us e = (t, ground (arith, e))
drop_last-append (t ∷ (u ∷ ts)) us e = elim (Option-cases (drop_last (u ∷ ts))) [
  | inl f ↦ absurd (ground (arith, e, f))
  | inr (vs, f) ↦ let (last, g) = drop_last-append (u ∷ ts) vs f in (last, ground (arith, e, f, g))
]

has_turn-front :
    (j : ℕ) (us : List (Option ℕ)) (t : Option ℕ)
    → has_turn j (us ++ t ∷ []) ≡ false
    → has_turn j us ≡ false
unfolding has_turn
has_turn-front j [] t e = refl
has_turn-front j (none ∷ us) t e = has_turn-front j us t e
has_turn-front j (some k ∷ us) t e = ground (arith, e, has_turn-front j us t)

Waiting-front :
    (us : List (Option ℕ)) (t : Option ℕ) (m : List (ℕ × TurnRequest))
    → Waiting (us ++ t ∷ []) m
    → Waiting us m
Waiting-front [] t m w = tt
Waiting-front (none ∷ us) t m w = Waiting-front us t m w
Waiting-front (some j ∷ us) t m w = (w.0, (has_turn-front j us t w.1.0, Waiting-front us t m w.1.1))

pub send_write-IsSound :
    (pipe_ok ok : Bool) (p q : Process)
    → IsSound p
    → send_write pipe_ok p ≡ some (ok, q)
    → IsSound q
unfolding send_write rollback
send_write-IsSound pipe_ok ok p q s e = elim (Bool-cases (not p.stopping && pipe_ok)) [
  | inl written ↦ let same : p ≡ q = ground (arith, e, written) in subst IsSound same s
  | inr failed ↦ elim (Option-cases (drop_last p.turns)) [
    | inl f ↦ absurd (ground (arith, e, failed, f))
    | inr (us, f) ↦
        let cut : record p { turns = us } ≡ q = ground (arith, e, failed, f) in
        let (t, turns) = drop_last-append p.turns us f in
        subst IsSound cut (record {
          waiting =
              Waiting-front us t p.requests (subst (λ ts. Waiting ts p.requests) turns s.waiting);
          fresh = s.fresh;
        })
  ]
]

pub finish-waiting :
    (i : ℕ) (res : Result) (r : TurnRequest) (m : List (ℕ × TurnRequest))
    → lookup i m ≡ some r
    → r.answer ≡ none
    → finish i res m ≡ some (insert i (record r { answer = some res }) m)
unfolding finish
finish-waiting i res r m e idle = rw (finish, e, idle) refl

pub insert-fresh :
    (n i : ℕ) (r s : TurnRequest) (m : List (ℕ × TurnRequest))
    → ((k : ℕ) → n ≤ k → lookup k m ≡ none)
    → lookup i m ≡ some s
    → (k : ℕ) → n ≤ k
    → lookup k (insert i r m) ≡ none
insert-fresh n i r s m fresh e k le =
    ground (arith, fresh k le, e, lookup-insert i k r m, nat_eq_iff i k)

pub enqueue-IsSound : (now : ℕ) (p : Process) → IsSound p → IsSound (enqueue now p).1.1
unfolding enqueue
enqueue-IsSound now p s =
    let none_there : lookup p.next p.requests ≡ none = s.fresh p.next (omega arith) in
    let absent : has_turn p.next p.turns ≡ false =
      Waiting-absent p.turns p.next p.requests none_there s.waiting in
    record {
      waiting =
          Waiting-append p.turns p.next new_request (insert p.next new_request p.requests) absent
            (ground (arith, lookup-insert p.next p.next new_request p.requests)) refl
            (Waiting-insert p.turns p.next new_request p.requests refl s.waiting);
      fresh = λ k le. ground (
        arith,
        s.fresh k (omega (arith, le)),
        le,
        nat_eq_iff p.next k,
        lookup-insert p.next k new_request p.requests,
      );
    }

-- What the end of a turn does: the request that waits longest has its answer, every other request
-- is as it was, and the queue is the rest.
pub record IsAnswered (l : Line) (i : ℕ) (ts : List (Option ℕ)) (p q : Process) : Type 0 where
  pub rest : q.turns ≡ ts
  pub answered :
      (r : TurnRequest) × ((lookup i q.requests ≡ some r)
        × ((old : TurnRequest) × ((lookup i p.requests ≡ some old)
              × (r.answer ≡ some (result_of l old.model)))))
  pub others : (j : ℕ) → i ≢ j → lookup j q.requests ≡ lookup j p.requests
  pub sound : IsSound q

pub handle_line-answers :
    (l : Line) (now : ℕ) (p : Process) (i : ℕ) (ts : List (Option ℕ))
    → IsSound p
    → l.kind ≡ "result"
    → p.turns ≡ some i ∷ ts
    → (q : Process) × ((handle_line l now p ≡ some q) × IsAnswered l i ts p q)
unfolding handle_line
handle_line-answers l now p i ts s k turns =
    let w = subst (λ us. Waiting us p.requests) turns s.waiting in
    let r = w.0.0 in
    let res = result_of l r.model in
    let rs = insert i (record r { answer = some res }) p.requests in
    (
      record p { turns = ts; requests = rs; last_used = now },
      (
        rw (k, turns) (rw w.0.1.0 (rw (finish-waiting i res r p.requests w.0.1.0 w.0.1.1) refl)),
        record {
          rest = refl;
          answered = (
            record r { answer = some res },
            (
              ground (arith, lookup-insert i i (record r { answer = some res }) p.requests),
              (r, (w.0.1.0, refl)),
            ),
          );
          others = λ j ne. ground (
            arith,
            ne,
            nat_eq_iff i j,
            lookup-insert i j (record r { answer = some res }) p.requests,
          );
          sound = record {
            waiting = Waiting-insert_absent ts i _ p.requests w.1.0 w.1.1;
            fresh = insert-fresh p.next i _ r p.requests s.fresh w.0.1.0;
          };
        },
      ),
    )

-- ===== src/Claudestream/Ends.antt =====
-- How turns end: lines of every kind, the exit of the child, and the exit between the queueing of
-- a prompt and its write.
use sr_code.Prelude.{
  ℕ, ◌+◌, ◌≤◌, ◌≡◌, refl, ◌∙◌, inl, inr, Bool, true, false, ◌||◌, Option, none, some, List, [], ◌∷◌,
  ◌++◌, arith, eq_iff, nat_eq_iff, ◌==◌, nat_has_eq, string_has_eq, Bool-cases, Option-cases,
}
use sr_code.Prelude.Dict.{lookup, insert, lookup-insert, kept}
use mathlib.Core.Path.{subst}
use sr_code.Claudestream.{
  TurnRequest, Process, enqueue, drop_last, rollback, send_write, Line, marks_spontaneous_turn,
  preview, see, mark_turn, handle_line, process_exited, finish_all, died,
}
use sr_code.Claudestream.Turns.{
  has_turn, Waiting, IsSound, Waiting-insert_absent, Waiting-insert, finish-waiting, insert-fresh,
  handle_line-answers,
}

preview-answer : (l : Line) (r : TurnRequest) → (preview l r).answer ≡ r.answer
unfolding preview
preview-answer l r = ground arith

see-IsSound :
    (l : Line) (p : Process) (ts : List (Option ℕ))
    → Waiting ts p.requests
    → ((i : ℕ) → p.next ≤ i → lookup i p.requests ≡ none)
    → IsSound (record p { turns = ts; requests = see l ts p.requests })
unfolding see
see-IsSound l p [] w fresh = record { waiting = w; fresh = fresh }
see-IsSound l p (none ∷ ts) w fresh = record { waiting = w; fresh = fresh }
see-IsSound l p (some i ∷ ts) w fresh =
    let r = w.0.0 in
    rw (see, w.0.1.0)
      (record {
        waiting =
            Waiting-insert (some i ∷ ts) i (preview l r) p.requests (preview-answer l r ∙ w.0.1.1)
              w;
        fresh = insert-fresh p.next i (preview l r) r p.requests fresh w.0.1.0;
      })

mark_turn-Waiting :
    (l : Line) (ts : List (Option ℕ)) (m : List (ℕ × TurnRequest))
    → Waiting ts m
    → Waiting (mark_turn l ts) m
unfolding mark_turn
mark_turn-Waiting l [] m w =
    elim (Bool-cases (marks_spontaneous_turn l.kind l.subtype l.event_type)) [
      | inl e ↦ rw (mark_turn, e) tt
      | inr e ↦ rw (mark_turn, e) tt
    ]
mark_turn-Waiting l (t ∷ ts) m w = w

result-IsSound :
    (l : Line) (now : ℕ) (p : Process) (ts : List (Option ℕ))
    → l.kind ≡ "result"
    → p.turns ≡ ts
    → IsSound p
    → (q : Process) × ((handle_line l now p ≡ some q) × IsSound q)
unfolding handle_line
result-IsSound l now p [] k e s = (
  record p { last_used = now },
  (rw (k, e) refl, record { waiting = s.waiting; fresh = s.fresh }),
)
result-IsSound l now p (none ∷ ts) k e s = (
  record p { turns = ts; last_used = now },
  (
    rw (k, e) refl,
    record { waiting = subst (λ us. Waiting us p.requests) e s.waiting; fresh = s.fresh },
  ),
)
result-IsSound l now p (some i ∷ ts) k e s =
    let (q, (f, answered)) = handle_line-answers l now p i ts s k e in (q, (f, answered.sound))

-- In a sound state no line of the child makes the handler panic, and the state stays sound.
pub handle_line-IsSound :
    (l : Line) (now : ℕ) (p : Process)
    → IsSound p
    → (q : Process) × ((handle_line l now p ≡ some q) × IsSound q)
unfolding handle_line
handle_line-IsSound l now p s =
    elim (Bool-cases (l.kind == "control_request" || l.kind == "control_cancel_request")) [
      | inl c ↦ (p, (rw c refl, s))
      | inr c ↦ elim (Bool-cases (l.kind == "result")) [
        | inl k ↦ result-IsSound l now p p.turns ((eq_iff l.kind "result").0 k) refl s
        | inr k ↦
            let ts = mark_turn l p.turns in
            (
              record p { turns = ts; requests = see l ts p.requests },
              (
                rw (c, k) refl,
                see-IsSound l p ts (mark_turn-Waiting l p.turns p.requests s.waiting) s.fresh,
              ),
            )
      ]
    ]

-- What the exit of the child does to the requests that wait.
finish_all-answers :
    (ts : List (Option ℕ)) (m : List (ℕ × TurnRequest))
    → Waiting ts m
    → (m' : List (ℕ × TurnRequest)) × ((finish_all ts m ≡ some m')
        × (((i : ℕ)
              → has_turn i ts ≡ true
              → (r : TurnRequest) × ((lookup i m' ≡ some r) × (r.answer ≡ some process_exited)))
            × ((i : ℕ) → has_turn i ts ≡ false → lookup i m' ≡ lookup i m)))
unfolding finish_all has_turn
finish_all-answers [] m w = (m, (refl, (λ i e. absurd (ground (arith, e)), λ i e. refl)))
finish_all-answers (none ∷ ts) m w = finish_all-answers ts m w
finish_all-answers (some j ∷ ts) m w =
    let r = w.0.0 in
    let m1 = insert j (record r { answer = some process_exited }) m in
    let (m', (e, (done, kept))) =
      finish_all-answers ts m1 (Waiting-insert_absent ts j _ m w.1.0 w.1.1) in
    (
      m',
      (
        rw (finish_all, finish-waiting j process_exited r m w.0.1.0 w.0.1.1) e,
        (
          λ i f. elim (Bool-cases (has_turn i ts)) [
            | inl later ↦ done i later
            | inr here ↦ (
              record r { answer = some process_exited },
              (
                ground (
                  arith,
                  kept i here,
                  f,
                  here,
                  nat_eq_iff i j,
                  lookup-insert j i (record r { answer = some process_exited }) m,
                ),
                refl,
              ),
            )
          ],
          λ i f. ground (
            arith,
            kept i,
            f,
            nat_eq_iff i j,
            lookup-insert j i (record r { answer = some process_exited }) m,
          ),
        ),
      ),
    )

-- In a sound state the exit of the child does not panic: it empties the queue, gives every request
-- that waits the answer `process_exited`, and leaves every answer that was given before.
pub died-answers :
    (p : Process)
    → IsSound p
    → (q : Process) × ((died p ≡ some q)
        × ((q.turns ≡ [])
            × (((i : ℕ)
                  → has_turn i p.turns ≡ true
                  → (r : TurnRequest) × ((lookup i q.requests ≡ some r)
                      × (r.answer ≡ some process_exited)))
                × ((i : ℕ)
                    → has_turn i p.turns ≡ false
                    → lookup i q.requests ≡ lookup i p.requests))))
unfolding died
died-answers p s =
    let (m, (e, rest)) = finish_all-answers p.turns p.requests s.waiting in
    (record p { turns = []; requests = m; stopping = true }, (rw e refl, (refl, rest)))

-- If the child exits after `Send` has queued its request and before it has written the prompt, the
-- write fails and the undoing of the queueing panics on the emptied queue.
pub exit_before_write_panics :
    (now : ℕ) (pipe_ok : Bool) (p q : Process)
    → died (enqueue now p).1.1 ≡ some q
    → send_write pipe_ok q ≡ none
unfolding died send_write rollback drop_last
exit_before_write_panics now pipe_ok p q e =
    elim (Option-cases (finish_all (enqueue now p).1.1.turns (enqueue now p).1.1.requests)) [
      | inl f ↦ absurd (ground (arith, e, f))
      | inr (m, f) ↦ ground (arith, e, f)
    ]

drop_last-append_one : (ts : List (Option ℕ)) (t : Option ℕ) → drop_last (ts ++ t ∷ []) ≡ some ts
unfolding drop_last
drop_last-append_one [] t = refl
drop_last-append_one (u ∷ []) t = refl
drop_last-append_one (u ∷ (v ∷ ts)) t = rw (drop_last-append_one (v ∷ ts) t) refl

-- The queue that a write leaves.
abbrev pub turns_left : Option (Bool × Process) → Option (List (Option ℕ))
turns_left none = none
turns_left (some (ok, p)) = some p.turns

failed_write-turns_left :
    (p : Process) (ts : List (Option ℕ)) (t : Option ℕ)
    → p.turns ≡ ts ++ t ∷ []
    → turns_left (send_write false p) ≡ some ts
unfolding send_write rollback
failed_write-turns_left p ts t e = elim (Bool-cases p.stopping) [
  | inl b ↦ rw (b, e, drop_last-append_one ts t) refl
  | inr b ↦ rw (b, e, drop_last-append_one ts t) refl
]

-- If nothing else is queued between, the undoing of a failed write takes just the sender's own
-- request out of the queue; if a second request was queued meanwhile, it takes that one out, and
-- the request whose write failed stays.
pub failed_write_drops_last :
    (now later : ℕ) (p : Process)
    → (turns_left (send_write false (enqueue now p).1.1) ≡ some p.turns)
      × (turns_left (send_write false (enqueue later (enqueue now p).1.1).1.1)
          ≡ some (p.turns ++ some p.next ∷ []))
unfolding enqueue
failed_write_drops_last now later p = (
  failed_write-turns_left (enqueue now p).1.1 p.turns (some p.next) refl,
  failed_write-turns_left (enqueue later (enqueue now p).1.1).1.1 (p.turns ++ some p.next ∷ [])
      (some (p.next + 1)) refl,
)

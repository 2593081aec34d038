-- ===== src/Sender/Tail/Turn.antt =====
-- What goes out depends on the lines of the log alone.
use sr_code.Prelude.{
  ℕ, zero, suc, ◌≡◌, refl, sym, ap, ◌∙◌, inl, inr, Bool, true, false, List, [], ◌∷◌, ◌++◌, arith,
  nat_eq, nat_has_eq, string_has_eq, if◌then◌else◌, Bool-cases,
}
use mathlib.Core.Path.{subst}
use mathlib.Core.List.{append-nil, append_assoc}
use sr_code.Sender.Tail.{
  is_empty, StreamEvent, line_event, error_event, exit_event, TailConfig, Tail, start, send,
  emit_exit, complete_line, aborted_line, trim_line, take_line, read_byte, read_all, read_polls,
}

-- The complete lines of some bytes, without their ends; `before` is the beginning of the first.
abbrev pub complete_lines : List ℕ → List ℕ → List (List ℕ)
complete_lines before [] = []
complete_lines before (b ∷ bs) =
    let rest = complete_lines (if nat_eq b 10 then [] else before ++ b ∷ []) bs in
    if nat_eq b 10 then trim_line (before ++ b ∷ []) ∷ rest else rest

-- The events of a turn, from its lines: every line that is not empty goes out, up to the first that
-- completes the turn when no earlier turn is still to be completed, which is told by an exit, or to the
-- first that aborts it, which goes out with an error and an exit.
abbrev pub turn_events : TailConfig → ℕ → List (List ℕ) → List StreamEvent
turn_events cfg skip [] = []
turn_events cfg skip (line ∷ lines) =
    let more = turn_events cfg skip lines in
    if is_empty line
    then more
    else if cfg.turn_complete line
    then elim skip [ zero ↦ exit_event "" ∷ [] | suc n ↦ line_event line ∷ turn_events cfg n lines ]
    else if cfg.turn_aborted line
    then line_event line
      ∷ error_event "turn aborted before completion"
      ∷ exit_event "turn_aborted"
      ∷ []
    else line_event line ∷ more

closed-read_all :
    (cfg : TailConfig) (bytes : List ℕ) (t : Tail) → t.is_closed ≡ true → read_all cfg bytes t ≡ t
unfolding read_all
closed-read_all cfg [] t closed = refl
closed-read_all cfg (b ∷ bs) t closed = rw (read_all, closed) refl

-- What has gone out, and what the lines to come would add.
abbrev foreseen : TailConfig → List (List ℕ) → Tail → List StreamEvent
foreseen cfg lines t =
    if t.is_closed then t.out else t.out ++ turn_events cfg t.skip_completions lines

complete-foreseen :
    (cfg : TailConfig) (line pending : List ℕ) (skip : ℕ) (out : List StreamEvent)
    (lines : List (List ℕ))
    → foreseen cfg lines (
        complete_line line
          (record { pending = pending; skip_completions = skip; out = out; is_closed = false }))
      ≡ out ++ (elim skip [
        | zero ↦ exit_event "" ∷ []
        | suc n ↦ line_event line ∷ turn_events cfg n lines
      ])
unfolding complete_line emit_exit send
complete-foreseen cfg line pending zero out lines = refl
complete-foreseen cfg line pending (suc skip) out lines =
    append_assoc out (line_event line ∷ []) (turn_events cfg skip lines)

-- A line, and what follows it.
line-foreseen :
    (cfg : TailConfig) (line : List ℕ) (lines : List (List ℕ)) (t : Tail)
    → t.is_closed ≡ false
    → foreseen cfg lines (take_line cfg line t)
      ≡ t.out ++ turn_events cfg t.skip_completions (line ∷ lines)
unfolding take_line aborted_line emit_exit send
line-foreseen cfg line lines t running = elim (Bool-cases (is_empty line)) [
  | inl e ↦ rw (take_line, e, running) refl
  | inr e ↦ elim (Bool-cases (cfg.turn_complete line)) [
    | inl f ↦
        rw (take_line, e, f)
          (subst
            (λ c.
              foreseen cfg lines (complete_line line (record t { is_closed = c }))
              ≡ t.out ++ (elim t.skip_completions [
                | zero ↦ exit_event "" ∷ []
                | suc n ↦ line_event line ∷ turn_events cfg n lines
              ]))
            (sym running) (complete-foreseen cfg line t.pending t.skip_completions t.out lines))
    | inr f ↦ elim (Bool-cases (cfg.turn_aborted line)) [
      | inl g ↦
          rw (take_line, e, f, g)
            (append_assoc (t.out ++ line_event line ∷ [])
                (error_event "turn aborted before completion" ∷ []) (exit_event "turn_aborted" ∷ [])
              ∙ append_assoc t.out (line_event line ∷ [])
                  (error_event "turn aborted before completion" ∷ exit_event "turn_aborted" ∷ []))
      | inr g ↦
          rw (take_line, e, f, g, running)
            (append_assoc t.out (line_event line ∷ []) (turn_events cfg t.skip_completions lines))
    ]
  ]
]

closed-foreseen :
    (cfg : TailConfig) (lines lines' : List (List ℕ)) (t : Tail)
    → t.is_closed ≡ true
    → foreseen cfg lines t ≡ foreseen cfg lines' t
closed-foreseen cfg lines lines' t closed = ground (arith, closed)

nothing_more :
    (cfg : TailConfig) (pending : List ℕ) (skip : ℕ) (out : List StreamEvent) (closed : Bool)
    → out ≡ (if closed then out else out ++ [])
nothing_more cfg pending skip out true = refl
nothing_more cfg pending skip out false = sym (append-nil out)

complete-pending :
    (line pending : List ℕ) (skip : ℕ) (out : List StreamEvent) (closed : Bool)
    → (complete_line line (record {
      pending = pending;
      skip_completions = skip;
      out = out;
      is_closed = closed;
    })).pending
      ≡ pending
unfolding complete_line emit_exit send
complete-pending line pending zero out closed = refl
complete-pending line pending (suc skip) out closed = refl

take_line-pending :
    (cfg : TailConfig) (line : List ℕ) (t : Tail) → (take_line cfg line t).pending ≡ t.pending
unfolding take_line complete_line aborted_line emit_exit send
take_line-pending cfg line t = elim (Bool-cases (is_empty line)) [
  | inl e ↦ rw (take_line, e) refl
  | inr e ↦ elim (Bool-cases (cfg.turn_complete line)) [
    | inl f ↦
        rw (take_line, e, f) (complete-pending line t.pending t.skip_completions t.out t.is_closed)
    | inr f ↦ elim (Bool-cases (cfg.turn_aborted line)) [
      | inl g ↦ rw (take_line, e, f, g) refl
      | inr g ↦ rw (take_line, e, f, g) refl
    ]
  ]
]

-- A byte, and what follows it.
read_byte-foreseen :
    (cfg : TailConfig) (b : ℕ) (more : List ℕ) (t : Tail)
    → t.is_closed ≡ false
    → foreseen cfg (complete_lines (read_byte cfg b t).pending more) (read_byte cfg b t)
      ≡ foreseen cfg (complete_lines t.pending (b ∷ more)) t
unfolding read_byte
read_byte-foreseen cfg b more t running = elim (Bool-cases (nat_eq b 10)) [
  | inr e ↦ rw (read_byte, e) refl
  | inl e ↦
      let t0 : Tail = record t { pending = [] } in
      let line : List ℕ = trim_line (t.pending ++ b ∷ []) in
      rw (read_byte, e)
        (ap (λ p. foreseen cfg (complete_lines p more) (take_line cfg line t0))
            (take_line-pending cfg line t0)
          ∙ (line-foreseen cfg line (complete_lines [] more) t0 running
              ∙ ap
                  (λ (c : Bool).
                    if c
                    then t.out
                    else t.out
                      ++ turn_events cfg t.skip_completions (line ∷ complete_lines [] more))
                  (sym running)))
]

-- The bytes of a poll, and those of the polls to come.
read_all-foreseen :
    (cfg : TailConfig) (bytes more : List ℕ) (t : Tail)
    → foreseen cfg (complete_lines (read_all cfg bytes t).pending more) (read_all cfg bytes t)
      ≡ foreseen cfg (complete_lines t.pending (bytes ++ more)) t
unfolding read_all
read_all-foreseen cfg [] more t = refl
read_all-foreseen cfg (b ∷ bs) more t = elim (Bool-cases t.is_closed) [
  | inl closed ↦
      ap (λ s. foreseen cfg (complete_lines s.pending more) s)
        (closed-read_all cfg (b ∷ bs) t closed)
      ∙ closed-foreseen cfg (complete_lines t.pending more)
          (complete_lines t.pending ((b ∷ bs) ++ more)) t closed
  | inr running ↦
      ap (λ s. foreseen cfg (complete_lines s.pending more) s)
        (ap (λ (c : Bool). if c then t else read_all cfg bs (read_byte cfg b t)) running)
      ∙ (read_all-foreseen cfg bs more (read_byte cfg b t)
          ∙ read_byte-foreseen cfg b (bs ++ more) t running)
]

abbrev pub concat : List (List ℕ) → List ℕ
concat [] = []
concat (bytes ∷ polls) = bytes ++ concat polls

read_polls-foreseen :
    (cfg : TailConfig) (polls : List (List ℕ)) (t : Tail)
    → (read_polls cfg polls t).out ≡ foreseen cfg (complete_lines t.pending (concat polls)) t
unfolding read_polls
read_polls-foreseen cfg [] t = nothing_more cfg t.pending t.skip_completions t.out t.is_closed
read_polls-foreseen cfg (bytes ∷ polls) t =
    read_polls-foreseen cfg polls (read_all cfg bytes t)
    ∙ read_all-foreseen cfg bytes (concat polls) t

-- However the growth of the log is cut into polls, what goes out is the turn's events of the log's
-- complete lines.
pub read_polls-turn_events :
    (cfg : TailConfig) (skip : ℕ) (polls : List (List ℕ))
    → (read_polls cfg polls (start skip)).out
      ≡ turn_events cfg skip (complete_lines [] (concat polls))
read_polls-turn_events cfg skip polls = read_polls-foreseen cfg polls (start skip)

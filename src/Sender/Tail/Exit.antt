-- ===== src/Sender/Tail/Exit.antt =====
-- A turn is told to have ended once, and nothing goes out after that.
use sr_code.Prelude.{
  ℕ, zero, suc, ◌-◌, String, ◌≡◌, refl, sym, ap, ◌⊎◌, inl, inr, Bool, true, false, Option, none,
  some, List, [], ◌∷◌, ◌++◌, arith, nat_eq, nat_eq_iff, nat_has_eq, string_has_eq, if◌then◌else◌,
  Bool-cases, All,
}
use mathlib.Core.Path.{subst}
use sr_code.Sender.Tail.{
  is_empty, StreamEvent, line_event, error_event, exit_event, TailConfig, Tail, start, send,
  emit_exit, emit_io_error, Try, opens, ctx_done, ticks, deadline, failed, not_appeared,
  open_when_ready, begin_tail, tail_turn, fail_read, complete_line, aborted_line, trim_line,
  take_line, read_byte, read_all, cancel,
}
use Prim.Native.String.{◌++◌ as str_append}

-- The goroutine waits for the log, or has given up, or reads it.
pub data Reach (cfg : TailConfig) (path : String) (skip : ℕ) : Tail → Type 0 where
  starts :
      (tries : List Try) (seek_error : Option String)
      → Reach cfg path skip (tail_turn path skip tries seek_error)
  polls :
      {t : Tail} (bytes : List ℕ)
      → Reach cfg path skip t
      → Reach cfg path skip (read_all cfg bytes t)
  fails : {t : Tail} (err : String) → Reach cfg path skip t → Reach cfg path skip (fail_read err t)
  cancels : {t : Tail} → Reach cfg path skip t → Reach cfg path skip (cancel t)

abbrev pub is_exit : StreamEvent → Bool
is_exit (line_event line) = false
is_exit (error_event message) = false
is_exit (exit_event reason) = true

abbrev pub NoExit : List StreamEvent → Type 0
NoExit = All (λ ev. is_exit ev ≡ false)

-- The events before the end, and the exit, if the channel is closed; or the log has not appeared.
record IsEnded (path : String) (t : Tail) : Type 0 where
  before : List StreamEvent
  no_exit : NoExit before
  open_out : t.is_closed ≡ false → t.out ≡ before
  closed_out :
      t.is_closed ≡ true
      → ((reason : String) × (t.out ≡ before ++ exit_event reason ∷ []))
        ⊎ (t.out ≡ error_event (not_appeared path) ∷ [])

snoc-NoExit :
    (evs : List StreamEvent) (ev : StreamEvent)
    → NoExit evs
    → is_exit ev ≡ false
    → NoExit (evs ++ ev ∷ [])
snoc-NoExit [] ev f e = (e, tt)
snoc-NoExit (x ∷ evs) ev f e = (f.0, snoc-NoExit evs ev f.1 e)

module _ (path : String) where
  send-IsEnded :
      (ev : StreamEvent) (t : Tail)
      → t.is_closed ≡ false
      → is_exit ev ≡ false
      → IsEnded path t
      → IsEnded path (send ev t)
  unfolding send
  send-IsEnded ev t running other i = record {
    before = i.before ++ ev ∷ [];
    no_exit = snoc-NoExit i.before ev i.no_exit other;
    open_out = λ r. ap (λ evs. evs ++ ev ∷ []) (i.open_out running);
    closed_out = λ closed. absurd (ground (arith, closed, running));
  }

  emit_exit-IsEnded :
      (reason : String) (t : Tail)
      → t.is_closed ≡ false
      → IsEnded path t
      → IsEnded path (emit_exit reason t)
  unfolding emit_exit send
  emit_exit-IsEnded reason t running i = record {
    before = i.before;
    no_exit = i.no_exit;
    open_out = λ r. absurd (ground (arith, r));
    closed_out =
        λ closed. inl (reason, ap (λ evs. evs ++ exit_event reason ∷ []) (i.open_out running));
  }

  complete_line-IsEnded :
      (line : List ℕ) (t : Tail)
      → t.is_closed ≡ false
      → IsEnded path t
      → IsEnded path (complete_line line t)
  unfolding complete_line
  complete_line-IsEnded line t running i = elim (Bool-cases (nat_eq t.skip_completions 0)) [
    | inl e ↦
        let none_left : t.skip_completions ≡ 0 =
          ground (arith, e, nat_eq_iff t.skip_completions 0) in
        rw (complete_line, none_left) (emit_exit-IsEnded "" t running i)
    | inr e ↦
        let one_less : t.skip_completions ≡ suc (t.skip_completions - 1) =
          ground (arith, e, nat_eq_iff t.skip_completions 0) in
        subst
          (λ n. IsEnded path (elim n [
            | zero ↦ emit_exit "" t
            | suc k ↦ send (line_event line) (record t { skip_completions = k })
          ]))
          (sym one_less)
          (send-IsEnded (line_event line) (record t { skip_completions = t.skip_completions - 1 })
            running refl
            (record {
              before = i.before;
              no_exit = i.no_exit;
              open_out = i.open_out;
              closed_out = i.closed_out;
            }))
  ]

  take_line-IsEnded :
      (cfg : TailConfig) (line : List ℕ) (t : Tail)
      → t.is_closed ≡ false
      → IsEnded path t
      → IsEnded path (take_line cfg line t)
  unfolding take_line aborted_line send
  take_line-IsEnded cfg line t running i = elim (Bool-cases (is_empty line)) [
    | inl e ↦ rw (take_line, e) i
    | inr e ↦ elim (Bool-cases (cfg.turn_complete line)) [
      | inl f ↦ rw (take_line, e, f) (complete_line-IsEnded line t running i)
      | inr f ↦
          let sent = send-IsEnded (line_event line) t running refl i in
          elim (Bool-cases (cfg.turn_aborted line)) [
            | inl g ↦
                rw (take_line, e, f, g)
                  (emit_exit-IsEnded "turn_aborted"
                    (send (error_event "turn aborted before completion") (send (line_event line) t))
                    running
                    (send-IsEnded (error_event "turn aborted before completion")
                      (send (line_event line) t) running refl sent))
            | inr g ↦ rw (take_line, e, f, g) sent
          ]
    ]
  ]

  read_byte-IsEnded :
      (cfg : TailConfig) (b : ℕ) (t : Tail)
      → t.is_closed ≡ false
      → IsEnded path t
      → IsEnded path (read_byte cfg b t)
  unfolding read_byte
  read_byte-IsEnded cfg b t running i = elim (Bool-cases (nat_eq b 10)) [
    | inl e ↦
        rw (read_byte, e)
          (take_line-IsEnded cfg (trim_line (t.pending ++ b ∷ [])) (record t { pending = [] })
            running
            (record {
              before = i.before;
              no_exit = i.no_exit;
              open_out = i.open_out;
              closed_out = i.closed_out;
            }))
    | inr e ↦
        rw (read_byte, e)
          (record {
            before = i.before;
            no_exit = i.no_exit;
            open_out = i.open_out;
            closed_out = i.closed_out;
          })
  ]

  read_all-IsEnded :
      (cfg : TailConfig) (bytes : List ℕ) (t : Tail)
      → IsEnded path t
      → IsEnded path (read_all cfg bytes t)
  unfolding read_all
  read_all-IsEnded cfg [] t i = i
  read_all-IsEnded cfg (b ∷ bs) t i = elim (Bool-cases t.is_closed) [
    | inl closed ↦
        subst (λ (c : Bool). IsEnded path (if c then t else read_all cfg bs (read_byte cfg b t)))
          (sym closed) i
    | inr running ↦
        subst (λ (c : Bool). IsEnded path (if c then t else read_all cfg bs (read_byte cfg b t)))
          (sym running)
          (read_all-IsEnded cfg bs (read_byte cfg b t) (read_byte-IsEnded cfg b t running i))
  ]

  emit_io_error-IsEnded :
      (message : String) (t : Tail)
      → t.is_closed ≡ false
      → IsEnded path t
      → IsEnded path (emit_io_error message t)
  unfolding emit_io_error send
  emit_io_error-IsEnded message t running i =
      emit_exit-IsEnded "tail_error" (send (error_event message) t) running
        (send-IsEnded (error_event message) t running refl i)

  fail_read-IsEnded : (err : String) (t : Tail) → IsEnded path t → IsEnded path (fail_read err t)
  unfolding fail_read
  fail_read-IsEnded err t i = elim (Bool-cases t.is_closed) [
    | inl closed ↦
        subst
          (λ (c : Bool).
            IsEnded path (if c then t else emit_io_error (str_append "tail read: " err) t))
          (sym closed) i
    | inr running ↦
        subst
          (λ (c : Bool).
            IsEnded path (if c then t else emit_io_error (str_append "tail read: " err) t))
          (sym running) (emit_io_error-IsEnded (str_append "tail read: " err) t running i)
  ]

  cancel-IsEnded : (t : Tail) → IsEnded path t → IsEnded path (cancel t)
  unfolding cancel
  cancel-IsEnded t i = elim (Bool-cases t.is_closed) [
    | inl closed ↦
        subst (λ (c : Bool). IsEnded path (if c then t else emit_exit "" t)) (sym closed) i
    | inr running ↦
        subst (λ (c : Bool). IsEnded path (if c then t else emit_exit "" t)) (sym running)
          (emit_exit-IsEnded "" t running i)
  ]

start-IsEnded : (path : String) (skip : ℕ) → IsEnded path (start skip)
start-IsEnded path skip = record {
  before = [];
  no_exit = tt;
  open_out = λ r. refl;
  closed_out = λ closed. absurd (ground (arith, closed));
}

-- After a deadline that has passed.
gives_up-IsEnded :
    (path : String) (skip : ℕ) (done : Bool) (seek_error : Option String)
    → IsEnded path
        (begin_tail (failed done) seek_error (send (error_event (not_appeared path)) (start skip)))
unfolding begin_tail send
gives_up-IsEnded path skip true seek_error =
    emit_exit-IsEnded path "" (send (error_event (not_appeared path)) (start skip)) refl (
      send-IsEnded path (error_event (not_appeared path)) (start skip) refl refl
        (start-IsEnded path skip))
gives_up-IsEnded path skip false seek_error = record {
  before = [];
  no_exit = tt;
  open_out = λ r. absurd (ground (arith, r));
  closed_out = λ closed. inr refl;
}

tail_turn-IsEnded :
    (path : String) (skip : ℕ) (tries : List Try) (seek_error : Option String)
    → IsEnded path (tail_turn path skip tries seek_error)
unfolding tail_turn open_when_ready begin_tail
tail_turn-IsEnded path skip [] seek_error = start-IsEnded path skip
tail_turn-IsEnded path skip (opens ∷ tries) none = start-IsEnded path skip
tail_turn-IsEnded path skip (opens ∷ tries) (some err) =
    emit_io_error-IsEnded path (str_append "tail seek: " err) (start skip) refl
      (start-IsEnded path skip)
tail_turn-IsEnded path skip (ctx_done ∷ tries) seek_error =
    emit_exit-IsEnded path "" (start skip) refl (start-IsEnded path skip)
tail_turn-IsEnded path skip (deadline done ∷ tries) seek_error =
    gives_up-IsEnded path skip done seek_error
tail_turn-IsEnded path skip (ticks ∷ tries) seek_error =
    tail_turn-IsEnded path skip tries seek_error

reach-IsEnded :
    {cfg : TailConfig} {path : String} {skip : ℕ} {t : Tail}
    → Reach cfg path skip t
    → IsEnded path t
reach-IsEnded {path = path} {skip} (starts tries seek_error) =
    tail_turn-IsEnded path skip tries seek_error
reach-IsEnded {cfg} {path} (polls {t} bytes reach) =
    read_all-IsEnded path cfg bytes t (reach-IsEnded reach)
reach-IsEnded {path = path} (fails {t} err reach) =
    fail_read-IsEnded path err t (reach-IsEnded reach)
reach-IsEnded {path = path} (cancels {t} reach) = cancel-IsEnded path t (reach-IsEnded reach)

-- Whatever the waits for the log, the seek and the reads find, and whenever the turn is cancelled: as
-- long as the channel is open no exit has gone out; and once it is closed one exit has, as the last
-- event, or else the log did not appear in time, and the error that says so is all that has gone out.
pub one_exit_at_the_end :
    (cfg : TailConfig) (path : String) (skip : ℕ) (t : Tail)
    → Reach cfg path skip t
    → (t.is_closed ≡ false → NoExit t.out)
      × (t.is_closed ≡ true
          → ((before : List StreamEvent) × (reason : String) × NoExit before
              × (t.out ≡ before ++ exit_event reason ∷ []))
            ⊎ (t.out ≡ error_event (not_appeared path) ∷ []))
one_exit_at_the_end cfg path skip t reach =
    let i = reach-IsEnded reach in
    (
      λ running. subst NoExit (sym (i.open_out running)) i.no_exit,
      λ closed. elim (i.closed_out closed) [
        | inl (reason, last) ↦ inl (i.before, reason, i.no_exit, last)
        | inr only ↦ inr only
      ],
    )

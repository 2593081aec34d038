-- ===== src/Auth/Limiter/History.antt =====
-- The limiter over any sequence of login attempts.
use sr_code.Prelude.{
  ℕ, ◌+◌, ◌≤◌, String, ◌≡◌, inl, inr, true, not, some, List, [], ◌∷◌, arith, eq_iff, ◌==◌,
  nat_has_eq, string_has_eq, if◌then◌else◌, Option-cases, All,
}
use sr_code.Prelude.Dict.{lookup, lookup-insert, lookup-remove, lookup-retain}
use mathlib.Core.Option
use sr_code.Auth.Limiter.{
  LimEntry, Limiter, rate_limit_grace, rate_limit_max_backoff, rate_limit_entry_stale, new_limiter,
  is_stale, gc_locked, verdict_of, acquire, fail_entry, new_entry, on_failure, on_success,
}
use sr_code.Auth.Limiter.Laws.{
  IsSound, new_limiter-IsSound, gc_locked-IsSound, on_failure-IsSound, on_success-IsSound,
  acquire_answer,
}

-- What the login handler asks of the limiter.
pub data Op : Type 0 where
  attempt : String → Op
  failed : String → Op
  passed : String → Op

unfoldable pub step : Limiter → ℕ × ℕ × Op → Limiter
step l (t, u, attempt ip) = (acquire t u ip l).0
step l (t, u, failed ip) = on_failure t u ip l
step l (t, u, passed ip) = on_success ip l

unfoldable pub run : Limiter → List (ℕ × ℕ × Op) → Limiter
unfolding step
run l [] = l
run l (c ∷ cs) = run (step l c) cs

-- Each call reads its clock twice within 59 minutes.
abbrev pub Prompt : List (ℕ × ℕ × Op) → Type 0
Prompt = All λ c. c.1 + rate_limit_max_backoff ≤ c.0 + rate_limit_entry_stale

-- The failures of one address since its last success, after `n` of them.
unfoldable pub tally : String → ℕ → List (ℕ × ℕ × Op) → ℕ
tally ip n [] = n
tally ip n ((t, u, attempt j) ∷ cs) = tally ip n cs
tally ip n ((t, u, failed j) ∷ cs) = tally ip (if j == ip then n + 1 else n) cs
tally ip n ((t, u, passed j) ∷ cs) = tally ip (if j == ip then 0 else n) cs

pub step-IsSound :
    (l : Limiter) (c : ℕ × ℕ × Op)
    → c.1 + rate_limit_max_backoff ≤ c.0 + rate_limit_entry_stale
    → IsSound l
    → IsSound (step l c)
unfolding step acquire
step-IsSound l (t, u, attempt ip) h s = gc_locked-IsSound t l s
step-IsSound l (t, u, failed ip) h s = on_failure-IsSound t u ip l h s
step-IsSound l (t, u, passed ip) h s = on_success-IsSound ip l s

pub run-IsSound :
    (l : Limiter) (cs : List (ℕ × ℕ × Op)) → Prompt cs → IsSound l → IsSound (run l cs)
unfolding run
run-IsSound l [] h s = s
run-IsSound l (c ∷ cs) h s = run-IsSound (step l c) cs h.1 (step-IsSound l c h.0 s)

-- The entry of the address counts at most `n` failures.
record CountsAtMost (ip : String) (n : ℕ) (l : Limiter) : Type 0 where
  counts : (e : LimEntry) → lookup ip l ≡ some e → e.failures ≤ n

old_failures :
    (ip : String) (n : ℕ) (l : Limiter)
    → CountsAtMost ip n l
    → (Option.get_or (lookup ip l) new_entry).failures ≤ n
old_failures ip n l c = elim (Option-cases (lookup ip l)) [
  | inl e ↦ rw e (omega arith)
  | inr (x, e) ↦ rw e (c.counts x e)
]

failures-fail_entry : (t u : ℕ) (e : LimEntry) → (fail_entry t u e).failures ≡ e.failures + 1
unfolding fail_entry
failures-fail_entry t u e = ground arith

module _ (ip : String) where
  attempt-CountsAtMost :
      (t u n : ℕ) (j : String) (l : Limiter)
      → IsSound l
      → CountsAtMost ip n l
      → CountsAtMost ip n (step l (t, u, attempt j))
  unfolding step acquire gc_locked
  attempt-CountsAtMost t u n j l s c = record {
    counts =
        λ e h. ground (arith, lookup-retain (λ e. not (is_stale t e)) ip l s.unique, c.counts e);
  }

  failed-CountsAtMost :
      (t u n : ℕ) (j : String) (l : Limiter)
      → CountsAtMost ip n l
      → CountsAtMost ip (if j == ip then n + 1 else n) (step l (t, u, failed j))
  unfolding step on_failure
  failed-CountsAtMost t u n j l c = record {
    counts = λ e h. ground (
      arith,
      lookup-insert j ip (fail_entry t u (Option.get_or (lookup j l) new_entry)) l,
      failures-fail_entry t u (Option.get_or (lookup j l) new_entry),
      old_failures ip n l c,
      eq_iff j ip,
      c.counts e,
    );
  }

  passed-CountsAtMost :
      (t u n : ℕ) (j : String) (l : Limiter)
      → CountsAtMost ip n l
      → CountsAtMost ip (if j == ip then 0 else n) (step l (t, u, passed j))
  unfolding step on_success
  passed-CountsAtMost t u n j l c = record {
    counts = λ e h. ground (arith, lookup-remove j ip l, c.counts e);
  }

  run-CountsAtMost :
      (n : ℕ) (l : Limiter) (cs : List (ℕ × ℕ × Op))
      → Prompt cs
      → IsSound l
      → CountsAtMost ip n l
      → CountsAtMost ip (tally ip n cs) (run l cs)
  unfolding run tally
  run-CountsAtMost n l [] h s c = c
  run-CountsAtMost n l ((t, u, attempt j) ∷ cs) h s c =
      run-CountsAtMost n (step l (t, u, attempt j)) cs h.1 (step-IsSound l (t, u, attempt j) h.0 s)
        (attempt-CountsAtMost t u n j l s c)
  run-CountsAtMost n l ((t, u, failed j) ∷ cs) h s c =
      run-CountsAtMost (if j == ip then n + 1 else n) (step l (t, u, failed j)) cs h.1
        (step-IsSound l (t, u, failed j) h.0 s) (failed-CountsAtMost t u n j l c)
  run-CountsAtMost n l ((t, u, passed j) ∷ cs) h s c =
      run-CountsAtMost (if j == ip then 0 else n) (step l (t, u, passed j)) cs h.1
        (step-IsSound l (t, u, passed j) h.0 s) (passed-CountsAtMost t u n j l c)

no_failures : (ip : String) → CountsAtMost ip 0 new_limiter
unfolding new_limiter lookup
no_failures ip = record { counts = λ e h. cc }

-- After any history of calls on a new limiter, an address with at most five failures since its last
-- success is let through at once.
pub acquire_within_grace :
    (cs : List (ℕ × ℕ × Op)) (ip : String) (t u : ℕ)
    → Prompt cs
    → t ≤ u
    → tally ip 0 cs ≤ rate_limit_grace
    → (acquire t u ip (run new_limiter cs)).1 ≡ (0, true)
unfolding verdict_of
acquire_within_grace cs ip t u p h few =
    let s = run-IsSound new_limiter cs p new_limiter-IsSound in
    let c = run-CountsAtMost ip 0 new_limiter cs p (new_limiter-IsSound) (no_failures ip) in
    elim (Option-cases (lookup ip (run new_limiter cs))) [
      | inl e ↦ ground (arith, acquire_answer t u ip (run new_limiter cs) s h, e)
      | inr (x, e) ↦
          ground (
            arith,
            acquire_answer t u ip (run new_limiter cs) s h,
            e,
            c.counts x e,
            s.entries ip x e,
          )
    ]

-- ===== src/Auth/Limiter/Waits.antt =====
-- How long the limiter turns an address away.
use sr_code.Prelude.{
  ℕ, ◌+◌, ◌-◌, ◌*◌, ◌≤◌, String, ◌≡◌, ◌≢◌, inl, inr, true, false, not, some, List, [], ◌∷◌, arith,
  eq_iff, ltb, nat_has_eq, string_has_eq, same_refl, if◌then◌else◌, Option-cases,
}
use sr_code.Prelude.Dict.{lookup, lookup-insert, lookup-remove, lookup-retain}
use mathlib.Core.Option
use sr_code.Auth.Limiter.{
  LimEntry, Limiter, second, rate_limit_grace, rate_limit_max_backoff, rate_limit_entry_stale,
  new_limiter, is_stale, gc_locked, verdict_of, acquire, fail_entry, new_entry, on_failure,
  on_success,
}
use sr_code.Auth.Limiter.Laws.{
  wait_seconds, backoff-wait_seconds, backoff-le, IsSound, new_limiter-IsSound, on_failure-IsSound,
  acquire_answer,
}
use sr_code.Auth.Limiter.History.{
  Op, attempt, failed, passed, step, run, Prompt, step-IsSound, run-IsSound,
}

module _ (t u gc_now now : ℕ) (ip : String) (l : Limiter) where
  -- A failure after at least five others turns the address away for exactly the documented wait,
  -- counted from the failure; then the address is let through.
  pub acquire-on_failure :
      u + rate_limit_max_backoff ≤ t + rate_limit_entry_stale
      → IsSound l
      → gc_now ≤ now
      → (e : LimEntry) → lookup ip l ≡ some e
      → rate_limit_grace ≤ e.failures
      → (acquire gc_now now ip (on_failure t u ip l)).1 ≡ (
          if ltb now (u + wait_seconds (e.failures + 1) * second)
          then (u + wait_seconds (e.failures + 1) * second - now, false)
          else (0, true))
  unfolding verdict_of on_failure fail_entry
  acquire-on_failure prompt s h e found many =
      let s' = on_failure-IsSound t u ip l prompt s in
      rw
        (
          acquire_answer gc_now now ip (on_failure t u ip l) s' h,
          lookup-insert,
          same_refl ip,
          found,
        )
        (ground (arith, backoff-wait_seconds (e.failures + 1)))

  -- A failure of one address changes no answer to another.
  pub acquire-on_failure_ne :
      (j : String)
      → u + rate_limit_max_backoff ≤ t + rate_limit_entry_stale
      → IsSound l
      → gc_now ≤ now
      → ip ≢ j
      → (acquire gc_now now j (on_failure t u ip l)).1 ≡ (acquire gc_now now j l).1
  unfolding on_failure
  acquire-on_failure_ne j prompt s h ne =
      let s' = on_failure-IsSound t u ip l prompt s in
      rw (acquire_answer gc_now now j (on_failure t u ip l) s' h, acquire_answer gc_now now j l s h)
        (ground (
          arith,
          lookup-insert ip j (fail_entry t u (Option.get_or (lookup ip l) new_entry)) l,
          eq_iff ip j,
        ))

-- The clock does not go back, within a call or from one to the next.
abbrev pub Ordered : ℕ → List (ℕ × ℕ × Op) → Type 0
Ordered clock [] = Unit
Ordered clock ((t, u, op) ∷ cs) = (clock ≤ t) × (t ≤ u) × Ordered u cs

unfoldable pub last_reading : ℕ → List (ℕ × ℕ × Op) → ℕ
last_reading clock [] = clock
last_reading clock ((t, u, op) ∷ cs) = last_reading u cs

record WaitsUntil (clock : ℕ) (l : Limiter) : Type 0 where
  entries :
      (ip : String) (e : LimEntry)
      → lookup ip l ≡ some e
      → e.next_allowed ≤ clock + rate_limit_max_backoff

fail_entry-next_allowed :
    (t u clock : ℕ) (e : LimEntry)
    → clock ≤ u
    → e.next_allowed ≤ clock + rate_limit_max_backoff
    → (fail_entry t u e).next_allowed ≤ u + rate_limit_max_backoff
unfolding fail_entry
fail_entry-next_allowed t u clock e h w = ground (arith, backoff-le (e.failures + 1))

old_next_allowed :
    (clock : ℕ) (ip : String) (l : Limiter)
    → WaitsUntil clock l
    → (Option.get_or (lookup ip l) new_entry).next_allowed ≤ clock + rate_limit_max_backoff
old_next_allowed clock ip l w = elim (Option-cases (lookup ip l)) [
  | inl e ↦ rw e (omega arith)
  | inr (x, e) ↦ rw e (w.entries ip x e)
]

step-WaitsUntil :
    (clock : ℕ) (l : Limiter) (c : ℕ × ℕ × Op)
    → clock ≤ c.0
    → c.0 ≤ c.1
    → IsSound l
    → WaitsUntil clock l
    → WaitsUntil c.1 (step l c)
unfolding step acquire gc_locked on_failure on_success
step-WaitsUntil clock l (t, u, attempt j) h k s w = record {
  entries = λ ip e p.
      ground (arith, lookup-retain (λ e. not (is_stale t e)) ip l s.unique, w.entries ip e);
}
step-WaitsUntil clock l (t, u, failed j) h k s w = record {
  entries = λ ip e p. ground (
    arith,
    lookup-insert j ip (fail_entry t u (Option.get_or (lookup j l) new_entry)) l,
    fail_entry-next_allowed t u clock (Option.get_or (lookup j l) new_entry),
    old_next_allowed clock j l w,
    w.entries ip e,
  );
}
step-WaitsUntil clock l (t, u, passed j) h k s w = record {
  entries = λ ip e p. ground (arith, lookup-remove j ip l, w.entries ip e);
}

run-WaitsUntil :
    (clock : ℕ) (l : Limiter) (cs : List (ℕ × ℕ × Op))
    → Prompt cs
    → Ordered clock cs
    → IsSound l
    → WaitsUntil clock l
    → WaitsUntil (last_reading clock cs) (run l cs)
unfolding run last_reading
run-WaitsUntil clock l [] p o s w = w
run-WaitsUntil clock l ((t, u, op) ∷ cs) p o s w =
    run-WaitsUntil u (step l (t, u, op)) cs p.1 o.2 (step-IsSound l (t, u, op) p.0 s)
      (step-WaitsUntil clock l (t, u, op) o.0 o.1 s w)

nothing_waits : WaitsUntil 0 new_limiter
unfolding new_limiter lookup
nothing_waits = record { entries = λ ip e h. cc }

-- After any history under a clock that does not go back, an address is told to wait for at most
-- sixty seconds.
pub acquire_wait-le :
    (cs : List (ℕ × ℕ × Op)) (ip : String) (t u : ℕ)
    → Prompt cs
    → Ordered 0 cs
    → last_reading 0 cs ≤ u
    → t ≤ u
    → (acquire t u ip (run new_limiter cs)).1.0 ≤ rate_limit_max_backoff
unfolding verdict_of
acquire_wait-le cs ip t u p o late h =
    let s = run-IsSound new_limiter cs p new_limiter-IsSound in
    let w = run-WaitsUntil 0 new_limiter cs p o new_limiter-IsSound nothing_waits in
    rw (acquire_answer t u ip (run new_limiter cs) s h)
      (elim (Option-cases (lookup ip (run new_limiter cs))) [
        | inl e ↦ rw e (omega arith)
        | inr (x, e) ↦ rw e (ground (arith, w.entries ip x e))
      ])

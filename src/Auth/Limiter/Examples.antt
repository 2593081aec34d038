-- ===== src/Auth/Limiter/Examples.antt =====
-- Six failures from one address, by the clock in nanoseconds.
use sr_code.Prelude.{
  ℕ, ◌+◌, ◌*◌, ◌≡◌, refl, true, false, List, [], ◌∷◌, arith, nat_has_eq, string_has_eq,
}
use sr_code.Auth.Limiter.{LimEntry, second, new_limiter, acquire, on_failure}
use sr_code.Auth.Limiter.Laws.{new_limiter-IsSound}
use sr_code.Auth.Limiter.History.{Op, failed, run, Prompt, tally, run-IsSound, acquire_within_grace}
use sr_code.Auth.Limiter.Waits.{acquire-on_failure}

abbrev start : ℕ
start = 10_000 * second

abbrev fail_at : ℕ → ℕ × ℕ × Op
fail_at s = (start + s * second, start + s * second, failed "10.0.0.1")

abbrev five : List (ℕ × ℕ × Op)
five = fail_at 0 ∷ fail_at 1 ∷ fail_at 2 ∷ fail_at 3 ∷ fail_at 4 ∷ []

abbrev prompt_five : Prompt five
prompt_five = omega arith

acquire_within_grace_example :
    (acquire (start + 5 * second) (start + 5 * second) "10.0.0.1" (run new_limiter five)).1
    ≡ (0, true)
unfolding tally
acquire_within_grace_example =
    acquire_within_grace five "10.0.0.1" (start + 5 * second) (start + 5 * second) (prompt_five)
      (omega arith) (omega arith)

abbrev fifth : LimEntry
fifth = record { failures = 5; next_allowed = 0; last_updated = start + 4 * second }

acquire-on_failure_example :
    (acquire
      (start + 5 * second)
      (start + 5 * second)
      "10.0.0.1"
      (on_failure (start + 5 * second) (start + 5 * second) "10.0.0.1" (run new_limiter five))).1
    ≡ (second, false)
unfolding run new_limiter on_failure
acquire-on_failure_example =
    acquire-on_failure (start + 5 * second) (start + 5 * second) (start + 5 * second)
      (start + 5 * second) "10.0.0.1" (run new_limiter five) (omega arith)
      (run-IsSound new_limiter five prompt_five new_limiter-IsSound) (omega arith) fifth refl
      (omega arith)

-- ===== src/Auth/Limiter/Laws.antt =====
-- What a login attempt is told, and how long it has to wait.
use sr_code.Prelude.{
  ℕ, zero, suc, ◌+◌, ◌*◌, ◌≤◌, ◌<◌, String, ◌≡◌, refl, inl, inr, not, some, [], ◌∷◌, arith,
  nat_has_eq, string_has_eq, Option-cases, get_elem?,
}
use sr_code.Prelude.Dict.{
  lookup, lookup-insert, lookup-remove, Unique, insert-Unique, remove-Unique, lookup-retain,
  retain-Unique,
}
use mathlib.Core.Option
use sr_code.Auth.Limiter.{
  LimEntry, Limiter, second, rate_limit_grace, rate_limit_max_backoff, rate_limit_entry_stale,
  new_limiter, is_stale, gc_locked, verdict_of, acquire, backoff, fail_entry, new_entry, on_failure,
  on_success,
}

-- The waits of the limiter's documentation, in seconds, by the number of failures.
abbrev pub wait_seconds : ℕ → ℕ
wait_seconds n =
    Option.get_or (get_elem? (0 ∷ 0 ∷ 0 ∷ 0 ∷ 0 ∷ 0 ∷ 1 ∷ 2 ∷ 4 ∷ 8 ∷ 16 ∷ 32 ∷ []) n) 60

pub backoff-wait_seconds : (n : ℕ) → 5 < n → backoff n ≡ wait_seconds n * second
unfolding backoff
backoff-wait_seconds zero h = absurd (omega arith)
backoff-wait_seconds (suc zero) h = absurd (omega arith)
backoff-wait_seconds (suc (suc zero)) h = absurd (omega arith)
backoff-wait_seconds (suc (suc (suc zero))) h = absurd (omega arith)
backoff-wait_seconds (suc (suc (suc (suc zero)))) h = absurd (omega arith)
backoff-wait_seconds (suc (suc (suc (suc (suc zero))))) h = absurd (omega arith)
backoff-wait_seconds (suc (suc (suc (suc (suc (suc k)))))) h = six_more k
  where
    six_more :
        (k : ℕ)
        → backoff (suc (suc (suc (suc (suc (suc k))))))
          ≡ wait_seconds (suc (suc (suc (suc (suc (suc k)))))) * second
    six_more zero = refl
    six_more (suc zero) = refl
    six_more (suc (suc zero)) = refl
    six_more (suc (suc (suc zero))) = refl
    six_more (suc (suc (suc (suc zero)))) = refl
    six_more (suc (suc (suc (suc (suc zero))))) = refl
    six_more (suc (suc (suc (suc (suc (suc zero)))))) = refl
    six_more (suc (suc (suc (suc (suc (suc (suc j))))))) = ground arith

pub backoff-le : (n : ℕ) → backoff n ≤ rate_limit_max_backoff
unfolding backoff
backoff-le n = ground arith

-- Within the grace no wait is armed, and an entry that is collected has no wait left.
pub record EntryIsSound (e : LimEntry) : Type 0 where
  pub graced : e.failures ≤ rate_limit_grace → e.next_allowed ≡ 0
  pub expires : e.next_allowed ≤ e.last_updated + rate_limit_entry_stale

-- What holds of a limiter between two calls.
pub record IsSound (l : Limiter) : Type 0 where
  pub unique : Unique l
  pub entries : (ip : String) (e : LimEntry) → lookup ip l ≡ some e → EntryIsSound e

pub new_limiter-IsSound : IsSound new_limiter
unfolding new_limiter lookup
new_limiter-IsSound = record { unique = tt; entries = λ ip e h. cc }

pub gc_locked-IsSound : (now : ℕ) (l : Limiter) → IsSound l → IsSound (gc_locked now l)
unfolding gc_locked
gc_locked-IsSound now l s = record {
  unique = retain-Unique _ l s.unique;
  entries = λ ip e h.
      ground (arith, lookup-retain (λ e. not (is_stale now e)) ip l s.unique, s.entries ip e);
}

fail_entry-IsSound :
    (t u : ℕ) (e : LimEntry)
    → u + rate_limit_max_backoff ≤ t + rate_limit_entry_stale
    → EntryIsSound e
    → EntryIsSound (fail_entry t u e)
unfolding fail_entry
fail_entry-IsSound t u e h s = ground (arith, backoff-le (e.failures + 1))

old_entry-IsSound :
    (ip : String) (l : Limiter) → IsSound l → EntryIsSound (Option.get_or (lookup ip l) new_entry)
old_entry-IsSound ip l s = elim (Option-cases (lookup ip l)) [
  | inl e ↦ rw e (omega arith)
  | inr (x, e) ↦ rw e (s.entries ip x e)
]

-- A failure keeps the invariant, if the two readings of the clock lie less than 59 minutes apart.
pub on_failure-IsSound :
    (t u : ℕ) (ip : String) (l : Limiter)
    → u + rate_limit_max_backoff ≤ t + rate_limit_entry_stale
    → IsSound l
    → IsSound (on_failure t u ip l)
unfolding on_failure
on_failure-IsSound t u ip l h s = record {
  unique = insert-Unique ip _ l s.unique;
  entries = λ j e p. ground (
    arith,
    lookup-insert ip j (fail_entry t u (Option.get_or (lookup ip l) new_entry)) l,
    fail_entry-IsSound t u (Option.get_or (lookup ip l) new_entry) h (old_entry-IsSound ip l s),
    s.entries j e,
  );
}

pub on_success-IsSound : (ip : String) (l : Limiter) → IsSound l → IsSound (on_success ip l)
unfolding on_success
on_success-IsSound ip l s = record {
  unique = remove-Unique ip l s.unique;
  entries = λ j e p. ground (arith, lookup-remove ip j l, s.entries j e);
}

-- Collecting stale entries never changes an answer: the address is told what its entry says, though
-- the entry may be deleted in the same call.
pub acquire_answer :
    (t u : ℕ) (ip : String) (l : Limiter)
    → IsSound l
    → t ≤ u
    → (acquire t u ip l).1 ≡ verdict_of u (lookup ip l)
unfolding acquire gc_locked is_stale
acquire_answer t u ip l s h = elim (Option-cases (lookup ip l)) [
  | inl e ↦ ground (arith, lookup-retain (λ e. not (is_stale t e)) ip l s.unique, e)
  | inr (x, e) ↦
      ground (arith, lookup-retain (λ e. not (is_stale t e)) ip l s.unique, e, s.entries ip x e)
]

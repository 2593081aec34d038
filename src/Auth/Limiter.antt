-- ===== src/Auth/Limiter.antt =====
-- internal/auth/auth.go, the rate limiter of the login page. A time is the number of nanoseconds
-- since Go's zero time, so `time.Time{}` is 0; each call of `l.now()` is an argument.
mod Laws
mod History
mod Waits
mod Examples
use sr_code.Prelude.{
  ℕ, zero, suc, ◌+◌, ◌-◌, ◌*◌, ◌/◌, ◌%◌, ◌^◌, ◌≤◌, ◌<◌, String, ◌≡◌, refl, sym, ap, ◌∙◌, ◌≢◌, ◌↔◌,
  ◌⊎◌, inl, inr, Bool, true, false, not, ◌&&◌, ◌||◌, Option, none, some, List, [], ◌∷◌, ◌++◌, map,
  reverse, arith, eq_iff, ltb, leb, nat_eq, nat_eq_iff, MapKey, ◌==◌, nat_has_eq, string_has_eq,
  same_refl, if◌then◌else◌, Bool-cases, Option-cases, length, take, drop, get_elem?, set, All,
  length-append, take-append-drop, length-take, length-drop, take-all, All-map,
}
use sr_code.Prelude.Dict.{
  lookup, insert, remove, lookup-insert, lookup-remove, length-remove, Unique, insert-Unique,
  remove-Unique, retain, kept, lookup-retain, retain-Unique,
}
use sr_code.Prelude.Int.{ℤ, pos, negsuc}
use mathlib.Core.Option
use native.Mathlib.Numerals.{towards_suc, towards_numerals}
use mathlib.Core.Path.{subst, fun_ext}
use mathlib.Core.List.{append-nil, append_assoc}

pub record LimEntry : Type 0 where
  pub failures : ℕ
  pub next_allowed : ℕ
  pub last_updated : ℕ

abbrev pub Limiter : Type 0
Limiter = List (String × LimEntry)

abbrev pub second : ℕ
second = 1_000_000_000

abbrev pub rate_limit_grace : ℕ
rate_limit_grace = 5

abbrev pub rate_limit_max_backoff : ℕ
rate_limit_max_backoff = 60 * second

abbrev pub rate_limit_entry_stale : ℕ
rate_limit_entry_stale = 3600 * second

pub new_limiter : Limiter
new_limiter = []

-- `e.lastUpdated.Before(now - stale)` over the integers
pub is_stale : ℕ → LimEntry → Bool
is_stale now e = ltb (e.last_updated + rate_limit_entry_stale) now

pub gc_locked : ℕ → Limiter → Limiter
unfolding is_stale retain
gc_locked now l = retain (λ e. not (is_stale now e)) l

-- The answer `(retryAfter, ok)`.
pub verdict_of : ℕ → Option LimEntry → ℕ × Bool
verdict_of now none = (0, true)
verdict_of now (some e) =
    if ltb now e.next_allowed then (e.next_allowed - now, false) else (0, true)

-- The first reading of the clock is that of `gcLocked`.
pub acquire : ℕ → ℕ → String → Limiter → Limiter × (ℕ × Bool)
unfolding gc_locked verdict_of lookup
acquire gc_now now ip l = let l' = gc_locked gc_now l in (l', verdict_of now (lookup ip l'))

pub backoff : ℕ → ℕ
backoff failures =
    let over = failures - rate_limit_grace - 1 in
    let shift = if ltb 6 over then 6 else over in
    let d = second * 2 ^ shift in if ltb rate_limit_max_backoff d then rate_limit_max_backoff else d

-- The first reading of the clock goes to `lastUpdated`, the second into `nextAllowed`.
pub fail_entry : ℕ → ℕ → LimEntry → LimEntry
unfolding backoff
fail_entry updated_now backoff_now e =
    let e' = record e { failures = e.failures + 1; last_updated = updated_now } in
    if ltb rate_limit_grace e'.failures
    then record e' { next_allowed = backoff_now + backoff e'.failures }
    else e'

abbrev pub new_entry : LimEntry
new_entry = record { failures = 0; next_allowed = 0; last_updated = 0 }

pub on_failure : ℕ → ℕ → String → Limiter → Limiter
unfolding fail_entry lookup insert
on_failure updated_now backoff_now ip l =
    insert ip (fail_entry updated_now backoff_now (Option.get_or (lookup ip l) new_entry)) l

pub on_success : String → Limiter → Limiter
unfolding remove
on_success ip l = remove ip l

-- ===== src/Auth/Totp/Examples.antt =====
-- A sum that says the step again, in its last bytes.
use sr_code.Prelude.{
  ℕ, ◌+◌, ◌/◌, ◌≤◌, ◌≡◌, refl, ◌↔◌, true, none, some, [], ◌∷◌, arith, nat_has_eq, string_has_eq,
}
use sr_code.Prelude.Strings.{trim_space, digits}
use sr_code.Auth.Totp.{
  Store, totp_begin, written, fails, write_totp, keep_written, big_endian, last_byte, truncate,
  Hmac, totp_at, is_current, verify_totp_with, totp_confirm, totp_enroll_direct, load_totp,
}
use sr_code.Auth.Totp.Codes.{verify_totp_with_iff}
use sr_code.Auth.Totp.Restart.{begins, confirms, starts, then_step, load-restart}

abbrev echo : Hmac
echo key text =
    0 ∷ 0 ∷ 0 ∷ 0 ∷ 0 ∷ 0 ∷ 0 ∷ 0 ∷ 0 ∷ 0 ∷ 0 ∷ 0 ∷ 0 ∷ 0 ∷ 0 ∷ 1 ∷ 226 ∷ 64 ∷ 0 ∷ 14 ∷ []

-- 123456 = 1 * 2^16 + 226 * 2^8 + 64
the_code : totp_at echo (7 ∷ []) 40 ≡ some 123456
unfolding totp_at big_endian last_byte truncate
the_code = refl

verify_totp_with_iff_example : (verify_totp_with echo 1234 (7 ∷ []) " 123456 " ≡ true) ↔ (
    (step : ℕ) × (step ≤ 1234 / 30 + 1)
    × (1234 / 30 ≤ step + 1)
    × (totp_at echo (7 ∷ []) step ≡ some 123456))
unfolding trim_space digits
verify_totp_with_iff_example =
    verify_totp_with_iff echo 1234 (7 ∷ []) " 123456 " 123456 (omega arith) (omega arith) refl refl

abbrev blank : Store
blank = record { totp_secret = none; totp_pending = none; totp_file = none }

abbrev pending : Store
pending = (totp_begin (some (7 ∷ [])) blank).1

abbrev confirmed : Store
confirmed = (totp_confirm echo 1234 written "123456" pending).1

load-restart_example :
    load_totp confirmed.totp_file
    ≡ some (record {
      totp_secret = confirmed.totp_secret;
      totp_pending = none;
      totp_file = confirmed.totp_file;
    })
load-restart_example =
    load-restart echo confirmed
      (then_step (then_step starts (begins 7 [])) (confirms 1234 "123456"))

-- The code confirms the pending secret.
is_confirmed : confirmed.totp_secret ≡ some (7 ∷ [])
unfolding totp_begin totp_confirm write_totp verify_totp_with is_current totp_at big_endian
    last_byte truncate trim_space digits
is_confirmed = refl

-- A write that fails gives the secret up that was active; what a restart finds is what the write left.
given_up :
    (totp_enroll_direct (some (9 ∷ [])) (fails (some (7 ∷ []))) confirmed).1
    ≡ record confirmed { totp_secret = none; totp_file = some (7 ∷ []) }
unfolding totp_enroll_direct keep_written write_totp totp_begin totp_confirm verify_totp_with
    is_current totp_at big_endian last_byte truncate trim_space digits
given_up = refl

-- ===== src/Auth/Totp/Codes.antt =====
-- Which codes are accepted, and for how long.
use sr_code.Prelude.{
  ℕ, zero, suc, ◌+◌, ◌-◌, ◌*◌, ◌/◌, ◌%◌, ◌^◌, ◌≤◌, ◌<◌, String, ◌≡◌, refl, sym, ap, ◌∙◌, ◌↔◌, inl,
  inr, true, Option, none, some, List, [], ◌∷◌, arith, ltb, nat_eq, nat_eq_iff, nat_has_eq,
  string_has_eq, Bool-cases, List-cases, length, get_elem?,
}
use mathlib.Core.Path.{subst}
use sr_code.Prelude.Strings.{trim_space, digits}
use sr_code.Auth.Totp.{
  big_endian, last_byte, truncate, Hmac, totp_at, shows, is_current, verify_totp_with,
}
use Prim.Native.String

get_elem?-some : (xs : List ℕ) (n : ℕ) → n < length xs → (x : ℕ) × (get_elem? xs n ≡ some x)
get_elem?-some [] n lt = absurd (ground (arith, lt))
get_elem?-some (x ∷ xs) zero lt = (x, refl)
get_elem?-some (x ∷ xs) (suc n) lt = get_elem?-some xs n (omega arith)

last_byte-some : (b : ℕ) (bs : List ℕ) → (x : ℕ) × (last_byte (b ∷ bs) ≡ some x)
unfolding last_byte
last_byte-some b [] = (b, refl)
last_byte-some b (c ∷ bs) = last_byte-some c bs

truncate-some :
    (off : ℕ) (sum : List ℕ) → off + 3 < length sum → (n : ℕ) × (truncate off sum ≡ some n)
unfolding truncate
truncate-some off sum lt =
    let (b0, e0) = get_elem?-some sum off (omega arith) in
    let (b1, e1) = get_elem?-some sum (off + 1) (omega arith) in
    let (b2, e2) = get_elem?-some sum (off + 2) (omega arith) in
    let (b3, e3) = get_elem?-some sum (off + 3) (omega arith) in
    (b0 % 128 * 2 ^ 24 + b1 * 2 ^ 16 + b2 * 2 ^ 8 + b3, rw (truncate, e0, e1, e2, e3) refl)

-- With a sum of twenty bytes no index is out of range, and a code has six digits at most.
pub totp_at-bounds :
    (hmac : Hmac)
    → ((key text : List ℕ) → length (hmac key text) ≡ 20)
    → (secret : List ℕ) (step : ℕ) → (n : ℕ) × (totp_at hmac secret step ≡ some n) × (n < 1000000)
unfolding totp_at
totp_at-bounds hmac twenty secret step =
    let sum : List ℕ = hmac secret (big_endian 8 step) in
    let len : length sum ≡ 20 = twenty secret (big_endian 8 step) in
    let (last, e) : (x : ℕ) × (last_byte sum ≡ some x) = elim (List-cases sum) [
      | inl empty ↦ absurd (ground (arith, len, empty))
      | inr (b, bs, f) ↦ subst (λ s. (x : ℕ) × (last_byte s ≡ some x)) (sym f) (last_byte-some b bs)
    ] in
    let (n, f) = truncate-some (last % 16) sum (omega arith) in
    (n % 1000000, rw (totp_at, e, f) refl, omega arith)

shows_iff : (o : Option ℕ) (n : ℕ) → (shows o n ≡ true) ↔ (o ≡ some n)
shows_iff none n = (λ e. absurd (ground (arith, e)), λ e. absurd (ground (arith, e)))
shows_iff (some k) n =
    (λ e. ground (arith, e, nat_eq_iff k n), λ e. ground (arith, e, nat_eq_iff k n))

IsNear : Hmac → ℕ → List ℕ → ℕ → Type 0
IsNear hmac now secret n =
    (step : ℕ) × (step ≤ now / 30 + 1) × (now / 30 ≤ step + 1) × (totp_at hmac secret step ≡ some n)

IsNear-is_current :
    (hmac : Hmac) (now : ℕ) (secret : List ℕ) (n : ℕ)
    → now < 2 ^ 63
    → IsNear hmac now secret n
    → is_current hmac now secret n ≡ true
unfolding is_current IsNear
IsNear-is_current hmac now secret n early (step, le, le', at) =
    let here : (s : ℕ) → s ≡ step → shows (totp_at hmac secret s) n ≡ true =
      λ s same. (shows_iff (totp_at hmac secret s) n).1 (ap (totp_at hmac secret) same ∙ at) in
    elim (Bool-cases (nat_eq step (now / 30))) [
      | inl e ↦
          rw (is_current, here (now / 30 % 2 ^ 64) (ground (arith, e, nat_eq_iff step (now / 30))))
            refl
      | inr e ↦ elim (Bool-cases (ltb step (now / 30))) [
        | inl f ↦
            rw (is_current, here ((now / 30 + (2 ^ 64 - 1)) % 2 ^ 64) (ground (arith, f)))
              (ground arith)
        | inr f ↦
            rw
              (
                is_current,
                here ((now / 30 + 1) % 2 ^ 64) (ground (arith, e, f, nat_eq_iff step (now / 30))),
              )
              (ground arith)
      ]
    ]

is_current-IsNear :
    (hmac : Hmac) (now : ℕ) (secret : List ℕ) (n : ℕ)
    → 30 ≤ now
    → now < 2 ^ 63
    → is_current hmac now secret n ≡ true
    → IsNear hmac now secret n
unfolding is_current IsNear
is_current-IsNear hmac now secret n late early accepted =
    let seen : (s : ℕ) → shows (totp_at hmac secret s) n ≡ true → totp_at hmac secret s ≡ some n =
      λ s. (shows_iff (totp_at hmac secret s) n).0 in
    elim (Bool-cases (shows (totp_at hmac secret (now / 30 % 2 ^ 64)) n)) [
      | inl e ↦ (now / 30 % 2 ^ 64, omega arith, omega arith, seen (now / 30 % 2 ^ 64) e)
      | inr e ↦
          elim (Bool-cases (shows (totp_at hmac secret ((now / 30 + (2 ^ 64 - 1)) % 2 ^ 64)) n)) [
            | inl f ↦ (
              (now / 30 + (2 ^ 64 - 1)) % 2 ^ 64,
              omega arith,
              omega arith,
              seen ((now / 30 + (2 ^ 64 - 1)) % 2 ^ 64) f,
            )
            | inr f ↦ (
              (now / 30 + 1) % 2 ^ 64,
              omega arith,
              omega arith,
              seen ((now / 30 + 1) % 2 ^ 64) (rw (e, f) at accepted),
            )
          ]
    ]

-- From 1970 on and for as long as the clock is that of a 64-bit time, a text of six digits is accepted
-- as a code of the secret exactly if it is the code of the current step of thirty seconds, of the one
-- before, or of the one after.
pub verify_totp_with_iff :
    (hmac : Hmac) (now : ℕ) (secret : List ℕ) (code : String) (n : ℕ)
    → 30 ≤ now
    → now < 2 ^ 63
    → String.len (trim_space code) ≡ 6
    → digits (trim_space code) 0 ≡ some n
    → (verify_totp_with hmac now secret code ≡ true) ↔ (
        (step : ℕ) × (step ≤ now / 30 + 1)
        × (now / 30 ≤ step + 1)
        × (totp_at hmac secret step ≡ some n))
unfolding verify_totp_with IsNear
verify_totp_with_iff hmac now secret code n late early six number =
    let same : verify_totp_with hmac now secret code ≡ is_current hmac now secret n =
      rw (verify_totp_with, six, number) refl in
    (
      λ e. is_current-IsNear hmac now secret n late early (sym same ∙ e),
      λ near. same ∙ IsNear-is_current hmac now secret n early near,
    )

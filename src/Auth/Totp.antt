-- ===== src/Auth/Totp.antt =====
-- internal/auth/totp.go: the second factor. The file is the secret that it decodes to; HMAC-SHA1, of
-- package crypto, is an argument.
mod Codes
mod Restart
mod Examples
use sr_code.Prelude.{
  ℕ, zero, suc, ◌+◌, ◌-◌, ◌*◌, ◌/◌, ◌%◌, ◌^◌, String, ◌⊎◌, inl, inr, Bool, true, false, not, ◌||◌,
  Option, none, some, List, [], ◌∷◌, nat_eq, nat_has_eq, string_has_eq, ◌>>=◌, if◌then◌else◌,
  get_elem?,
}
use mathlib.Core.Option
use sr_code.Prelude.Strings.{trim_space, digits}
use Prim.Native.String

-- `none` is nil; the data directory has the file, or none. A file that does not decode stands as an
-- empty secret, since a start refuses both.
pub record Store : Type 0 where
  pub totp_secret : Option (List ℕ)
  pub totp_pending : Option (List ℕ)
  pub totp_file : Option (List ℕ)

pub data TotpError : Type 0 where
  no_enrollment code_mismatch not_written not_removed no_random : TotpError

unfoldable pub totp_enabled : Store → Bool
totp_enabled s = elim s.totp_secret [ none ↦ false | some secret ↦ true ]

-- `raw` is what the random generator gives, if it does. The secret is what the caller shows.
unfoldable pub totp_begin : Option (List ℕ) → Store → (TotpError ⊎ List ℕ) × Store
totp_begin raw s = elim s.totp_pending [
  | some pending ↦ (inr pending, s)
  | none ↦ elim raw [
    | none ↦ (inl no_random, s)
    | some fresh ↦ (inr fresh, record s { totp_pending = some fresh })
  ]
]

-- How `os.WriteFile` ends: it may fail after it has opened and emptied the file, so that what a failed
-- write leaves is anything.
pub data Write : Type 0 where
  written : Write
  fails : Option (List ℕ) → Write

unfoldable pub write_totp : Write → Store → Option TotpError × Store
write_totp written s = (none, record s { totp_file = s.totp_secret })
write_totp (fails left) s = (some not_written, record s { totp_file = left })

-- `binary.BigEndian.PutUint64`
unfoldable pub big_endian : ℕ → ℕ → List ℕ
big_endian zero n = []
big_endian (suc k) n = n / 256 ^ k % 256 ∷ big_endian k n

-- The last byte of the sum.
unfoldable pub last_byte : List ℕ → Option ℕ
last_byte [] = none
last_byte (b ∷ []) = some b
last_byte (b ∷ (c ∷ bs)) = last_byte (c ∷ bs)

-- Four bytes from an offset on, as a number of 31 bits; `none` is an index out of range.
unfoldable pub truncate : ℕ → List ℕ → Option ℕ
truncate off sum = do
  b0 ← get_elem? sum off
  b1 ← get_elem? sum (off + 1)
  b2 ← get_elem? sum (off + 2)
  b3 ← get_elem? sum (off + 3)
  some (b0 % 128 * 2 ^ 24 + b1 * 2 ^ 16 + b2 * 2 ^ 8 + b3)

abbrev pub Hmac : Type 0
Hmac = List ℕ → List ℕ → List ℕ

unfoldable pub totp_at : Hmac → List ℕ → ℕ → Option ℕ
unfolding big_endian last_byte truncate
totp_at hmac secret step = do
  last ← last_byte (hmac secret (big_endian 8 step))
  n ← truncate (last % 16) (hmac secret (big_endian 8 step))
  some (n % 1000000)

abbrev pub shows : Option ℕ → ℕ → Bool
shows none n = false
shows (some k) n = nat_eq k n

-- The step of the time, the one before and the one after.
unfoldable pub is_current : Hmac → ℕ → List ℕ → ℕ → Bool
unfolding totp_at
is_current hmac now secret n =
    let step = now / 30 in
    shows (totp_at hmac secret (step % 2 ^ 64)) n
    || shows (totp_at hmac secret ((step + (2 ^ 64 - 1)) % 2 ^ 64)) n
    || shows (totp_at hmac secret ((step + 1) % 2 ^ 64)) n

unfoldable pub verify_totp_with : Hmac → ℕ → List ℕ → String → Bool
unfolding is_current trim_space digits
verify_totp_with hmac now secret code =
    if not (nat_eq (String.len (trim_space code)) 6)
    then false
    else elim (digits (trim_space code) 0) [ none ↦ false | some n ↦ is_current hmac now secret n ]

unfoldable pub totp_confirm : Hmac → ℕ → Write → String → Store → Option TotpError × Store
unfolding verify_totp_with write_totp
totp_confirm hmac now write code s = elim s.totp_pending [
  | none ↦ (some no_enrollment, s)
  | some pending ↦
      if not (verify_totp_with hmac now pending code)
      then (some code_mismatch, s)
      else write_totp write (record s { totp_secret = some pending; totp_pending = none })
]

-- The second step of `TotpEnrollDirect`: a secret that could not be written is given up.
unfoldable pub keep_written : List ℕ → Option TotpError × Store → (TotpError ⊎ List ℕ) × Store
keep_written raw (none, s) = (inr raw, s)
keep_written raw (some e, s) = (inl e, record s { totp_secret = none })

unfoldable pub totp_enroll_direct : Option (List ℕ) → Write → Store → (TotpError ⊎ List ℕ) × Store
unfolding write_totp keep_written
totp_enroll_direct raw write s = elim raw [
  | none ↦ (inl no_random, s)
  | some fresh ↦ keep_written fresh (write_totp write (record s { totp_secret = some fresh }))
]

-- `removable` is whether the file can be removed; to have none is no error.
unfoldable pub totp_remove : Bool → Store → Option TotpError × Store
totp_remove removable s =
    let off = record s { totp_secret = none } in
    elim s.totp_file [
      | none ↦ (none, off)
      | some secret ↦
          if removable then (none, record off { totp_file = none }) else (some not_removed, off)
    ]

unfoldable pub verify_totp : Hmac → ℕ → String → Store → Bool
unfolding verify_totp_with
verify_totp hmac now code s = elim s.totp_secret [
  | none ↦ false
  | some secret ↦ verify_totp_with hmac now secret code
]

-- A start; `none` is the error of an empty secret.
unfoldable pub load_totp : Option (List ℕ) → Option Store
load_totp none = some (record { totp_secret = none; totp_pending = none; totp_file = none })
load_totp (some []) = none
load_totp (some (b ∷ bs)) =
    some (record { totp_secret = some (b ∷ bs); totp_pending = none; totp_file = some (b ∷ bs) })

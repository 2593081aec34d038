-- ===== src/Auth/Totp/Restart.antt =====
-- The secret in memory and the secret in the file.
use sr_code.Prelude.{
  ℕ, String, ◌≡◌, refl, sym, ◌∙◌, ◌≢◌, inl, inr, true, Option, none, some, List, [], ◌∷◌, arith,
  nat_has_eq, string_has_eq, Bool-cases, Option-cases,
}
use mathlib.Core.Path.{subst}
use sr_code.Auth.Totp.{
  Store, totp_begin, written, write_totp, Hmac, verify_totp_with, totp_confirm, keep_written,
  totp_enroll_direct, totp_remove, load_totp,
}

-- What the server and the command line do with the second factor, when every read and write succeeds.
-- A fresh secret has twenty bytes, so that it is not empty.
pub data Step (hmac : Hmac) (s : Store) : Store → Type 0 where
  begins : (b : ℕ) (bs : List ℕ) → Step hmac s ((totp_begin (some (b ∷ bs)) s).1)
  confirms : (now : ℕ) (code : String) → Step hmac s ((totp_confirm hmac now written code s).1)
  enrolls : (b : ℕ) (bs : List ℕ) → Step hmac s ((totp_enroll_direct (some (b ∷ bs)) written s).1)
  removes : Step hmac s ((totp_remove true s).1)

pub data Reach (hmac : Hmac) : Store → Type 0 where
  starts : Reach hmac (record { totp_secret = none; totp_pending = none; totp_file = none })
  then_step : {s s' : Store} → Reach hmac s → Step hmac s s' → Reach hmac s'

-- The file has what the memory has, and no secret is empty.
record IsSaved (s : Store) : Type 0 where
  same : s.totp_file ≡ s.totp_secret
  full : s.totp_secret ≢ some []
  pending_full : s.totp_pending ≢ some []

step-IsSaved : {hmac : Hmac} {s s' : Store} → Step hmac s s' → IsSaved s → IsSaved s'
unfolding totp_begin totp_confirm write_totp totp_enroll_direct keep_written totp_remove
step-IsSaved {s = s} (begins b bs) v = elim (Option-cases s.totp_pending) [
  | inl e ↦
      rw (totp_begin, e)
        (record { same = v.same; full = v.full; pending_full = λ f. absurd (ground (arith, f)) })
  | inr (p, e) ↦ rw (totp_begin, e) v
]
step-IsSaved {hmac} {s = s} (confirms now code) v = elim (Option-cases s.totp_pending) [
  | inl e ↦ rw (totp_confirm, e) v
  | inr (p, e) ↦ elim (Bool-cases (verify_totp_with hmac now p code)) [
    | inl f ↦
        rw (totp_confirm, e, f)
          (record {
            same = refl;
            full = λ g. v.pending_full (e ∙ g);
            pending_full = λ g. absurd (ground (arith, g));
          })
    | inr f ↦ rw (totp_confirm, e, f) v
  ]
]
step-IsSaved {s = s} (enrolls b bs) v = record {
  same = refl;
  full = λ e. absurd (ground (arith, e));
  pending_full = v.pending_full;
}
step-IsSaved {s = s} removes v = elim (Option-cases s.totp_file) [
  | inl e ↦
      rw (totp_remove, e)
        (record { same = e; full = λ f. absurd (ground (arith, f)); pending_full = v.pending_full })
  | inr (secret, e) ↦
      rw (totp_remove, e)
        (record {
          same = refl;
          full = λ f. absurd (ground (arith, f));
          pending_full = v.pending_full;
        })
]

reach-IsSaved : {hmac : Hmac} {s : Store} → Reach hmac s → IsSaved s
reach-IsSaved starts = record {
  same = refl;
  full = λ e. absurd (ground (arith, e));
  pending_full = λ e. absurd (ground (arith, e));
}
reach-IsSaved (then_step reach step) = step-IsSaved step (reach-IsSaved reach)

load_totp-saved :
    (o : Option (List ℕ))
    → o ≢ some []
    → load_totp o ≡ some (record { totp_secret = o; totp_pending = none; totp_file = o })
unfolding load_totp
load_totp-saved none full = refl
load_totp-saved (some []) full = absurd (full refl)
load_totp-saved (some (b ∷ bs)) full = refl

-- After any enrolments, confirmations and removals whose writes succeed, from a first start, a restart
-- succeeds and has the secret that was active before it, or none if none was; a pending secret is gone.
pub load-restart :
    (hmac : Hmac) (s : Store)
    → Reach hmac s
    → load_totp s.totp_file
      ≡ some (record { totp_secret = s.totp_secret; totp_pending = none; totp_file = s.totp_file })
load-restart hmac s reach =
    let v = reach-IsSaved reach in
    subst
      (λ o.
        load_totp o
        ≡ some (record { totp_secret = s.totp_secret; totp_pending = none; totp_file = o }))
      (sym v.same) (load_totp-saved s.totp_secret v.full)

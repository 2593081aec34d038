-- ===== src/Claudestream/Eviction.antt =====
-- Which child goes when a new one needs its place.
use sr_code.Prelude.{
  ℕ, ◌≤◌, String, ◌≡◌, refl, ◌⊎◌, inl, inr, true, false, not, ◌&&◌, Option, none, some, List, [],
  ◌∷◌, arith, eq_iff, ltb, ◌==◌, nat_has_eq, string_has_eq, Bool-cases,
}
use sr_code.Prelude.Dict.{lookup, Unique}
use mathlib.Core.Path.{subst}
use sr_code.Claudestream.{Process}
use sr_code.Claudestream.Pool.{is_busy, better, pick_victim}

-- The entry is a child of the manager and has no turn.
pub record IsIdle (m : List (String × Process)) (e : String × Process) : Type 0 where
  pub found : lookup e.0 m ≡ some e.1
  pub idle : is_busy e.1 ≡ false

better-some :
    (id : String) (p : Process) (v : Option (String × Process)) (w : String × Process)
    → better (id, p) v ≡ some w
    → (((id, p) ≡ w) × (is_busy p ≡ false)) ⊎ (v ≡ some w)
unfolding better
better-some id p none w e = elim (Bool-cases (is_busy p)) [
  | inl b ↦ absurd (ground (arith, e, b))
  | inr b ↦ inl (ground (arith, e, b), b)
]
better-some id p (some (vid, v)) w e =
    elim (Bool-cases (not (is_busy p) && ltb p.last_used v.last_used)) [
      | inl b ↦ inl (ground (arith, e, b), ground (arith, b))
      | inr b ↦ inr (ground (arith, e, b))
    ]

better-none :
    (id : String) (p : Process) (v : Option (String × Process))
    → better (id, p) v ≡ none
    → (v ≡ none) × (is_busy p ≡ true)
unfolding better
better-none id p none e = ground (arith, e)
better-none id p (some (vid, v)) e = absurd (ground (arith, e))

pub lookup-tail :
    (id k : String) (p q : Process) (es : List (String × Process))
    → lookup id es ≡ none
    → lookup k es ≡ some q
    → lookup k ((id, p) ∷ es) ≡ some q
unfolding lookup
lookup-tail id k p q es fresh e = ground (arith, fresh, e, eq_iff id k)

pub lookup-head :
    (id : String) (p : Process) (es : List (String × Process)) → lookup id ((id, p) ∷ es) ≡ some p
unfolding lookup
lookup-head id p es = ground (arith, eq_iff id id)

pub pick_victim-IsIdle :
    (es m : List (String × Process)) (v : Option (String × Process)) (e : String × Process)
    → ((k : String) (p : Process) → lookup k es ≡ some p → lookup k m ≡ some p)
    → Unique es
    → ((u : String × Process) → v ≡ some u → IsIdle m u)
    → pick_victim es v ≡ some e
    → IsIdle m e
unfolding pick_victim
pick_victim-IsIdle [] m v e sub u good found = good e found
pick_victim-IsIdle ((id, p) ∷ es) m v e sub u good found =
    pick_victim-IsIdle es m (better (id, p) v) e (λ k q f. sub k q (lookup-tail id k p q es u.0 f))
      u.1
      (λ w f. elim (better-some id p v w f) [
        | inl (this, idle) ↦
            subst (IsIdle m) this (record { found = sub id p (lookup-head id p es); idle = idle })
        | inr earlier ↦ good w earlier
      ])
      found

pub pick_victim-none :
    (es : List (String × Process)) (v : Option (String × Process))
    → pick_victim es v ≡ none
    → (v ≡ none) × ((k : String) (p : Process) → lookup k es ≡ some p → is_busy p ≡ true)
unfolding pick_victim lookup
pick_victim-none [] v e = (e, λ k p f. absurd (ground (arith, f)))
pick_victim-none ((id, p) ∷ es) v e =
    let (b, busy) = pick_victim-none es (better (id, p) v) e in
    let (fresh, here) = better-none id p v b in
    (
      fresh,
      λ k q f. elim (Bool-cases (id == k)) [
        | inl same ↦ ground (arith, f, same, here)
        | inr other ↦ busy k q (ground (arith, f, other))
      ],
    )

better-le :
    (id : String) (p : Process) (v : Option (String × Process)) (n : ℕ)
    → ((w : String × Process) → better (id, p) v ≡ some w → n ≤ w.1.last_used)
    → ((w : String × Process) → v ≡ some w → n ≤ w.1.last_used)
      × (is_busy p ≡ false → n ≤ p.last_used)
unfolding better
better-le id p none n le = (λ w e. absurd (ground (arith, e)), λ idle. le (id, p) (rw idle refl))
better-le id p (some (vid, v)) n le =
    elim (Bool-cases (not (is_busy p) && ltb p.last_used v.last_used)) [
      | inl b ↦
          let here : n ≤ p.last_used = le (id, p) (rw b refl) in
          (λ w e. ground (arith, b, here, e), λ idle. here)
      | inr b ↦
          let there : n ≤ v.last_used = le (vid, v) (rw b refl) in
          (λ w e. ground (arith, there, e), λ idle. ground (arith, b, idle, there))
    ]

pub pick_victim-le :
    (es : List (String × Process)) (v : Option (String × Process)) (e : String × Process)
    → pick_victim es v ≡ some e
    → ((w : String × Process) → v ≡ some w → e.1.last_used ≤ w.1.last_used)
      × ((k : String) (p : Process)
          → lookup k es ≡ some p
          → is_busy p ≡ false
          → e.1.last_used ≤ p.last_used)
unfolding pick_victim lookup
pick_victim-le [] v e f = (λ w g. ground (arith, f, g), λ k p g. absurd (ground (arith, g)))
pick_victim-le ((id, p) ∷ es) v e f =
    let (first, rest) = pick_victim-le es (better (id, p) v) e f in
    let (earlier, here) = better-le id p v e.1.last_used first in
    (
      earlier,
      λ k q g idle. elim (Bool-cases (id == k)) [
        | inl same ↦ ground (arith, g, same, here, idle)
        | inr other ↦ rest k q (ground (arith, g, other)) idle
      ],
    )

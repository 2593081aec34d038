-- ===== src/Hook/Calls/Ended.antt =====
-- A call that has left its select keeps its outcome.
use sr_code.Prelude.{
  ℕ, String, ◌≡◌, refl, ap, ◌∙◌, ◌⊎◌, inl, inr, true, false, none, some, List, arith, nat_eq_iff,
  ◌==◌, nat_has_eq, string_has_eq, Bool-cases,
}
use sr_code.Prelude.Dict.{lookup, insert, lookup-insert}
use mathlib.Core.Path.{subst}
use sr_code.Hook.{Outcome, Progress, returned, leaving, submit, wake, clean_up}
use sr_code.Hook.Calls.{
  System, Step, enters, resumes, cleans, replies, sends, flags, Run, here, further,
}
use sr_code.Hook.Calls.Owners.{send_calls}

-- The call has left its `select` with this outcome, and may have returned it.
unfoldable pub HasEnded : ℕ → String → Outcome → System → Type 0
HasEnded n id o s =
    (lookup n s.calls ≡ some (leaving id o)) ⊎ (lookup n s.calls ≡ some (returned o))

pub other_call :
    (n k : ℕ) (q q' : Progress) (calls : List (ℕ × Progress))
    → lookup n calls ≡ some q
    → (k == n) ≡ false
    → lookup n (insert k q' calls) ≡ some q
other_call n k q q' calls e f = lookup-insert k n q' calls ∙ rw f e

pub this_call :
    (n k : ℕ) (q : Progress) (calls : List (ℕ × Progress))
    → (k == n) ≡ true
    → lookup n (insert k q calls) ≡ some q
this_call n k q calls f = lookup-insert k n q calls ∙ rw f refl

-- Another call takes nothing from a call that has an entry.
pub fresh_other :
    (n k : ℕ) (q : Progress) (calls : List (ℕ × Progress))
    → lookup n calls ≡ some q
    → lookup k calls ≡ none
    → (k == n) ≡ false
fresh_other n k q calls e f = elim (Bool-cases (k == n)) [
  | inr g ↦ g
  | inl g ↦
      let same : k ≡ n = (nat_eq_iff k n).0 g in
      let gone : lookup n calls ≡ none = subst (λ j. lookup j calls ≡ none) same f in
      absurd (ground (arith, gone, e))
]

pub same_progress :
    (n k : ℕ) (q q' : Progress) (calls : List (ℕ × Progress))
    → lookup n calls ≡ some q
    → lookup k calls ≡ some q'
    → (k == n) ≡ true
    → q' ≡ q
same_progress n k q q' calls e f g =
    let same : k ≡ n = (nat_eq_iff k n).0 g in
    let found : lookup n calls ≡ some q' = subst (λ j. lookup j calls ≡ some q') same f in
    ground (arith, found, e)

step-returned :
    {s t : System} (n : ℕ) (o : Outcome)
    → Step s t
    → lookup n s.calls ≡ some (returned o)
    → lookup n t.calls ≡ some (returned o)
unfolding wake clean_up
step-returned {s} n o (enters k ev id now fresh_call fresh_id unused) e =
    other_call n k (returned o) ((submit ev id now s.manager).0) s.calls e
      (fresh_other n k (returned o) s.calls e fresh_call)
step-returned {s} n o (resumes k q c f g) e = elim (Bool-cases (k == n)) [
  | inr x ↦ other_call n k (returned o) ((wake c f q s.manager).0) s.calls e x
  | inl x ↦
      let same : q ≡ returned o = same_progress n k (returned o) q s.calls e g x in
      this_call n k ((wake c f q s.manager).0) s.calls x ∙ rw same refl
]
step-returned {s} n o (cleans k q g) e = elim (Bool-cases (k == n)) [
  | inr x ↦ other_call n k (returned o) ((clean_up q s.manager).0) s.calls e x
  | inl x ↦
      let same : q ≡ returned o = same_progress n k (returned o) q s.calls e g x in
      this_call n k ((clean_up q s.manager).0) s.calls x ∙ rw same refl
]
step-returned n o (replies k id r ok) e = e
step-returned {s} n o (sends k id r g) e = ap (lookup n) (send_calls id r s) ∙ e
step-returned n o (flags m) e = e

step-leaving :
    {s t : System} (n : ℕ) (id : String) (o : Outcome)
    → Step s t
    → lookup n s.calls ≡ some (leaving id o)
    → HasEnded n id o t
unfolding wake clean_up HasEnded
step-leaving {s} n id o (enters k ev j now fresh_call fresh_id unused) e = inl (
    other_call n k (leaving id o) ((submit ev j now s.manager).0) s.calls e
      (fresh_other n k (leaving id o) s.calls e fresh_call))
step-leaving {s} n id o (resumes k q c f g) e = elim (Bool-cases (k == n)) [
  | inr x ↦ inl (other_call n k (leaving id o) ((wake c f q s.manager).0) s.calls e x)
  | inl x ↦
      let same : q ≡ leaving id o = same_progress n k (leaving id o) q s.calls e g x in
      inl (this_call n k ((wake c f q s.manager).0) s.calls x ∙ rw same refl)
]
step-leaving {s} n id o (cleans k q g) e = elim (Bool-cases (k == n)) [
  | inr x ↦ inl (other_call n k (leaving id o) ((clean_up q s.manager).0) s.calls e x)
  | inl x ↦
      let same : q ≡ leaving id o = same_progress n k (leaving id o) q s.calls e g x in
      inr (this_call n k ((clean_up q s.manager).0) s.calls x ∙ rw same refl)
]
step-leaving n id o (replies k j r ok) e = inl e
step-leaving {s} n id o (sends k j r g) e = inl (ap (lookup n) (send_calls j r s) ∙ e)
step-leaving n id o (flags m) e = inl e

pub step-HasEnded :
    {s t : System} (n : ℕ) (id : String) (o : Outcome)
    → Step s t
    → HasEnded n id o s
    → HasEnded n id o t
unfolding HasEnded
step-HasEnded n id o step (inl e) = step-leaving n id o step e
step-HasEnded n id o step (inr e) = inr (step-returned n o step e)

pub Run-HasEnded :
    {s t : System} (n : ℕ) (id : String) (o : Outcome)
    → Run s t
    → HasEnded n id o s
    → HasEnded n id o t
Run-HasEnded n id o here e = e
Run-HasEnded n id o (further run step) e = step-HasEnded n id o step (Run-HasEnded n id o run e)

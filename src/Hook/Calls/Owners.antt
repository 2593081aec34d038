-- ===== src/Hook/Calls/Owners.antt =====
-- The prompt of a call, and what the steps of the others do to it.
use sr_code.Prelude.{
  ℕ, String, ◌≡◌, refl, sym, ap, ◌∙◌, ◌↔◌, ◌⊎◌, inl, inr, Bool, ◌&&◌, Option, none, some, List,
  arith, eq_iff, nat_eq_iff, ◌==◌, nat_has_eq, string_has_eq, if◌then◌else◌, Bool-cases,
  Option-cases,
}
use sr_code.Prelude.Dict.{lookup, insert, lookup-insert}
use sr_code.Hook.{
  Response, PendingEntry, Event, Outcome, answered, Manager, quick_decide, new_entry, Progress,
  returned, waiting, leaving, submit, wake, deliver,
}
use sr_code.Hook.Calls.{System, send_response}

-- The prompt of a call that has not returned.
abbrev pub prompt_of : Progress → Option String
prompt_of (returned o) = none
prompt_of (waiting id) = some id
prompt_of (leaving id o) = some id

unfoldable pub prompt_at : ℕ → List (ℕ × Progress) → Option String
unfolding lookup
prompt_at n calls = elim (lookup n calls) [ none ↦ none | some q ↦ prompt_of q ]

pub prompt_at-found :
    (n : ℕ) (q : Progress) (calls : List (ℕ × Progress))
    → lookup n calls ≡ some q
    → prompt_at n calls ≡ prompt_of q
unfolding prompt_at
prompt_at-found n q calls e = rw (prompt_at, e) refl

pub prompt_at-missing :
    (n : ℕ) (calls : List (ℕ × Progress)) → lookup n calls ≡ none → prompt_at n calls ≡ none
unfolding prompt_at
prompt_at-missing n calls e = rw (prompt_at, e) refl

pub prompt_at-same :
    (n : ℕ) (calls calls' : List (ℕ × Progress))
    → lookup n calls ≡ lookup n calls'
    → prompt_at n calls ≡ prompt_at n calls'
unfolding prompt_at
prompt_at-same n calls calls' e =
    ap (λ (o : Option Progress). elim o [ none ↦ none | some q ↦ prompt_of q ]) e

pub prompt_at-insert :
    (n k : ℕ) (q : Progress) (calls : List (ℕ × Progress))
    → prompt_at k (insert n q calls) ≡ (if n == k then prompt_of q else prompt_at k calls)
prompt_at-insert n k q calls = elim (Bool-cases (n == k)) [
  | inl e ↦
      prompt_at-found k q (insert n q calls) (lookup-insert n k q calls ∙ rw e refl) ∙ rw e refl
  | inr e ↦
      prompt_at-same k (insert n q calls) calls (lookup-insert n k q calls ∙ rw e refl) ∙ rw e refl
]

-- A call goes on with the prompt it had.
pub same_prompt :
    (n k : ℕ) (q' : Progress) (calls : List (ℕ × Progress))
    → prompt_at n calls ≡ prompt_of q'
    → prompt_at k (insert n q' calls) ≡ prompt_at k calls
same_prompt n k q' calls e = elim (Bool-cases (n == k)) [
  | inr f ↦ prompt_at-insert n k q' calls ∙ rw f refl
  | inl f ↦
      let same : n ≡ k = (nat_eq_iff n k).0 f in
      prompt_at-insert n k q' calls ∙ rw f (sym e ∙ ap (λ j. prompt_at j calls) same)
]

-- An entry that is there is replaced.
replaced_pending :
    (id j : String) (p p' : PendingEntry) (m : List (String × PendingEntry))
    → lookup id m ≡ some p
    → (lookup j (insert id p' m) ≡ none) ↔ (lookup j m ≡ none)
replaced_pending id j p p' m e = (
  λ h. ground (arith, e, h, lookup-insert id j p' m, eq_iff id j),
  λ h. ground (arith, e, h, lookup-insert id j p' m, eq_iff id j),
)

pub wake_prompt :
    (c f : Bool) (q : Progress) (m : Manager) → prompt_of ((wake c f q m).0) ≡ prompt_of q
unfolding wake
wake_prompt c f (returned o) m = refl
wake_prompt c f (leaving id o) m = refl
wake_prompt c f (waiting id) m = elim (Option-cases (lookup id m.pending)) [
  | inl e ↦ ground (arith, e)
  | inr (p, e) ↦ elim (Option-cases p.response) [
    | inl g ↦ ground (arith, e, g)
    | inr (r, g) ↦ ground (arith, e, g)
  ]
]

pub wake_pending :
    (c f : Bool) (q : Progress) (m : Manager) (j : String)
    → (lookup j ((wake c f q m).1).pending ≡ none) ↔ (lookup j m.pending ≡ none)
unfolding wake
wake_pending c f (returned o) m j = (λ h. h, λ h. h)
wake_pending c f (leaving id o) m j = (λ h. h, λ h. h)
wake_pending c f (waiting id) m j = elim (Option-cases (lookup id m.pending)) [
  | inl e ↦ rw (wake, e) (λ h. h, λ h. h)
  | inr (p, e) ↦ elim (Option-cases p.response) [
    | inl g ↦ rw (wake, e, g) (λ h. h, λ h. h)
    | inr (r, g) ↦ elim (Bool-cases (c && f)) [
      | inl x ↦ rw (wake, e, g, x) (λ h. h, λ h. h)
      | inr x ↦
          rw (wake, e, g, x) (replaced_pending id j p (record p { response = none }) m.pending e)
    ]
  ]
]

pub send_pending :
    (id j : String) (r : Response) (s : System)
    → (lookup j ((send_response id r s).1).manager.pending ≡ none)
      ↔ (lookup j s.manager.pending ≡ none)
unfolding send_response deliver
send_pending id j r s = elim (Option-cases (lookup id s.manager.pending)) [
  | inl e ↦ elim (Option-cases (lookup id s.gone)) [
    | inl g ↦ rw (send_response, e, g) (λ h. h, λ h. h)
    | inr (p, g) ↦ elim (Option-cases p.response) [
      | inl x ↦ rw (send_response, e, g, x) (λ h. h, λ h. h)
      | inr (o, x) ↦ rw (send_response, e, g, x) (λ h. h, λ h. h)
    ]
  ]
  | inr (p, e) ↦ elim (Option-cases p.response) [
    | inl x ↦
        rw (send_response, e, deliver, x)
          (replaced_pending id j p (record p { response = some r }) s.manager.pending e)
    | inr (o, x) ↦ rw (send_response, e, deliver, x) (λ h. h, λ h. h)
  ]
]

pub send_calls :
    (id : String) (r : Response) (s : System) → ((send_response id r s).1).calls ≡ s.calls
unfolding send_response
send_calls id r s = elim (Option-cases (lookup id s.manager.pending)) [
  | inr (p, e) ↦ rw (send_response, e) refl
  | inl e ↦ elim (Option-cases (lookup id s.gone)) [
    | inl g ↦ rw (send_response, e, g) refl
    | inr (p, g) ↦ elim (Option-cases p.response) [
      | inl x ↦ rw (send_response, e, g, x) refl
      | inr (o, x) ↦ rw (send_response, e, g, x) refl
    ]
  ]
]

-- The two ends of `submit`.
pub submit_cases :
    (ev : Event) (id : String) (now : ℕ) (m : Manager)
    → ((o : Outcome) × (submit ev id now m ≡ (returned o, m)))
      ⊎ (submit ev id now m
          ≡ (waiting id, record m { pending = insert id (new_entry ev id now) m.pending }))
unfolding submit
submit_cases ev id now m = elim (Option-cases (quick_decide ev m)) [
  | inl e ↦ inr (rw (e, submit))
  | inr (r, e) ↦ inl (answered r, rw (e, submit))
]

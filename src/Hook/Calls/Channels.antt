-- ===== src/Hook/Calls/Channels.antt =====
-- What a step leaves of the channel of a call.
use sr_code.Prelude.{
  ℕ, String, ◌≡◌, refl, ap, ◌∙◌, ◌⊎◌, inl, inr, Bool, false, ◌&&◌, none, some, arith, eq_iff,
  nat_eq_iff, ◌==◌, nat_has_eq, string_has_eq, Bool-cases, Option-cases,
}
use sr_code.Prelude.Dict.{lookup, lookup-insert, lookup-remove}
use sr_code.Hook.{
  Response, PendingEntry, Event, answered, ctx_error, Manager, new_entry, Progress, returned,
  waiting, leaving, submit, wake, clean_up, deliver,
}
use sr_code.Hook.Calls.{System, send_response}
use sr_code.Hook.Calls.Owners.{prompt_of, prompt_at, prompt_at-found, submit_cases}
use sr_code.Hook.Calls.Sound.{IsSound}

pub other_prompt :
    (n k : ℕ) (q : Progress) (id j : String) (s : System)
    → IsSound s
    → lookup n s.calls ≡ some (waiting id)
    → lookup k s.calls ≡ some q
    → prompt_of q ≡ some j
    → (k == n) ≡ false
    → (j == id) ≡ false
other_prompt n k q id j s w e f h x = elim (Bool-cases (j == id)) [
  | inr y ↦ y
  | inl y ↦
      let same : j ≡ id = (eq_iff j id).0 y in
      let its : prompt_at k s.calls ≡ some id =
        prompt_at-found k q s.calls f ∙ h ∙ ap (λ i. some i) same in
      let one : k ≡ n = w.alone k n id its (prompt_at-found n (waiting id) s.calls e) in
      absurd (ground (arith, (nat_eq_iff k n).1 one, x))
]

pub wake_other :
    (c f : Bool) (j id : String) (m : Manager)
    → (j == id) ≡ false
    → lookup id ((wake c f (waiting j) m).1).pending ≡ lookup id m.pending
unfolding wake
wake_other c f j id m x = elim (Option-cases (lookup j m.pending)) [
  | inl e ↦ rw (wake, e) refl
  | inr (p, e) ↦ elim (Option-cases p.response) [
    | inl g ↦ rw (wake, e, g) refl
    | inr (r, g) ↦ elim (Bool-cases (c && f)) [
      | inl y ↦ rw (wake, e, g, y) refl
      | inr y ↦
          rw (wake, e, g, y)
            (lookup-insert j id (record p { response = none }) m.pending ∙ rw x refl)
    ]
  ]
]

-- The `select` of a call whose channel has a response.
pub wake_answered :
    (c f : Bool) (id : String) (m : Manager) (p : PendingEntry) (r : Response)
    → lookup id m.pending ≡ some p
    → p.response ≡ some r
    → ((wake c f (waiting id) m).0 ≡ leaving id (answered r))
      ⊎ ((wake c f (waiting id) m).0 ≡ leaving id ctx_error)
unfolding wake
wake_answered c f id m p r e g = elim (Bool-cases (c && f)) [
  | inl y ↦ inr (rw (wake, e, g, y) refl)
  | inr y ↦ inl (rw (wake, e, g, y) refl)
]

pub submit_other :
    (ev : Event) (j id : String) (now : ℕ) (m : Manager) (p : PendingEntry)
    → lookup j m.pending ≡ none
    → lookup id m.pending ≡ some p
    → lookup id ((submit ev j now m).1).pending ≡ some p
submit_other ev j id now m p free e = elim (submit_cases ev j now m) [
  | inl (o, f) ↦ rw f e
  | inr f ↦
      rw f (ground (arith, e, free, lookup-insert j id (new_entry ev j now) m.pending, eq_iff j id))
]

pub send_keeps :
    (j id : String) (r r' : Response) (s : System) (p : PendingEntry)
    → lookup id s.manager.pending ≡ some p
    → p.response ≡ some r
    → lookup id ((send_response j r' s).1).manager.pending ≡ some p
unfolding send_response deliver
send_keeps j id r r' s p e g = elim (Option-cases (lookup j s.manager.pending)) [
  | inl f ↦ elim (Option-cases (lookup j s.gone)) [
    | inl h ↦ rw (send_response, f, h) e
    | inr (q, h) ↦ elim (Option-cases q.response) [
      | inl x ↦ rw (send_response, f, h, x) e
      | inr (o, x) ↦ rw (send_response, f, h, x) e
    ]
  ]
  | inr (q, f) ↦ elim (Option-cases q.response) [
    | inr (o, x) ↦ rw (send_response, f, deliver, x) e
    | inl x ↦
        rw (send_response, f, deliver, x)
          (ground (
            arith,
            e,
            f,
            g,
            x,
            lookup-insert j id (record q { response = some r' }) s.manager.pending,
            eq_iff j id,
          ))
  ]
]

pub resumed_pending :
    (n k : ℕ) (q : Progress) (c f : Bool) (id : String) (s : System)
    → IsSound s
    → lookup n s.calls ≡ some (waiting id)
    → lookup k s.calls ≡ some q
    → (k == n) ≡ false
    → lookup id ((wake c f q s.manager).1).pending ≡ lookup id s.manager.pending
unfolding wake
resumed_pending n k (returned o) c f id s w e i x = refl
resumed_pending n k (leaving j o) c f id s w e i x = refl
resumed_pending n k (waiting j) c f id s w e i x =
    wake_other c f j id s.manager (other_prompt n k (waiting j) id j s w e i refl x)

pub cleaned_pending :
    (n k : ℕ) (q : Progress) (id : String) (s : System)
    → IsSound s
    → lookup n s.calls ≡ some (waiting id)
    → lookup k s.calls ≡ some q
    → (k == n) ≡ false
    → lookup id ((clean_up q s.manager).1).pending ≡ lookup id s.manager.pending
unfolding clean_up
cleaned_pending n k (returned o) id s w e i x = refl
cleaned_pending n k (waiting j) id s w e i x = refl
cleaned_pending n k (leaving j o) id s w e i x =
    lookup-remove j id s.manager.pending
    ∙ rw (other_prompt n k (leaving j o) id j s w e i refl x) refl

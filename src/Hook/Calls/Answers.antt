-- ===== src/Hook/Calls/Answers.antt =====
-- What becomes of an answer.
use sr_code.Prelude.{
  ℕ, String, ◌≡◌, refl, ap, ◌∙◌, ◌⊎◌, inl, inr, false, none, some, arith, ◌==◌, nat_has_eq,
  string_has_eq, same_refl, Bool-cases, Option-cases,
}
use sr_code.Prelude.Dict.{lookup, lookup-insert}
use sr_code.Hook.{
  Response, PendingEntry, Outcome, answered, ctx_error, waiting, leaving, submit, wake, clean_up,
  deliver, begin_respond,
}
use sr_code.Hook.Calls.{
  System, idle, send_response, sent, Step, enters, resumes, cleans, replies, sends, flags, Run,
  here, further,
}
use sr_code.Hook.Calls.Owners.{prompt_at-found, send_calls}
use sr_code.Hook.Calls.Sound.{IsSound, step-IsSound, Run-IsSound, Reach-IsSound}
use sr_code.Hook.Calls.Ended.{
  HasEnded, other_call, this_call, fresh_other, same_progress, step-HasEnded, Run-HasEnded,
}
use sr_code.Hook.Calls.Channels.{
  wake_answered, submit_other, send_keeps, resumed_pending, cleaned_pending,
}

-- The call waits, and the response is in the channel that it reads.
HasAnswer : ℕ → String → Response → System → Type 0
HasAnswer n id r s =
    (lookup n s.calls ≡ some (waiting id))
    × ((p : PendingEntry) × (lookup id s.manager.pending ≡ some p) × (p.response ≡ some r))

-- The answer waits for the call; or the call has left its `select` with it, or with its context's error.
IsOnItsWay : ℕ → String → Response → System → Type 0
IsOnItsWay n id r s =
    HasAnswer n id r s ⊎ (HasEnded n id (answered r) s ⊎ HasEnded n id ctx_error s)

step-HasAnswer :
    {s t : System} (n : ℕ) (id : String) (r : Response)
    → IsSound s
    → Step s t
    → HasAnswer n id r s
    → IsOnItsWay n id r t
unfolding HasAnswer IsOnItsWay HasEnded clean_up
step-HasAnswer {s} n id r w (enters k ev j now fresh_call fresh_id unused) (e, (p, g, h)) = inl (
  other_call n k (waiting id) ((submit ev j now s.manager).0) s.calls e
      (fresh_other n k (waiting id) s.calls e fresh_call),
  (p, submit_other ev j id now s.manager p fresh_id g, h),
)
step-HasAnswer {s} n id r w (resumes k q c f i) (e, (p, g, h)) = elim (Bool-cases (k == n)) [
  | inl x ↦
      let same : q ≡ waiting id = same_progress n k (waiting id) q s.calls e i x in
      elim (wake_answered c f id s.manager p r g h) [
        | inl y ↦ inr (
            inl (
              inl (
                this_call n k ((wake c f q s.manager).0) s.calls x
                ∙ ap (λ a. some ((wake c f a s.manager).0)) same
                ∙ ap (λ a. some a) y)))
        | inr y ↦ inr (
            inr (
              inl (
                this_call n k ((wake c f q s.manager).0) s.calls x
                ∙ ap (λ a. some ((wake c f a s.manager).0)) same
                ∙ ap (λ a. some a) y)))
      ]
  | inr x ↦ inl (
    other_call n k (waiting id) ((wake c f q s.manager).0) s.calls e x,
    (p, resumed_pending n k q c f id s w e i x ∙ g, h),
  )
]
step-HasAnswer {s} n id r w (cleans k q i) (e, (p, g, h)) = elim (Bool-cases (k == n)) [
  | inl x ↦
      let same : q ≡ waiting id = same_progress n k (waiting id) q s.calls e i x in
      inl (this_call n k ((clean_up q s.manager).0) s.calls x ∙ rw same refl, (p, rw same g, h))
  | inr x ↦ inl (
    other_call n k (waiting id) ((clean_up q s.manager).0) s.calls e x,
    (p, cleaned_pending n k q id s w e i x ∙ g, h),
  )
]
step-HasAnswer n id r w (replies k j r' ok) a = inl a
step-HasAnswer {s} n id r w (sends k j r' i) (e, (p, g, h)) =
    inl (ap (lookup n) (send_calls j r' s) ∙ e, (p, send_keeps j id r r' s p g h, h))
step-HasAnswer n id r w (flags m) a = inl a

step-IsOnItsWay :
    {s t : System} (n : ℕ) (id : String) (r : Response)
    → IsSound s
    → Step s t
    → IsOnItsWay n id r s
    → IsOnItsWay n id r t
unfolding IsOnItsWay
step-IsOnItsWay n id r w step (inl a) = step-HasAnswer n id r w step a
step-IsOnItsWay n id r w step (inr (inl a)) = inr (inl (step-HasEnded n id (answered r) step a))
step-IsOnItsWay n id r w step (inr (inr a)) = inr (inr (step-HasEnded n id ctx_error step a))

Run-IsOnItsWay :
    {s t : System} (n : ℕ) (id : String) (r : Response)
    → IsSound s
    → Run s t
    → IsOnItsWay n id r s
    → IsOnItsWay n id r t
Run-IsOnItsWay n id r w here a = a
Run-IsOnItsWay n id r w (further run step) a =
    step-IsOnItsWay n id r (Run-IsSound run w) step (Run-IsOnItsWay n id r w run a)

send_puts :
    (id : String) (r : Response) (s : System) (p : PendingEntry)
    → lookup id s.manager.pending ≡ some p
    → p.response ≡ none
    → lookup id ((send_response id r s).1).manager.pending ≡ some (record p { response = some r })
unfolding send_response deliver
send_puts id r s p f x =
    rw (send_response, f, deliver, x)
      (lookup-insert id id (record p { response = some r }) s.manager.pending
        ∙ rw (same_refl id) refl)

-- An accepted send puts the response where the call reads.
sent-HasAnswer :
    (n k : ℕ) (id : String) (r : Response) (s : System)
    → IsSound s
    → lookup n s.calls ≡ some (waiting id)
    → (send_response id r s).0 ≡ none
    → HasAnswer n id r (sent k id r s)
unfolding HasAnswer send_response deliver
sent-HasAnswer n k id r s w e ok = elim (Option-cases (lookup id s.manager.pending)) [
  | inl f ↦ absurd (w.shown n id (prompt_at-found n (waiting id) s.calls e) f)
  | inr (p, f) ↦ elim (Option-cases p.response) [
    | inr (o, x) ↦ absurd (ground (arith, f, x, ok))
    | inl x ↦ (
      ap (lookup n) (send_calls id r s) ∙ e,
      (record p { response = some r }, send_puts id r s p f x, refl),
    )
  ]
]

-- If the send of a response is accepted while the call of its prompt waits, then, whatever happens
-- next: the call still waits and the response is in the channel that it reads, so that its `select`
-- takes the response unless it takes the end of the context; or the call has left its `select` with
-- this response, or with the error of its context, and has returned that or is about to.
pub answer_reaches :
    (n k : ℕ) (id : String) (r : Response) (s t : System)
    → Run idle s
    → lookup n s.calls ≡ some (waiting id)
    → lookup k s.replies ≡ some (id, r)
    → (send_response id r s).0 ≡ none
    → Run (sent k id r s) t
    → ((lookup n t.calls ≡ some (waiting id))
        × ((wake false false (waiting id) t.manager).0 ≡ leaving id (answered r)))
      ⊎ (HasEnded n id (answered r) t ⊎ HasEnded n id ctx_error t)
unfolding IsOnItsWay HasAnswer wake
answer_reaches n k id r s t run e held ok later =
    let w = Reach-IsSound s run in
    elim (Run-IsOnItsWay n id r (step-IsSound (sends k id r held) w) later
      (inl (sent-HasAnswer n k id r s w e ok))) [
        | inl (waits, (p, f, g)) ↦ inl (waits, rw (wake, f, g) refl)
        | inr ended ↦ inr ended
      ]

-- Between the `select` of a call and its deletion, where its channel is empty: a response to its prompt
-- without a scope for the session is accepted, and whatever happens next, the call keeps the outcome it
-- had, so that the response is lost.
pub answer_is_lost :
    (n k : ℕ) (id : String) (r : Response) (o : Outcome) (p : PendingEntry) (s t : System)
    → lookup n s.calls ≡ some (leaving id o)
    → lookup id s.manager.pending ≡ some p
    → p.response ≡ none
    → (r.scope == "session") ≡ false
    → Run (sent k id r s) t
    → (begin_respond id r s.manager ≡ none) × ((send_response id r s).0 ≡ none) × HasEnded n id o t
unfolding begin_respond send_response deliver HasEnded
answer_is_lost n k id r o p s t e f g plain later = (
  rw (begin_respond, f, plain) refl,
  rw (send_response, f, deliver, g) refl,
  Run-HasEnded n id o later (inl (ap (lookup n) (send_calls id r s) ∙ e)),
)

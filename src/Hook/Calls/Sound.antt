-- ===== src/Hook/Calls/Sound.antt =====
-- Which call a prompt belongs to.
use sr_code.Prelude.{
  ℕ, String, ◌≡◌, refl, sym, ap, ◌∙◌, ◌≢◌, inl, inr, none, some, List, arith, eq_iff, ◌==◌,
  nat_has_eq, string_has_eq, Bool-cases,
}
use sr_code.Prelude.Dict.{lookup, insert, remove, lookup-insert, lookup-remove}
use sr_code.Hook.{PendingEntry, Outcome, new_entry, returned, waiting, leaving, wake, clean_up}
use sr_code.Hook.Calls.{
  System, idle, dropped, Step, enters, resumes, cleans, replies, sends, flags, Run, here, further,
}
use sr_code.Hook.Calls.Owners.{
  prompt_at, prompt_at-found, prompt_at-missing, prompt_at-insert, same_prompt, wake_prompt,
  wake_pending, send_pending, send_calls, submit_cases,
}

-- A call that has not returned has its prompt pending, and no other such call has this prompt.
pub record IsSound (s : System) : Type 0 where
  pub shown :
      (n : ℕ) (id : String) → prompt_at n s.calls ≡ some id → lookup id s.manager.pending ≢ none
  pub owned :
      (id : String) → lookup id s.manager.pending ≢ none → (n : ℕ) × (prompt_at n s.calls ≡ some id)
  pub alone :
      (n k : ℕ) (id : String)
      → prompt_at n s.calls ≡ some id
      → prompt_at k s.calls ≡ some id
      → n ≡ k

idle-IsSound : IsSound idle
unfolding lookup prompt_at
idle-IsSound = record {
  shown = λ n id e. absurd (ground (arith, e));
  owned = λ id h. absurd (h refl);
  alone = λ n k id e f. absurd (ground (arith, e));
}

-- What neither changes the prompts of the calls nor which prompts are pending.
record Keeps (s t : System) : Type 0 where
  prompts : (n : ℕ) → prompt_at n t.calls ≡ prompt_at n s.calls
  gone : (id : String) → lookup id t.manager.pending ≡ none → lookup id s.manager.pending ≡ none
  kept : (id : String) → lookup id s.manager.pending ≡ none → lookup id t.manager.pending ≡ none

Keeps-IsSound : {s t : System} → Keeps s t → IsSound s → IsSound t
Keeps-IsSound k w = record {
  shown = λ n id e h. w.shown n id (sym (k.prompts n) ∙ e) (k.gone id h);
  owned = λ id h. let (n, e) = w.owned id (λ g. h (k.kept id g)) in (n, k.prompts n ∙ e);
  alone = λ n j id e f. w.alone n j id (sym (k.prompts n) ∙ e) (sym (k.prompts j) ∙ f);
}

module _ (s : System) (w : IsSound s) (n : ℕ) where
  set_waiting :
      (id : String) (p : PendingEntry)
      → lookup n s.calls ≡ none
      → lookup id s.manager.pending ≡ none
      → IsSound (record s {
        manager = record s.manager { pending = insert id p s.manager.pending };
        calls = insert n (waiting id) s.calls;
      })
  set_waiting id p fresh_call fresh_id =
      let none_yet = prompt_at-missing n s.calls fresh_call in
      record {
        shown = λ k j e h. ground (
          arith,
          prompt_at-insert n k (waiting id) s.calls,
          lookup-insert id j p s.manager.pending,
          w.shown k j,
          eq_iff id j,
        );
        owned = λ j h. elim (Bool-cases (id == j)) [
          | inl same ↦ (n, ground (arith, prompt_at-insert n n (waiting id) s.calls, eq_iff id j))
          | inr other ↦
              let old : lookup j s.manager.pending ≢ none =
                λ e. h (lookup-insert id j p s.manager.pending ∙ rw other e) in
              let (k, e) = w.owned j old in
              (k, ground (arith, prompt_at-insert n k (waiting id) s.calls, e, none_yet))
        ];
        alone = λ j k i e f. ground (
          arith,
          prompt_at-insert n j (waiting id) s.calls,
          prompt_at-insert n k (waiting id) s.calls,
          w.alone j k i,
          w.shown j i,
          w.shown k i,
        );
      }

  set_finished :
      (id : String) (o : Outcome) (gone : List (String × PendingEntry))
      → prompt_at n s.calls ≡ some id
      → IsSound (record s {
        manager = record s.manager { pending = remove id s.manager.pending };
        calls = insert n (returned o) s.calls;
        gone = gone;
      })
  set_finished id o gone leaves = record {
    shown = λ k j e h. ground (
      arith,
      prompt_at-insert n k (returned o) s.calls,
      lookup-remove id j s.manager.pending,
      w.shown k j,
      w.alone n k id,
      eq_iff id j,
    );
    owned = λ j h.
        let old : lookup j s.manager.pending ≢ none =
          λ e. h (lookup-remove id j s.manager.pending ∙ ground (arith, e)) in
        let (k, e) = w.owned j old in
        (
          k,
          ground (
            arith,
            prompt_at-insert n k (returned o) s.calls,
            e,
            lookup-remove id j s.manager.pending,
            h,
            eq_iff id j,
          ),
        );
    alone = λ j k i e f. ground (
      arith,
      prompt_at-insert n j (returned o) s.calls,
      prompt_at-insert n k (returned o) s.calls,
      w.alone j k i,
    );
  }

pub step-IsSound : {s t : System} → Step s t → IsSound s → IsSound t
unfolding clean_up
step-IsSound {s} (enters n ev id now fresh_call fresh_id unused) w =
    elim (submit_cases ev id now s.manager) [
      | inl (o, e) ↦ rw e (
          Keeps-IsSound
            (record {
              prompts = λ k.
                  same_prompt n k (returned o) s.calls (prompt_at-missing n s.calls fresh_call);
              gone = λ j h. h;
              kept = λ j h. h;
            })
            w)
      | inr e ↦ rw e (set_waiting s w n id (new_entry ev id now) fresh_call fresh_id)
    ]
step-IsSound {s} (resumes n q c f e) w =
    Keeps-IsSound
      (record {
        prompts = λ k.
            same_prompt n k ((wake c f q s.manager).0) s.calls
              (prompt_at-found n q s.calls e ∙ sym (wake_prompt c f q s.manager));
        gone = λ j h. (wake_pending c f q s.manager j).0 h;
        kept = λ j h. (wake_pending c f q s.manager j).1 h;
      })
      w
step-IsSound {s} (cleans n (returned o) e) w =
    Keeps-IsSound
      (record {
        prompts =
            λ k. same_prompt n k (returned o) s.calls (prompt_at-found n (returned o) s.calls e);
        gone = λ j h. h;
        kept = λ j h. h;
      })
      w
step-IsSound {s} (cleans n (waiting id) e) w =
    Keeps-IsSound
      (record {
        prompts =
            λ k. same_prompt n k (waiting id) s.calls (prompt_at-found n (waiting id) s.calls e);
        gone = λ j h. h;
        kept = λ j h. h;
      })
      w
step-IsSound {s} (cleans n (leaving id o) e) w =
    set_finished s w n id o (dropped (leaving id o) s) (prompt_at-found n (leaving id o) s.calls e)
step-IsSound (replies k id r ok) w = record { shown = w.shown; owned = w.owned; alone = w.alone }
step-IsSound {s} (sends k id r e) w =
    Keeps-IsSound
      (record {
        prompts = λ n. ap (prompt_at n) (send_calls id r s);
        gone = λ j h. (send_pending id j r s).0 h;
        kept = λ j h. (send_pending id j r s).1 h;
      })
      w
step-IsSound (flags m) w = record { shown = w.shown; owned = w.owned; alone = w.alone }

pub Run-IsSound : {s t : System} → Run s t → IsSound s → IsSound t
Run-IsSound here w = w
Run-IsSound (further run step) w = step-IsSound step (Run-IsSound run w)

-- However calls, answers, cancelled contexts and deletions interleave, with fresh prompt ids: every
-- pending prompt belongs to exactly one call that has not returned, which waits for its answer or is
-- about to delete it; and every such call has its prompt pending.
pub Reach-IsSound : (s : System) → Run idle s → IsSound s
Reach-IsSound s run = Run-IsSound run idle-IsSound

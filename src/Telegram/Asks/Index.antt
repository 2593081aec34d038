-- ===== src/Telegram/Asks/Index.antt =====
-- A topic leads to a question of its own, though not always to one that waits in it.
use sr_code.Prelude.{
  ℕ, String, ◌≡◌, refl, sym, ap, ◌∙◌, ◌≢◌, inl, inr, false, none, some, List, arith, eq_iff, nat_eq,
  nat_eq_iff, nat_has_eq, string_has_eq, same_refl, Bool-cases, Option-cases,
}
use sr_code.Prelude.Dict.{lookup, insert, remove, lookup-insert, lookup-remove}
use sr_code.Telegram.Asks.{AskEntry, Asks, no_asks, put_ask, take_ask, take_ask_by_thread}

-- New questions have new ids, as the prompts of the permission broker have.
pub data Step (a : Asks) : Asks → Type 0 where
  puts : (id : String) (e : AskEntry) → lookup id a.asks ≡ none → Step a (put_ask id e a)
  takes : (id : String) → Step a ((take_ask id a).1)
  takes_by_thread : (thread : ℕ) → Step a ((take_ask_by_thread thread a).1)

pub data Reach : Asks → Type 0 where
  starts_empty : Reach no_asks
  then_step : {a a' : Asks} → Reach a → Step a a' → Reach a'

-- Each topic that is listed leads to a question that was asked in it.
record IsIndexed (a : Asks) : Type 0 where
  leads :
      (thread : ℕ) (id : String)
      → lookup thread a.asks_by_thread ≡ some id
      → (e : AskEntry) × (lookup id a.asks ≡ some e) × (e.thread ≡ thread)

put_ask-IsIndexed :
    (id : String) (e : AskEntry) (a : Asks)
    → lookup id a.asks ≡ none
    → IsIndexed a
    → IsIndexed (put_ask id e a)
unfolding put_ask
put_ask-IsIndexed id e a new x = record {
  leads = λ thread j at. elim (Bool-cases (nat_eq e.thread thread)) [
    | inl same ↦
        let this : id ≡ j =
          ground (arith, at, same, lookup-insert e.thread thread id a.asks_by_thread) in
        (
          e,
          ground (arith, this, lookup-insert id j e a.asks, eq_iff id j),
          (nat_eq_iff e.thread thread).0 same,
        )
    | inr other ↦
        let (f, found, whose) =
          x.leads thread j
            (ground (arith, at, other, lookup-insert e.thread thread id a.asks_by_thread)) in
        (f, ground (arith, found, new, lookup-insert id j e a.asks, eq_iff id j), whose)
  ];
}

-- The question of a topic goes with the topic's entry.
gone-IsIndexed :
    (id : String) (thread : ℕ) (a : Asks)
    → ((k : ℕ) → lookup k a.asks_by_thread ≡ some id → k ≡ thread)
    → IsIndexed a
    → IsIndexed
        (record { asks = remove id a.asks; asks_by_thread = remove thread a.asks_by_thread })
gone-IsIndexed id thread a only x = record {
  leads = λ k j at.
      let (there, other) : (lookup k a.asks_by_thread ≡ some j) × (nat_eq thread k ≡ false) = (
        ground (arith, at, lookup-remove thread k a.asks_by_thread),
        ground (arith, at, lookup-remove thread k a.asks_by_thread),
      ) in
      let (f, found, whose) = x.leads k j there in
      (
        f,
        ground (
          arith,
          found,
          there,
          other,
          only k,
          lookup-remove id j a.asks,
          eq_iff id j,
          nat_eq_iff thread k,
        ),
        whose,
      );
}

take_ask-IsIndexed : (id : String) (a : Asks) → IsIndexed a → IsIndexed ((take_ask id a).1)
unfolding take_ask
take_ask-IsIndexed id a x = elim (Option-cases (lookup id a.asks)) [
  | inl f ↦ rw (take_ask, f) x
  | inr (e, f) ↦
      rw (take_ask, f)
        (gone-IsIndexed id e.thread a
          (λ k at.
            let (g, found, whose) = x.leads k id at in
            let this : g ≡ e = ground (arith, found, f) in
            sym whose ∙ ap (λ (h : AskEntry). h.thread) this)
          x)
]

take_ask_by_thread-IsIndexed :
    (thread : ℕ) (a : Asks) → IsIndexed a → IsIndexed ((take_ask_by_thread thread a).1)
unfolding take_ask_by_thread
take_ask_by_thread-IsIndexed thread a x = elim (Option-cases (lookup thread a.asks_by_thread)) [
  | inl f ↦ rw (take_ask_by_thread, f) x
  | inr (id, f) ↦
      rw (take_ask_by_thread, f)
        (gone-IsIndexed id thread a
          (λ k at.
            let (g, found, whose) = x.leads k id at in
            let (h, found', whose') = x.leads thread id f in
            let this : g ≡ h = ground (arith, found, found') in
            sym whose ∙ (ap (λ (b : AskEntry). b.thread) this ∙ whose'))
          x)
]

reach-IsIndexed : {a : Asks} → Reach a → IsIndexed a
unfolding lookup
reach-IsIndexed starts_empty = record { leads = λ thread id at. absurd (ground (arith, at)) }
reach-IsIndexed (then_step {a} reach (puts id e new)) =
    put_ask-IsIndexed id e a new (reach-IsIndexed reach)
reach-IsIndexed (then_step {a} reach (takes id)) = take_ask-IsIndexed id a (reach-IsIndexed reach)
reach-IsIndexed (then_step {a} reach (takes_by_thread thread)) =
    take_ask_by_thread-IsIndexed thread a (reach-IsIndexed reach)

-- In every state of the hub, the question that a typed reply takes is one that waits under its id
-- and was asked in the topic of the reply: a reply is never filed under the empty question.
pub typed_reply_has_question :
    (a : Asks)
    → Reach a
    → (thread : ℕ) (id : String) (e : AskEntry) → (take_ask_by_thread thread a).0 ≡ some (id, e)
    → (lookup id a.asks ≡ some e) × (e.thread ≡ thread)
unfolding take_ask_by_thread
typed_reply_has_question a reach thread id e took =
    elim (Option-cases (lookup thread a.asks_by_thread)) [
      | inl f ↦ absurd (ground (arith, took, f))
      | inr (j, f) ↦
          let (g, found, whose) = (reach-IsIndexed reach).leads thread j f in
          let its : (j ≡ id) × (g ≡ e) =
            (ground (arith, took, f, found), ground (arith, took, f, found)) in
          (ground (arith, its, found), sym (ap (λ (h : AskEntry). h.thread) (its.1)) ∙ whose)
    ]

-- If a question is followed by a second one in the same topic and is then taken by its own button, or
-- dropped because its message could not be sent, the second one still waits, but no reply that is
-- typed in the topic finds it.
pub older_ask_unlinks :
    (id later : String) (e e' : AskEntry) (a : Asks)
    → id ≢ later
    → e.thread ≡ e'.thread
    → (lookup later ((take_ask id (put_ask later e' (put_ask id e a))).1).asks ≡ some e')
      × ((take_ask_by_thread e'.thread ((take_ask id (put_ask later e' (put_ask id e a))).1)).0
          ≡ none)
unfolding take_ask take_ask_by_thread put_ask
older_ask_unlinks id later e e' a ne same =
    let m : List (String × AskEntry) = insert later e' (insert id e a.asks) in
    let n : List (ℕ × String) = insert e'.thread later (insert e.thread id a.asks_by_thread) in
    let there : lookup id m ≡ some e = ground (
      arith,
      ne,
      same_refl id,
      eq_iff later id,
      lookup-insert later id e' (insert id e a.asks),
      lookup-insert id id e a.asks,
    ) in
    let stays : lookup later (remove id m) ≡ some e' = ground (
      arith,
      ne,
      same_refl later,
      eq_iff id later,
      lookup-remove id later m,
      lookup-insert later later e' (insert id e a.asks),
    ) in
    let gone : lookup e'.thread (remove e.thread n) ≡ none =
      ground (arith, same, nat_eq_iff e.thread e'.thread, lookup-remove e.thread e'.thread n) in
    (rw (take_ask, there) stays, rw (take_ask, there) (rw (take_ask_by_thread, gone) refl))

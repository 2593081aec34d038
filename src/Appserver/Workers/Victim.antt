-- ===== src/Appserver/Workers/Victim.antt =====
-- Which worker is put out for a new one.
use sr_code.Prelude.{
  ℕ, ◌+◌, ◌≤◌, ◌<◌, String, ◌≡◌, refl, sym, ◌∙◌, ◌⊎◌, inl, inr, true, false, not, ◌||◌, Option,
  none, some, List, [], ◌∷◌, arith, ltb, nat_has_eq, string_has_eq, same_refl, eq_iff, ◌==◌,
  Bool-cases, Option-cases, length,
}
use sr_code.Prelude.Dict.{lookup, remove, Unique, length-remove}
use mathlib.Core.Path.{subst}
use sr_code.Appserver.Workers.{
  Worker, Manager, Clients, is_idle, stands, choose, pick, put_out, reserve,
}

choose-cases :
    (clients : Clients) (id : String) (w : Worker) (victim : Option (String × Worker))
    → (choose clients id w victim ≡ victim) ⊎ (choose clients id w victim ≡ some (id, w))
unfolding choose
choose-cases clients id w none = elim (Bool-cases (is_idle clients id w)) [
  | inl e ↦ inr (rw (choose, e) refl)
  | inr e ↦ inl (rw (choose, e) refl)
]
choose-cases clients id w (some (victim_id, victim)) =
    elim (Bool-cases (not (is_idle clients id w) || stands clients w victim)) [
      | inl e ↦ inl (rw (choose, e) refl)
      | inr e ↦ inr (rw (choose, e) refl)
    ]

-- One worker of the list.
visit :
    Clients → List (ℕ × Worker) → String → ℕ → Option (String × Worker) → Option (String × Worker)
visit clients heap id at victim = elim (lookup at heap) [
  | none ↦ victim
  | some w ↦ choose clients id w victim
]

visit-cases :
    (clients : Clients) (heap : List (ℕ × Worker)) (id : String) (at : ℕ)
    (victim : Option (String × Worker))
    → (visit clients heap id at victim ≡ victim)
      ⊎ ((w : Worker) × (visit clients heap id at victim ≡ some (id, w)))
unfolding visit
visit-cases clients heap id at victim = elim (Option-cases (lookup at heap)) [
  | inl e ↦ inl (rw (visit, e) refl)
  | inr (w, e) ↦ elim (choose-cases clients id w victim) [
    | inl f ↦ inl (rw (visit, e) f)
    | inr f ↦ inr (w, rw (visit, e) f)
  ]
]

length-remove-head :
    (id : String) (at : ℕ) (m : List (String × ℕ))
    → length (remove id ((id, at) ∷ m)) < length ((id, at) ∷ m)
unfolding remove
length-remove-head id at m = ground (arith, same_refl id, length-remove id m)

length-remove-tail :
    (id j : String) (at : ℕ) (m : List (String × ℕ))
    → length (remove id m) < length m
    → length (remove id ((j, at) ∷ m)) < length ((j, at) ∷ m)
unfolding remove
length-remove-tail id j at m lt = ground (arith, lt)

-- The worker that is picked is one of the map, whose going makes room.
pub pick-makes_room :
    (clients : Clients) (heap : List (ℕ × Worker)) (m : List (String × ℕ))
    (victim : Option (String × Worker)) (id : String) (w : Worker)
    → pick clients heap m victim ≡ some (id, w)
    → (victim ≡ some (id, w)) ⊎ (length (remove id m) < length m)
unfolding pick visit
pick-makes_room clients heap [] victim id w e = inl e
pick-makes_room clients heap ((j, at) ∷ m) victim id w e =
    elim (pick-makes_room clients heap m (visit clients heap j at victim) id w e) [
      | inr lt ↦ inr (length-remove-tail id j at m lt)
      | inl f ↦ elim (visit-cases clients heap j at victim) [
        | inl g ↦ inl (sym g ∙ f)
        | inr (v, g) ↦
            let this : j ≡ id = ground (arith, f, g) in
            inr (
              subst (λ k. length (remove k ((j, at) ∷ m)) < length ((j, at) ∷ m)) this
                (length-remove-head j at m))
      ]
    ]

-- Each entry is what the map has under its id.
abbrev IsIn : List (String × ℕ) → List (String × ℕ) → Type 0
IsIn all [] = Unit
IsIn all ((id, at) ∷ m) = (lookup id all ≡ some at) × IsIn all m

grows-IsIn :
    (k : String) (v : ℕ) (all m : List (String × ℕ))
    → lookup k all ≡ none
    → IsIn all m
    → IsIn ((k, v) ∷ all) m
unfolding lookup
grows-IsIn k v all [] new i = tt
grows-IsIn k v all ((id, at) ∷ m) new (here, i) =
    let other : (k == id) ≡ false = elim (Bool-cases (k == id)) [
      | inr e ↦ e
      | inl e ↦
          let same : k ≡ id = (eq_iff k id).0 e in
          let gone : lookup id all ≡ none = subst (λ j. lookup j all ≡ none) same new in
          absurd (ground (arith, gone, here))
    ] in
    (rw other here, grows-IsIn k v all m new i)

Unique-IsIn : (m : List (String × ℕ)) → Unique m → IsIn m m
unfolding lookup
Unique-IsIn [] u = tt
Unique-IsIn ((id, at) ∷ m) (new, u) =
    (ground (arith, same_refl id), grows-IsIn id at m m new (Unique-IsIn m u))

-- The victim is idle, and the map has it under its id.
IsIdle : Clients → List (ℕ × Worker) → List (String × ℕ) → Option (String × Worker) → Type 0
IsIdle clients heap all none = Unit
IsIdle clients heap all (some (id, w)) =
    (is_idle clients id w ≡ true)
    × ((at : ℕ) × (lookup id all ≡ some at) × (lookup at heap ≡ some w))

choose-IsIdle :
    (clients : Clients) (heap : List (ℕ × Worker)) (all : List (String × ℕ)) (id : String) (at : ℕ)
    (w : Worker) (victim : Option (String × Worker))
    → lookup id all ≡ some at
    → lookup at heap ≡ some w
    → IsIdle clients heap all victim
    → IsIdle clients heap all (choose clients id w victim)
unfolding choose IsIdle
choose-IsIdle clients heap all id at w none here found v =
    elim (Bool-cases (is_idle clients id w)) [
      | inl e ↦ rw (choose, e) (e, (at, here, found))
      | inr e ↦ rw (choose, e) tt
    ]
choose-IsIdle clients heap all id at w (some (victim_id, victim)) here found v =
    elim (Bool-cases (is_idle clients id w)) [
      | inr e ↦ rw (choose, e) v
      | inl e ↦ elim (Bool-cases (stands clients w victim)) [
        | inl f ↦ rw (choose, e, f) v
        | inr f ↦ rw (choose, e, f) (e, (at, here, found))
      ]
    ]

pick-IsIdle :
    (clients : Clients) (heap : List (ℕ × Worker)) (all m : List (String × ℕ))
    (victim : Option (String × Worker))
    → IsIn all m
    → IsIdle clients heap all victim
    → IsIdle clients heap all (pick clients heap m victim)
unfolding pick
pick-IsIdle clients heap all [] victim i v = v
pick-IsIdle clients heap all ((id, at) ∷ m) victim (here, i) v =
    elim (Option-cases (lookup at heap)) [
      | inl e ↦
          subst
            (λ (o : Option Worker). IsIdle clients heap all (
              pick clients heap m (elim o [ none ↦ victim | some w ↦ choose clients id w victim ])))
            (sym e) (pick-IsIdle clients heap all m victim i v)
      | inr (w, e) ↦
          subst
            (λ (o : Option Worker). IsIdle clients heap all (
              pick clients heap m (elim o [ none ↦ victim | some u ↦ choose clients id u victim ])))
            (sym e)
            (pick-IsIdle clients heap all m (choose clients id w victim) i
              (choose-IsIdle clients heap all id at w victim here e v))
    ]

-- For a map of workers without duplicate ids: if a place is made by putting a worker out, all places
-- were taken, and the worker is the one that the map had under an id; it had finished its start, had no
-- turn of the manager and none of its client, and this id is the only one to leave the map.
pub reserve_puts_out_idle :
    (clients : Clients) (m : Manager) (client : ℕ)
    → Unique m.workers
    → (reserve clients m).0 ≡ put_out client
    → (m.max_live ≤ length m.workers + m.starting)
      × ((id : String) × (at : ℕ) × (w : Worker) × (lookup id m.workers ≡ some at)
          × (lookup at m.heap ≡ some w)
          × (w.client ≡ client)
          × (w.ready ≡ none)
          × (w.busy ≡ false)
          × (clients.has_turn client id ≡ false)
          × (((reserve clients m).1).workers ≡ remove id m.workers)
          × (length (remove id m.workers) < length m.workers))
unfolding reserve IsIdle is_idle
reserve_puts_out_idle clients m client unique out =
    elim (Bool-cases (ltb (length m.workers + m.starting) m.max_live)) [
      | inl e ↦ absurd (ground (arith, rw (reserve, e) at out))
      | inr e ↦ elim (Option-cases (pick clients m.heap m.workers none)) [
        | inl f ↦ absurd (ground (arith, rw (reserve, e, f) at out))
        | inr ((id, w), f) ↦
            let its : w.client ≡ client = ground (arith, e, f, out) in
            let (idle, (at, here, found)) : (is_idle clients id w ≡ true)
                × ((at : ℕ) × (lookup id m.workers ≡ some at) × (lookup at m.heap ≡ some w)) =
              subst (IsIdle clients m.heap m.workers) f (
                pick-IsIdle clients m.heap m.workers m.workers none (Unique-IsIn m.workers unique)
                  tt) in
            (
              ground (arith, e),
              (
                id,
                at,
                w,
                here,
                found,
                its,
                elim (Option-cases w.ready) [
                  | inl g ↦ g
                  | inr (c, g) ↦ absurd (ground (arith, g, idle))
                ],
                ground (arith, idle),
                subst (λ c. clients.has_turn c id ≡ false) its (ground (arith, idle)),
                rw (reserve, e, f) refl,
                elim (pick-makes_room clients m.heap m.workers none id w f) [
                  | inl g ↦ absurd (ground (arith, g))
                  | inr lt ↦ lt
                ],
              ),
            )
      ]
    ]

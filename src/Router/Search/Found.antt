-- ===== src/Router/Search/Found.antt =====
-- The place that the search finds is the first.
use sr_code.Prelude.{
  ℕ, zero, suc, ◌+◌, ◌≤◌, ◌<◌, ◌≡◌, refl, sym, ap, ◌↔◌, inl, inr, true, Option, none, some, List,
  [], ◌∷◌, map, arith, leb, nat_eq, nat_eq_iff, nat_has_eq, string_has_eq, same_refl, Bool-cases,
  length, take, drop, length-take, length-drop,
}
use mathlib.Core.Path.{subst}
use sr_code.Router.Search.{fold_equal, fold_equal_at, find_loop, fold_find_all}

-- The text has the needle at a place, letter case aside.
abbrev pub Matches : (ℕ → ℕ) → List ℕ → List ℕ → ℕ → Type 0
Matches lower hay needle at = map lower (take (length needle) (drop at hay)) ≡ map lower needle

head-eq : (x y : ℕ) (xs ys : List ℕ) → x ∷ xs ≡ y ∷ ys → (x ≡ y) × (xs ≡ ys)
head-eq x y xs ys e = (ground (arith, e), ground (arith, e))

fold_equal_iff :
    (lower : ℕ → ℕ) (hay needle : List ℕ)
    → (fold_equal lower hay needle ≡ true)
      ↔ (map lower (take (length needle) hay) ≡ map lower needle)
unfolding fold_equal
fold_equal_iff lower hay [] = (λ e. refl, λ e. refl)
fold_equal_iff lower [] (n ∷ needle) =
    (λ e. absurd (ground (arith, e)), λ e. absurd (ground (arith, e)))
fold_equal_iff lower (h ∷ hay) (n ∷ needle) =
    let (there, back) = fold_equal_iff lower hay needle in
    (
      λ e.
          let same : lower h ≡ lower n = ground (arith, e, nat_eq_iff (lower h) (lower n)) in
          let rest : fold_equal lower hay needle ≡ true =
            ground (arith, e, same_refl (lower n), nat_eq_iff (lower h) (lower n)) in
          rw (same, there rest) refl,
      λ e.
          let (same, rest) =
            head-eq (lower h) (lower n) (map lower (take (length needle) hay)) (map lower needle)
              e in
          ground (arith, back rest, (nat_eq_iff (lower h) (lower n)).1 same),
    )

length-map : (f : ℕ → ℕ) (xs : List ℕ) → length (map f xs) ≡ length xs
length-map f [] = refl
length-map f (x ∷ xs) = rw (length-map f xs) refl

-- Where the loop stops for want of text, nothing matches.
short-Matches :
    (lower : ℕ → ℕ) (hay : List ℕ) (n : ℕ) (needle : List ℕ) (at : ℕ)
    → length hay < at + length (n ∷ needle)
    → Matches lower hay (n ∷ needle) at
    → ⊥
short-Matches lower hay n needle at lt m =
    let same : length (map lower (take (length (n ∷ needle)) (drop at hay)))
        ≡ length (map lower (n ∷ needle)) =
      ap length m in
    absurd (
      ground (
        arith,
        lt,
        same,
        length-map lower (take (length (n ∷ needle)) (drop at hay)),
        length-map lower (n ∷ needle),
        length-take (length (n ∷ needle)) (drop at hay),
        length-drop at hay,
      ))

-- A result from a place on: nowhere, or at the first place that matches.
abbrev IsFirst : (ℕ → ℕ) → List ℕ → List ℕ → ℕ → Option ℕ → Type 0
IsFirst lower hay needle i none = (j : ℕ) → i ≤ j → Matches lower hay needle j → ⊥
IsFirst lower hay needle i (some f) =
    (i ≤ f)
    × Matches lower hay needle f
    × ((j : ℕ) → i ≤ j → j < f → Matches lower hay needle j → ⊥)

find_loop-found :
    (lower : ℕ → ℕ) (hay needle : List ℕ) (fuel i f count : ℕ)
    → (find_loop lower hay needle fuel i (some f) count).0 ≡ some f
unfolding find_loop
find_loop-found lower hay needle zero i f count = refl
find_loop-found lower hay needle (suc fuel) i f count =
    elim (Bool-cases (leb (i + length needle) (length hay))) [
      | inr e ↦ ground (arith, e)
      | inl e ↦ elim (Bool-cases (fold_equal_at lower hay needle i)) [
        | inl g ↦
            ground
              (arith, e, g, find_loop-found lower hay needle fuel (i + length needle) f (count + 1))
        | inr g ↦ ground (arith, e, g, find_loop-found lower hay needle fuel (i + 1) f count)
      ]
    ]

-- Moving on by one from a place that does not match.
next-IsFirst :
    (lower : ℕ → ℕ) (hay needle : List ℕ) (i : ℕ) (r : Option ℕ)
    → (Matches lower hay needle i → ⊥)
    → IsFirst lower hay needle (i + 1) r
    → IsFirst lower hay needle i r
next-IsFirst lower hay needle i none off first = λ j le m. elim (Bool-cases (nat_eq i j)) [
  | inl e ↦ off (subst (Matches lower hay needle) (sym ((nat_eq_iff i j).0 e)) m)
  | inr e ↦ first j (ground (arith, e, le, nat_eq_iff i j)) m
]
next-IsFirst lower hay needle i (some f) off first = (
  omega arith,
  first.1,
  λ j le lt m. elim (Bool-cases (nat_eq i j)) [
    | inl e ↦ off (subst (Matches lower hay needle) (sym ((nat_eq_iff i j).0 e)) m)
    | inr e ↦ first.2 j (ground (arith, e, le, nat_eq_iff i j)) lt m
  ],
)

find_loop-IsFirst :
    (lower : ℕ → ℕ) (hay : List ℕ) (n : ℕ) (needle : List ℕ) (fuel i count : ℕ)
    → length hay < i + fuel
    → IsFirst lower hay (n ∷ needle) i ((find_loop lower hay (n ∷ needle) fuel i none count).0)
unfolding find_loop fold_equal_at
find_loop-IsFirst lower hay n needle zero i count lt =
    λ j le m. short-Matches lower hay n needle j (omega arith) m
find_loop-IsFirst lower hay n needle (suc fuel) i count lt =
    let whole : List ℕ = n ∷ needle in
    let result : Option ℕ = (find_loop lower hay whole (suc fuel) i none count).0 in
    elim (Bool-cases (leb (i + length whole) (length hay))) [
      | inr e ↦
          let stop : none ≡ result = ground (arith, e) in
          subst (IsFirst lower hay whole i) stop
            (λ j le m. short-Matches lower hay n needle j (ground (arith, e, le)) m)
      | inl e ↦ elim (Bool-cases (fold_equal_at lower hay whole i)) [
        | inl g ↦
            let hit : some i ≡ result = ground (
              arith,
              e,
              g,
              find_loop-found lower hay whole fuel (i + length whole) i (count + 1),
            ) in
            subst (IsFirst lower hay whole i) hit (
              omega arith,
              (fold_equal_iff lower (drop i hay) whole).0 g,
              λ j le below. absurd (ground (arith, le, below)),
            )
        | inr g ↦
            let miss : (find_loop lower hay whole fuel (i + 1) none count).0 ≡ result =
              ground (arith, e, g) in
            subst (IsFirst lower hay whole i) miss (
              next-IsFirst lower hay whole i ((find_loop lower hay whole fuel (i + 1) none count).0)
                (λ m. absurd (ground (arith, g, (fold_equal_iff lower (drop i hay) whole).1 m)))
                (find_loop-IsFirst lower hay n needle fuel (i + 1) count (omega arith)))
      ]
    ]

-- For a query that is not empty: if the search finds a place, the text has the query there and at no
-- earlier place, letter case aside; and if it finds none, the text has the query at no place.
pub fold_find_all-finds_first :
    (lower : ℕ → ℕ) (hay : List ℕ) (n : ℕ) (needle : List ℕ)
    → ((f : ℕ)
        → (fold_find_all lower hay (n ∷ needle)).0 ≡ some f
        → Matches lower hay (n ∷ needle) f
          × ((j : ℕ) → j < f → Matches lower hay (n ∷ needle) j → ⊥))
      × ((fold_find_all lower hay (n ∷ needle)).0 ≡ none
          → (j : ℕ) → Matches lower hay (n ∷ needle) j
          → ⊥)
unfolding fold_find_all
fold_find_all-finds_first lower hay n needle =
    let first = find_loop-IsFirst lower hay n needle (length hay + 1) 0 0 (omega arith) in
    (
      λ f e.
          let (le, m, before) = subst (IsFirst lower hay (n ∷ needle) 0) e first in
          (m, λ j lt. before j (omega arith) lt),
      λ e j. (subst (IsFirst lower hay (n ∷ needle) 0) e first) j (omega arith),
    )

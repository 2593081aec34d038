-- ===== src/Imutil/Split.antt =====
-- `SplitMessage`: it ends, every chunk fits, and nothing is lost but newlines at the cuts.
use mathlib.Core.Path.{subst}
use mathlib.Core.List.{append-nil}
use sr_code.Prelude.{
  ℕ, zero, suc, ◌≤◌, ◌<◌, ◌≡◌, refl, sym, ap, ◌∙◌, ◌⊎◌, inl, inr, Option, none, some, List, [], ◌∷◌,
  ◌++◌, arith, leb, nat_eq_iff, length, take, drop, All, length-take, length-drop, take-append-drop,
  Bool-cases, All-map,
}
use sr_code.Prelude.Int.{pos}
use sr_code.Imutil.{
  newline, last_newline_below, last_newline, cut_length, skip_newline, split_loop, split_message,
}

-- The text is the chunks one after another, with at most one newline dropped behind each.
pub data Rejoins : List (List ℕ) → List ℕ → Type 0 where
  done : Rejoins [] []
  glue :
      {c : List ℕ} {cs : List (List ℕ)} {rest text : List ℕ}
      → text ≡ c ++ rest
      → Rejoins cs rest
      → Rejoins (c ∷ cs) text
  glue_newline :
      {c : List ℕ} {cs : List (List ℕ)} {rest text : List ℕ}
      → text ≡ c ++ newline ∷ rest
      → Rejoins cs rest
      → Rejoins (c ∷ cs) text

last_newline_below-lt : (runes : List ℕ) (k i : ℕ) → last_newline_below runes k ≡ some i → i < k
unfolding last_newline_below
last_newline_below-lt runes zero i h = ground arith
last_newline_below-lt runes (suc k) i h = ground (arith, last_newline_below-lt runes k i)

-- A chunk is never empty and never longer than the limit.
cut_length_bounds :
    (max : ℕ) (runes : List ℕ)
    → 0 < max
    → 0 < length runes
    → (0 < cut_length max runes)
      × (cut_length max runes ≤ max)
      × (cut_length max runes ≤ length runes)
unfolding cut_length
cut_length_bounds max runes h l =
    ground (arith, length-take max runes, below (last_newline (take max runes)) refl)
  where
    below :
        (o : Option ℕ)
        → last_newline (take max runes) ≡ o
        → (o ≡ none) ⊎ ((i : ℕ) × (o ≡ some i) × (i < length (take max runes)))
    below none e = inl refl
    below (some i) e =
        inr (i, refl, last_newline_below-lt (take max runes) (length (take max runes)) i e)

skip_newline_cases :
    (runes : List ℕ) → (skip_newline runes ≡ runes) ⊎ (runes ≡ newline ∷ skip_newline runes)
unfolding skip_newline
skip_newline_cases [] = inl refl
skip_newline_cases (r ∷ rs) = ground (arith, nat_eq_iff r newline)

length-skip_newline-le : (runes : List ℕ) → length (skip_newline runes) ≤ length runes
unfolding skip_newline
length-skip_newline-le [] = omega arith
length-skip_newline-le (r ∷ rs) = ground arith

-- The loop ends with the fuel that `split_message` gives it.
split_loop_total :
    (fuel max : ℕ) (runes : List ℕ)
    → 0 < max
    → length runes ≤ fuel
    → (chunks : List (List ℕ)) × (split_loop fuel max runes ≡ some chunks)
      × All (λ c. (0 < length c) × (length c ≤ max)) chunks
      × Rejoins chunks runes
unfolding split_loop
split_loop_total fuel max [] h l = ([], refl, tt, done)
split_loop_total zero max (r ∷ rs) h l = absurd (omega arith)
split_loop_total (suc fuel) max (r ∷ rs) h l =
    let runes : List ℕ = r ∷ rs in
    let n : ℕ = cut_length max runes in
    let rest : List ℕ = drop n runes in
    let (above, limit, inside) = cut_length_bounds max runes h (omega arith) in
    let shorter : length (skip_newline rest) ≤ fuel =
      omega (arith, length-skip_newline-le rest, length-drop n runes) in
    let (chunks, e, fits, joins) = split_loop_total fuel max (skip_newline rest) h shorter in
    let size : length (take n runes) ≡ n = omega (arith, length-take n runes) in
    let whole : runes ≡ take n runes ++ rest = sym (take-append-drop n runes) in
    (
      take n runes ∷ chunks,
      rw e,
      ((omega arith, omega arith), fits),
      elim (skip_newline_cases rest) [
        | inl same ↦ glue whole (subst (λ t. Rejoins chunks t) same joins)
        | inr cut ↦ glue_newline (whole ∙ ap (λ t. take n runes ++ t) cut) joins
      ],
    )

-- For a positive limit the cutting ends; every chunk has at most `max` runes; the chunks, put one
-- after another with at most one newline back at each cut, are the text; and either the text stands
-- in one chunk or no chunk is empty.
pub split_message-Rejoins :
    (text : List ℕ) (max : ℕ)
    → 0 < max
    → (chunks : List (List ℕ)) × (split_message text (pos max) ≡ some chunks)
      × All (λ c. length c ≤ max) chunks
      × Rejoins chunks text
      × ((chunks ≡ text ∷ []) ⊎ All (λ c. 0 < length c) chunks)
unfolding split_message
split_message-Rejoins text zero h = absurd (omega arith)
split_message-Rejoins text (suc m) h = elim (Bool-cases (leb (length text) (suc m))) [
  | inl short ↦
      (text ∷ [], rw short, (ground arith, tt), glue (sym (append-nil text)) done, inl refl)
  | inr long ↦ rw long (
      let (chunks, e, fits, joins) = split_loop_total (length text) (suc m) text h (omega arith) in
      (chunks, e, All-map (λ c p. p.1) chunks fits, joins, inr (All-map (λ c p. p.0) chunks fits)))
]

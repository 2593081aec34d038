-- ===== src/Router/Search/Pages.antt =====
-- Pages are cut without a gap.
use sr_code.Prelude.{
  ℕ, zero, suc, ◌+◌, ◌-◌, ◌≤◌, ◌<◌, ◌≡◌, refl, sym, ap, List, [], ◌∷◌, ◌++◌, arith, nat_has_eq,
  string_has_eq, length, take, drop,
}
use sr_code.Prelude.Int.{pos}
use mathlib.Core.Path.{subst}
use sr_code.Prelude.Int.{pos}
use sr_code.Router.Search.{page_size, at_most, page_bounds, page}

drop-all {ℓ} : {A : Type ℓ} (n : ℕ) (xs : List A) → length xs ≤ n → drop n xs ≡ []
drop-all zero [] le = refl
drop-all zero (x ∷ xs) le = absurd (ground (arith, le))
drop-all (suc n) [] le = refl
drop-all (suc n) (x ∷ xs) le = drop-all n xs (omega arith)

take-take-drop {ℓ} :
    {A : Type ℓ} (n k m : ℕ) (xs : List A) → m ≡ n + k → take n xs ++ take k (drop n xs) ≡ take m xs
take-take-drop zero k m xs e = let same : k ≡ m = omega arith in ap (λ j. take j xs) same
take-take-drop (suc n) zero zero [] e = refl
take-take-drop (suc n) (suc k) zero [] e = refl
take-take-drop (suc n) zero (suc m) [] e = refl
take-take-drop (suc n) (suc k) (suc m) [] e = refl
take-take-drop (suc n) k zero (x ∷ xs) e = absurd (ground (arith, e))
take-take-drop (suc n) k (suc m) (x ∷ xs) e = rw (take-take-drop n k m xs (omega arith)) refl

page_size-is : (limit : ℕ) → 0 < limit → page_size (pos limit) ≡ limit
page_size-is zero lt = absurd (ground (arith, lt))
page_size-is (suc n) lt = refl

-- For an offset that is not behind the end and a limit that is not negative: the page begins at its
-- offset; it ends as many turns later as the limit says, or one later if the limit is zero, but not
-- behind the last turn; and the turns before it, followed by the page, are the turns before the page's
-- end.
pub page-continues {ℓ} :
    {A : Type ℓ} (n limit : ℕ) (turns : List A)
    → n ≤ length turns
    → ((page_bounds (pos n) (pos limit) (length turns)).0 ≡ n)
      × (0 < limit
          → n + limit ≤ length turns
          → (page_bounds (pos n) (pos limit) (length turns)).1 ≡ n + limit)
      × (0 < limit
          → length turns ≤ n + limit
          → (page_bounds (pos n) (pos limit) (length turns)).1 ≡ length turns)
      × (limit ≡ 0 → n < length turns → (page_bounds (pos n) (pos limit) (length turns)).1 ≡ n + 1)
      × (limit ≡ 0 → n ≡ length turns → (page_bounds (pos n) (pos limit) (length turns)).1 ≡ n)
      × (take n turns ++ page (pos n) (pos limit) turns
          ≡ take ((page_bounds (pos n) (pos limit) (length turns)).1) turns)
unfolding page_bounds page
page-continues n limit turns le =
    let size : ℕ = page_size (pos limit) in
    let start : at_most (length turns) n ≡ n = ground (arith, le) in
    let end : ℕ = at_most (length turns) (at_most (length turns) n + size) in
    let after : n ≤ end = ground (arith, le, start) in
    let one : limit ≡ 0 → size ≡ 1 = λ e. subst (λ l. page_size (pos l) ≡ 1) (sym e) refl in
    (
      start,
      λ lt fits.
          let same : size ≡ limit = page_size-is limit lt in ground (arith, start, same, fits),
      λ lt over.
          let same : size ≡ limit = page_size-is limit lt in ground (arith, start, same, over),
      λ e lt. let same : size ≡ 1 = one e in ground (arith, start, same, lt),
      λ e there. let same : size ≡ 1 = one e in ground (arith, start, same, there),
      subst (λ s. take n turns ++ take (end - s) (drop s turns) ≡ take end turns) (sym start)
          (take-take-drop n (end - n) end turns (omega arith)),
    )

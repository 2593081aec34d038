-- ===== src/Router/Search.antt =====
-- internal/router/router.go: pages of a transcript, and the search in it. Texts are lists of runes;
-- unicode.ToLower is an argument.
mod Pages
mod Found
mod Examples
use sr_code.Prelude.{
  ℕ, zero, suc, ◌+◌, ◌-◌, Bool, true, false, not, Option, none, some, List, [], ◌∷◌, ◌++◌, map, ltb,
  leb, nat_eq, if◌then◌else◌, length, take, drop,
}
use sr_code.Prelude.Int.{ℤ, pos, negsuc}
use mathlib.Core.Option
use sr_code.Prelude.Int.{ℤ, pos, negsuc}

-- Numbers far below 2^63, as the callers see to.
abbrev pub page_size : ℤ → ℕ
page_size (pos zero) = 1
page_size (pos (suc n)) = suc n
page_size (negsuc n) = 1

-- `start` before it is clamped to the end.
abbrev pub page_start : ℤ → ℕ → ℕ → ℕ
page_start (pos n) size total = n
page_start (negsuc n) size total = total - size

abbrev pub at_most : ℕ → ℕ → ℕ
at_most limit n = if ltb limit n then limit else n

unfoldable pub page_bounds : ℤ → ℤ → ℕ → ℕ × ℕ
page_bounds offset limit total =
    let size = page_size limit in
    let start = at_most total (page_start offset size total) in
    (start, at_most total (start + size))

-- The turns of a page of `ReadSessionTranscriptPage`.
unfoldable pub page {ℓ} : {A : Type ℓ} → ℤ → ℤ → List A → List A
unfolding page_bounds
page offset limit turns =
    let (start, end) = page_bounds offset limit (length turns) in
    take (end - start) (drop start turns)

-- `foldEqualAt` at the head of a text that is long enough
pub fold_equal : (ℕ → ℕ) → List ℕ → List ℕ → Bool
fold_equal lower hay [] = true
fold_equal lower [] (n ∷ needle) = false
fold_equal lower (h ∷ hay) (n ∷ needle) =
    let rest = fold_equal lower hay needle in
    if not (nat_eq (lower h) (lower n)) then false else rest

unfoldable pub fold_equal_at : (ℕ → ℕ) → List ℕ → List ℕ → ℕ → Bool
unfolding fold_equal
fold_equal_at lower hay needle at = fold_equal lower (drop at hay) needle

abbrev pub first_of : Option ℕ → ℕ → Option ℕ
first_of none i = some i
first_of (some f) i = some f

-- The loop of `foldFindAll`; each turn of it moves on by one rune at least.
unfoldable pub find_loop : (ℕ → ℕ) → List ℕ → List ℕ → ℕ → ℕ → Option ℕ → ℕ → Option ℕ × ℕ
unfolding fold_equal_at
find_loop lower hay needle zero i first count = (first, count)
find_loop lower hay needle (suc fuel) i first count =
    let hit = find_loop lower hay needle fuel (i + length needle) (first_of first i) (count + 1) in
    let miss = find_loop lower hay needle fuel (i + 1) first count in
    if not (leb (i + length needle) (length hay))
    then (first, count)
    else if fold_equal_at lower hay needle i
    then hit
    else miss

unfoldable pub fold_find_all : (ℕ → ℕ) → List ℕ → List ℕ → Option ℕ × ℕ
unfolding find_loop
fold_find_all lower hay [] = (none, 0)
fold_find_all lower hay (n ∷ needle) = find_loop lower hay (n ∷ needle) (length hay + 1) 0 none 0

abbrev pub context : ℤ → ℕ
context (pos n) = n
context (negsuc n) = 0

abbrev pub ellipsis : ℕ
ellipsis = 8230

abbrev pub one_line : List ℕ → List ℕ
one_line text = map (λ c. if nat_eq c 10 then 32 else c) text

unfoldable pub snippet_around : List ℕ → ℕ → ℕ → ℤ → List ℕ
snippet_around text start match_len ctx =
    let lo = start - context ctx in
    let hi = at_most (length text) (start + match_len + context ctx) in
    let snip = one_line (take (hi - lo) (drop lo text)) in
    let before = if ltb 0 lo then ellipsis ∷ snip else snip in
    if ltb hi (length text) then before ++ ellipsis ∷ [] else before

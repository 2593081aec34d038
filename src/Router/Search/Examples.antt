-- ===== src/Router/Search/Examples.antt =====
-- The letters A and a (65 and 97) are the same to the search.
use sr_code.Prelude.{
  ℕ, ◌+◌, ◌≤◌, ◌<◌, ◌≡◌, refl, ◌&&◌, none, some, List, [], ◌∷◌, ◌++◌, arith, leb, nat_has_eq,
  string_has_eq, if◌then◌else◌, length, take,
}
use sr_code.Prelude.Int.{pos, negsuc}
use sr_code.Prelude.Int.{pos, negsuc}
use sr_code.Router.Search.{
  page_bounds, page, fold_equal, fold_equal_at, find_loop, fold_find_all, snippet_around,
}
use sr_code.Router.Search.Pages.{page-continues}
use sr_code.Router.Search.Found.{Matches, fold_find_all-finds_first}

abbrev lower_ascii : ℕ → ℕ
lower_ascii c = if leb 65 c && leb c 90 then c + 32 else c

abbrev text : List ℕ
text = 120 ∷ 97 ∷ 65 ∷ 97 ∷ 98 ∷ 65 ∷ 98 ∷ []

abbrev query : List ℕ
query = 97 ∷ 66 ∷ []

found : fold_find_all lower_ascii text query ≡ (some 3, 2)
unfolding fold_find_all find_loop fold_equal_at fold_equal
found = refl

snippet : snippet_around text 3 2 (pos 1) ≡ 8230 ∷ 65 ∷ 97 ∷ 98 ∷ 65 ∷ 8230 ∷ []
unfolding snippet_around
snippet = refl

last_page : page (negsuc 0) (pos 3) text ≡ 98 ∷ 65 ∷ 98 ∷ []
unfolding page page_bounds
last_page = refl

fold_find_all-finds_first_example :
    ((f : ℕ)
      → (fold_find_all lower_ascii text query).0 ≡ some f
      → Matches lower_ascii text query f × ((j : ℕ) → j < f → Matches lower_ascii text query j → ⊥))
    × ((fold_find_all lower_ascii text query).0 ≡ none
        → (j : ℕ) → Matches lower_ascii text query j
        → ⊥)
fold_find_all-finds_first_example = fold_find_all-finds_first lower_ascii text 97 (66 ∷ [])

abbrev two : ℕ
two = 2

abbrev three : ℕ
three = 3

page-continues_example :
    ((page_bounds (pos 2) (pos three) (length text)).0 ≡ 2)
    × (0 < three
        → 2 + three ≤ length text
        → (page_bounds (pos 2) (pos three) (length text)).1 ≡ 2 + three)
    × (0 < three
        → length text ≤ 2 + three
        → (page_bounds (pos 2) (pos three) (length text)).1 ≡ length text)
    × (three ≡ 0 → 2 < length text → (page_bounds (pos 2) (pos three) (length text)).1 ≡ 2 + 1)
    × (three ≡ 0 → two ≡ length text → (page_bounds (pos 2) (pos three) (length text)).1 ≡ 2)
    × (take 2 text ++ page (pos 2) (pos three) text
        ≡ take ((page_bounds (pos 2) (pos three) (length text)).1) text)
page-continues_example = page-continues 2 three text (omega arith)

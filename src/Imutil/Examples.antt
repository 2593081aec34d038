-- ===== src/Imutil/Examples.antt =====
-- `SplitMessage` at small inputs.
use sr_code.Prelude.{
  ℕ, ◌≤◌, ◌<◌, ◌≡◌, refl, ◌⊎◌, some, List, [], ◌∷◌, arith, nat_has_eq, string_has_eq, length, All,
}
use sr_code.Prelude.Int.{pos, negsuc}
use sr_code.Imutil.{split_message, newline}
use sr_code.Imutil.Split.{Rejoins, split_message-Rejoins}

-- "ab\ncd\nef", cut at 5: at the second newline, which is dropped
abbrev two_lines : List ℕ
two_lines = 97 ∷ 98 ∷ newline ∷ 99 ∷ 100 ∷ newline ∷ 101 ∷ 102 ∷ []

splits_at_newline :
    split_message two_lines (pos 6)
    ≡ some ((97 ∷ 98 ∷ newline ∷ 99 ∷ 100 ∷ []) ∷ (101 ∷ 102 ∷ []) ∷ [])
unfolding split_message
splits_at_newline = refl

whole_if_negative : split_message two_lines (negsuc 0) ≡ some (two_lines ∷ [])
unfolding split_message
whole_if_negative = refl

split_message-Rejoins_example :
    (chunks : List (List ℕ)) × (split_message two_lines (pos 6) ≡ some chunks)
    × All (λ c. length c ≤ 6) chunks
    × Rejoins chunks two_lines
    × ((chunks ≡ two_lines ∷ []) ⊎ All (λ c. 0 < length c) chunks)
split_message-Rejoins_example = split_message-Rejoins two_lines 6 (omega arith)

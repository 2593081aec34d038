-- ===== src/Imutil.antt =====
-- internal/imutil/imutil.go: cutting a text into messages of bounded length. A text is the list of
-- its runes, as after `[]rune(text)`.
mod Split
mod Examples
use sr_code.Prelude.{
  ℕ, zero, suc, ◌/◌, Option, none, some, List, [], ◌∷◌, ltb, leb, nat_eq, if◌then◌else◌, length,
  take, drop, get_elem?,
}
use sr_code.Prelude.Int.{ℤ, pos, negsuc}
use mathlib.Core.Option

-- the rune '\n'
abbrev newline : ℕ
newline = 10

rune_at : List ℕ → ℕ → ℕ
rune_at runes i = Option.get_or (get_elem? runes i) 0

-- The loop of `lastNewline` with `k = i + 1` rounds left; `none` is -1.
last_newline_below : List ℕ → ℕ → Option ℕ
unfolding rune_at
last_newline_below runes zero = none
last_newline_below runes (suc i) =
    let rest = last_newline_below runes i in
    if nat_eq (rune_at runes i) newline then some i else rest

last_newline : List ℕ → Option ℕ
unfolding last_newline_below
last_newline runes = last_newline_below runes (length runes)

-- How many runes the next chunk takes.
cut_length : ℕ → List ℕ → ℕ
unfolding last_newline
cut_length max runes =
    if ltb (length runes) max then length runes else elim (last_newline (take max runes)) [
      | none ↦ max
      | some idx ↦ if ltb (max / 2) idx then idx else max
    ]

skip_newline : List ℕ → List ℕ
skip_newline [] = []
skip_newline (r ∷ rs) = if nat_eq r newline then rs else r ∷ rs

-- The loop `for len(runes) > 0`; `none` means that the fuel ran out.
split_loop : ℕ → ℕ → List ℕ → Option (List (List ℕ))
unfolding cut_length skip_newline
split_loop fuel max [] = some []
split_loop zero max (r ∷ rs) = none
split_loop (suc fuel) max (r ∷ rs) =
    let n = cut_length max (r ∷ rs) in
    Option.map (λ chunks. take n (r ∷ rs) ∷ chunks)
      (split_loop fuel max (skip_newline (drop n (r ∷ rs))))

-- A limit that is not positive leaves the text whole.
pub split_message : List ℕ → ℤ → Option (List (List ℕ))
unfolding split_loop
split_message text (negsuc _) = some (text ∷ [])
split_message text (pos zero) = some (text ∷ [])
split_message text (pos (suc m)) =
    if leb (length text) (suc m) then some (text ∷ []) else split_loop (length text) (suc m) text

-- Caps a text at `max` runes.
pub truncate : List ℕ → ℕ → List ℕ
truncate r max = if leb (length r) max then r else take max r

-- The first eight characters of a session id.
pub short_id : List ℕ → List ℕ
short_id id = if ltb 8 (length id) then take 8 id else id

-- ===== src/Prelude/Strings.antt =====
-- What the sources use of Go's packages strings and strconv.
use Prim.Native.Nat.{ℕ, zero, suc, ◌+◌, ◌-◌, ◌*◌}
use Prim.Native.String
use Prim.Native.String.append
use Prim.Native.String.{String}
use Prim.Native.Char.{Char, code}
use mathlib.Core.Path.{◌≡◌, refl}
use mathlib.Core.Bool.{Bool, false, not, ◌&&◌, ◌||◌}
use mathlib.Core.Option.{Option, none, some}
use sr_code.Prelude.Tests.{◌==◌, if◌then◌else◌, leb, nat_eq, nat_has_eq, string_has_eq, same_refl}
use sr_code.Prelude.Int.{ℤ, pos, negsuc}

-- `strings.Cut`, at the character of a code
unfoldable pub cut : ℕ → String → Option (String × String)
cut at String.[] = none
cut at (String.◌∷◌ c s) =
    let rest = cut at s in
    if nat_eq (code c) at
    then some (String.[], s)
    else elim rest [ none ↦ none | some (before, after) ↦ some (String.◌∷◌ c before, after) ]

-- `unicode.IsSpace`
pub is_space : ℕ → Bool
is_space c =
    (leb 9 c && leb c 13)
    || nat_eq c 32
    || nat_eq c 133
    || nat_eq c 160
    || nat_eq c 5760
    || (leb 8192 c && leb c 8202)
    || nat_eq c 8232
    || nat_eq c 8233
    || nat_eq c 8239
    || nat_eq c 8287
    || nat_eq c 12288

pub trim_left : String → String
unfolding is_space
trim_left String.[] = String.[]
trim_left (String.◌∷◌ c s) =
    let rest = trim_left s in if is_space (code c) then rest else String.◌∷◌ c s

pub trim_right : String → String
unfolding is_space
trim_right String.[] = String.[]
trim_right (String.◌∷◌ c s) =
    let rest = trim_right s in
    if is_space (code c) && (rest == String.[]) then rest else String.◌∷◌ c rest

-- `strings.TrimSpace`
unfoldable pub trim_space : String → String
unfolding trim_left trim_right
trim_space s = trim_right (trim_left s)

unfoldable pub digits : String → ℕ → Option ℕ
digits String.[] n = some n
digits (String.◌∷◌ c s) n =
    let rest = digits s (n * 10 + (code c - 48)) in
    if leb 48 (code c) && leb (code c) 57 then rest else none

abbrev pub negated : Option ℕ → Option ℤ
negated none = none
negated (some zero) = some (pos zero)
negated (some (suc n)) = some (negsuc n)

abbrev pub plain : Option ℕ → Option ℤ
plain none = none
plain (some n) = some (pos n)

-- `strconv.Atoi`, of numbers of any size
unfoldable pub atoi : String → Option ℤ
unfolding digits
atoi String.[] = none
atoi (String.◌∷◌ c s) =
    if nat_eq (code c) 45 && not (s == String.[])
    then negated (digits s 0)
    else if nat_eq (code c) 43 && not (s == String.[])
    then plain (digits s 0)
    else plain (digits (String.◌∷◌ c s) 0)

-- Two parts with the character between are cut there again, if the first part is free of it.
abbrev pub IsFree : ℕ → String → Type 0
IsFree at String.[] = Unit
IsFree at (String.◌∷◌ c s) = (nat_eq (code c) at ≡ false) × IsFree at s

pub cut-append :
    (before : String) (at : Char) (after : String)
    → IsFree (code at) before
    → cut (code at) (String.◌++◌ before (String.◌∷◌ at after)) ≡ some (before, after)
unfolding cut
cut-append String.[] at after free =
    rw (append.nil (String.◌∷◌ at after)) (rw (same_refl (code at)) refl)
cut-append (String.◌∷◌ c s) at after free =
    rw (append.cons c s (String.◌∷◌ at after)) (rw (cut-append s at after free.1) (rw free.0 refl))

-- ===== src/Router/Foreign/Regions.antt =====
-- Regions of a log that only grows.
use sr_code.Prelude.{
  ℕ, zero, suc, ◌-◌, ◌≤◌, ◌≡◌, refl, Bool, false, List, [], ◌∷◌, ◌++◌, arith, nat_has_eq,
  string_has_eq, length, take, drop, All, length-drop,
}
use sr_code.Router.Foreign.{region, mark}

-- The marked bytes are foreign.
abbrev pub AllForeign : List (ℕ × Bool) → Type 0
AllForeign = All (λ b. b.1 ≡ false)

pub append-AllForeign :
    (xs ys : List (ℕ × Bool)) → AllForeign xs → AllForeign ys → AllForeign (xs ++ ys)
append-AllForeign [] ys f g = g
append-AllForeign (x ∷ xs) ys f g = (f.0, append-AllForeign xs ys f.1 g)

take-AllForeign : (n : ℕ) (xs : List (ℕ × Bool)) → AllForeign xs → AllForeign (take n xs)
take-AllForeign zero xs f = tt
take-AllForeign (suc n) [] f = tt
take-AllForeign (suc n) (x ∷ xs) f = (f.0, take-AllForeign n xs f.1)

pub mark-AllForeign : (bytes : List ℕ) → AllForeign (mark false bytes)
mark-AllForeign [] = tt
mark-AllForeign (b ∷ bytes) = (refl, mark-AllForeign bytes)

pub drop-append :
    (n : ℕ) (xs ys : List (ℕ × Bool)) → n ≤ length xs → drop n (xs ++ ys) ≡ drop n xs ++ ys
drop-append zero xs ys le = refl
drop-append (suc n) [] ys le = absurd (ground (arith, le))
drop-append (suc n) (x ∷ xs) ys le = drop-append n xs ys (omega arith)

take-append : (n : ℕ) (xs ys : List (ℕ × Bool)) → n ≤ length xs → take n (xs ++ ys) ≡ take n xs
take-append zero xs ys le = refl
take-append (suc n) [] ys le = absurd (ground (arith, le))
take-append (suc n) (x ∷ xs) ys le = rw (take-append n xs ys (omega arith)) refl

pub drop-length : (xs : List (ℕ × Bool)) → drop (length xs) xs ≡ []
drop-length [] = refl
drop-length (x ∷ xs) = drop-length xs

drop-AllForeign : (m : ℕ) (xs : List (ℕ × Bool)) → AllForeign xs → AllForeign (drop m xs)
drop-AllForeign zero xs f = f
drop-AllForeign (suc m) [] f = tt
drop-AllForeign (suc m) (x ∷ xs) f = drop-AllForeign m xs f.1

-- From a later place on, there are only fewer bytes.
pub later-AllForeign :
    (n m : ℕ) (xs : List (ℕ × Bool)) → n ≤ m → AllForeign (drop n xs) → AllForeign (drop m xs)
later-AllForeign zero m xs le f = drop-AllForeign m xs f
later-AllForeign (suc n) zero xs le f = absurd (ground (arith, le))
later-AllForeign (suc n) (suc m) [] le f = tt
later-AllForeign (suc n) (suc m) (x ∷ xs) le f = later-AllForeign n m xs (omega arith) f

pub region-AllForeign :
    (base size : ℕ) (log : List (ℕ × Bool))
    → AllForeign (drop base log)
    → AllForeign (region base size log)
unfolding region
region-AllForeign base size log f = take-AllForeign (size - base) (drop base log) f

-- What is appended changes no region that was there.
pub region-append :
    (base size : ℕ) (log more : List (ℕ × Bool))
    → base ≤ size
    → size ≤ length log
    → region base size (log ++ more) ≡ region base size log
unfolding region
region-append base size log more le le' =
    rw (drop-append base log more (omega arith))
      (take-append (size - base) (drop base log) more (rw (length-drop base log) (omega arith)))

-- ===== src/Prelude/Dict.antt =====
-- A Go map as an association list: the order of the list is the order in which a `range` loop
-- happens to visit the entries, so what holds for every list holds for every visiting order.
use mathlib.Core.Path.{◌≡◌, refl}
use mathlib.Core.Bool.{Bool}
use mathlib.Core.List.{List, [], ◌∷◌}
use mathlib.Core.Option.{Option, none, some}
use native.Mathlib.Omega.{arith}
use sr_code.Prelude.Tests.{MapKey, ◌==◌, if◌then◌else◌, Bool-cases}
use Prim.Native.Nat.{◌≤◌}
use sr_code.Prelude.Lists.{length, All}
use mathlib.Core.Logic.{inl, inr}

module _ {ℓ κ} {K : Type ℓ} {V : Type κ} ⦃e : MapKey K⦄ where
  unfoldable pub lookup : K → List (K × V) → Option V
  lookup key [] = none
  lookup key ((this, value) ∷ rest) = if this == key then some value else lookup key rest

  unfoldable pub insert : K → V → List (K × V) → List (K × V)
  insert key new [] = (key, new) ∷ []
  insert key new ((this, old) ∷ rest) =
      if this == key then (key, new) ∷ rest else (this, old) ∷ insert key new rest

  -- every entry of the key goes, so that no order of the entries can bring one back
  unfoldable pub remove : K → List (K × V) → List (K × V)
  remove k [] = []
  remove k ((j, w) ∷ m) = let rest = remove k m in if j == k then rest else (j, w) ∷ rest

  pub lookup-insert :
      (k other : K) (new : V) (m : List (K × V))
      → lookup other (insert k new m) ≡ (if k == other then some new else lookup other m)
  unfolding lookup insert
  lookup-insert k other new [] = refl
  lookup-insert k other new ((first, old) ∷ m) = ground (
    arith,
    e.same_iff k other,
    e.same_iff first k,
    e.same_iff first other,
    lookup-insert k other new m,
  )

  pub lookup-remove :
      (k j : K) (m : List (K × V)) → lookup j (remove k m) ≡ (if k == j then none else lookup j m)
  unfolding lookup remove
  lookup-remove k j [] = ground arith
  lookup-remove k j ((i, w) ∷ m) =
      ground (arith, e.same_iff k j, e.same_iff i k, e.same_iff i j, lookup-remove k j m)

  pub length-remove : (k : K) (m : List (K × V)) → length (remove k m) ≤ length m
  unfolding remove
  length-remove k [] = omega arith
  length-remove k ((i, w) ∷ m) = ground (arith, length-remove k m)

abbrev pub kept {κ} : {V : Type κ} → (V → Bool) → Option V → Option V
kept keep none = none
kept keep (some v) = if keep v then some v else none

-- No key stands twice, as in every map that is built by `insert` and `remove`.
module _ {ℓ κ} {K : Type ℓ} {V : Type κ} ⦃e : MapKey K⦄ where
  abbrev pub Unique : List (K × V) → Type κ
  Unique [] = Unit
  Unique ((k, v) ∷ m) = (lookup k m ≡ none) × Unique m

  pub insert-Unique : (k : K) (v : V) (m : List (K × V)) → Unique m → Unique (insert k v m)
  unfolding lookup insert
  insert-Unique k v [] u = (refl, tt)
  insert-Unique k v ((j, w) ∷ m) u =
      ground (arith, insert-Unique k v m u.1, e.same_iff j k, e.same_iff k j, lookup-insert k j v m)

  pub remove-Unique : (k : K) (m : List (K × V)) → Unique m → Unique (remove k m)
  unfolding lookup remove
  remove-Unique k [] u = tt
  remove-Unique k ((j, w) ∷ m) u = ground (arith, remove-Unique k m u.1, lookup-remove k j m)

  -- A loop that deletes the entries for which the test fails.
  unfoldable pub retain : (V → Bool) → List (K × V) → List (K × V)
  retain keep [] = []
  retain keep ((k, v) ∷ m) = let rest = retain keep m in if keep v then (k, v) ∷ rest else rest

  pub lookup-retain :
      (keep : V → Bool) (k : K) (m : List (K × V))
      → Unique m
      → lookup k (retain keep m) ≡ kept keep (lookup k m)
  unfolding lookup retain
  lookup-retain keep k [] u = refl
  lookup-retain keep k ((j, w) ∷ m) u = ground (arith, lookup-retain keep k m u.1, e.same_iff j k)

  pub retain-Unique : (keep : V → Bool) (m : List (K × V)) → Unique m → Unique (retain keep m)
  unfolding retain
  retain-Unique keep [] u = tt
  retain-Unique keep ((j, w) ∷ m) u =
      ground (arith, retain-Unique keep m u.1, lookup-retain keep j m u.1)

module _ {ℓ κ μ} {K : Type ℓ} {V : Type κ} ⦃e : MapKey K⦄ where
  pub All-insert :
      (P : K × V → Type μ) (k : K) (v : V) (m : List (K × V))
      → P (k, v)
      → All P m
      → All P (insert k v m)
  unfolding insert
  All-insert P k v [] p a = (p, tt)
  All-insert P k v ((j, w) ∷ m) p a = elim (Bool-cases (j == k)) [
    | inl same ↦ rw same (p, a.1)
    | inr different ↦ rw different (a.0, All-insert P k v m p a.1)
  ]

  pub All-remove : (P : K × V → Type μ) (k : K) (m : List (K × V)) → All P m → All P (remove k m)
  unfolding remove
  All-remove P k [] a = tt
  All-remove P k ((j, w) ∷ m) a = elim (Bool-cases (j == k)) [
    | inl same ↦ rw same (All-remove P k m a.1)
    | inr different ↦ rw different (a.0, All-remove P k m a.1)
  ]

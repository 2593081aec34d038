-- ===== src/Jsonl/Cards.antt =====
-- The cards of calls that wait for their results.
use sr_code.Prelude.{
  ℕ, zero, suc, String, ◌≡◌, refl, sym, ap, ◌∙◌, ◌≢◌, inl, inr, not, ◌||◌, Option, none, some, List,
  [], ◌∷◌, ◌++◌, arith, eq_iff, ◌==◌, nat_has_eq, string_has_eq, Bool-cases, Option-cases, length,
  get_elem?, set,
}
use sr_code.Prelude.Dict.{lookup, insert, remove, lookup-insert, lookup-remove}
use mathlib.Core.Option
use mathlib.Core.Path.{subst}
use sr_code.Jsonl.{Block, TurnPart, Turn, ToolInfo, info_of}
use sr_code.Jsonl.Assembler.{Assembler, tool_part, append_text, place_cards}
use sr_code.Jsonl.{str_append}

-- Each place in `pending` is the place of a tool part of that call.
unfoldable pub HasCards : List TurnPart → List (String × ℕ) → Type 0
HasCards ps pending =
    (id : String) (i : ℕ)
    → lookup id pending ≡ some i
    → (p : TurnPart) × ((get_elem? ps i ≡ some p) × ((p.kind ≡ "tool") × (p.tool_use_id ≡ id)))

abbrev pub parts_of : Option Turn → List TurnPart
parts_of none = []
parts_of (some t) = t.parts

pub record IsSound (a : Assembler) : Type 0 where
  pub cards : HasCards (parts_of a.cur) a.pending_tool

-- Every part stays where it is, of the same kind and of the same call.
pub Keeps : List TurnPart → List TurnPart → Type 0
Keeps ps qs =
    (i : ℕ) (p : TurnPart)
    → get_elem? ps i ≡ some p
    → (q : TurnPart) × ((get_elem? qs i ≡ some q)
        × ((q.kind ≡ p.kind) × (q.tool_use_id ≡ p.tool_use_id)))

pub HasCards-Keeps :
    (ps qs : List TurnPart) (m : List (String × ℕ)) → Keeps ps qs → HasCards ps m → HasCards qs m
unfolding HasCards Keeps
HasCards-Keeps ps qs m keeps cards id i e =
    let (p, (at, (kind, mine))) = cards id i e in
    let (q, (at', (kind', mine'))) = keeps i p at in (q, (at', (kind' ∙ kind, mine' ∙ mine)))

get_elem?-append :
    {A : Type 0} (xs ys : List A) (i : ℕ) (x : A)
    → get_elem? xs i ≡ some x
    → get_elem? (xs ++ ys) i ≡ some x
get_elem?-append [] ys i x e = ground (arith, e)
get_elem?-append (y ∷ xs) ys zero x e = e
get_elem?-append (y ∷ xs) ys (suc i) x e = get_elem?-append xs ys i x e

get_elem?-append_end :
    {A : Type 0} (xs ys : List A) (y : A) → get_elem? (xs ++ y ∷ ys) (length xs) ≡ some y
get_elem?-append_end [] ys y = refl
get_elem?-append_end (x ∷ xs) ys y = get_elem?-append_end xs ys y

pub append-Keeps : (ps qs : List TurnPart) → Keeps ps (ps ++ qs)
unfolding Keeps
append-Keeps ps qs i p e = (p, (get_elem?-append ps qs i p e, (refl, refl)))

pub Keeps-refl : (ps : List TurnPart) → Keeps ps ps
unfolding Keeps
Keeps-refl ps i p e = (p, (e, (refl, refl)))

pub insert-HasCards :
    (ps : List TurnPart) (m : List (String × ℕ)) (id : String) (p : TurnPart)
    → p.kind ≡ "tool"
    → p.tool_use_id ≡ id
    → HasCards ps m
    → HasCards (ps ++ p ∷ []) (insert id (length ps) m)
unfolding HasCards
insert-HasCards ps m id p tool mine h j i e = elim (Bool-cases (id == j)) [
  | inl same ↦
      let here : length ps ≡ i = ground (arith, e, same, lookup-insert id j (length ps) m) in
      (p, (rw (sym here) (get_elem?-append_end ps [] p), (tool, mine ∙ (eq_iff id j).0 same)))
  | inr other ↦
      let (q, (at, rest)) = h j i (ground (arith, e, other, lookup-insert id j (length ps) m)) in
      (q, (get_elem?-append ps (p ∷ []) i q at, rest))
]

pub place_cards-HasCards :
    (bs : List Block) (ts : ℕ) (names : List (String × ToolInfo)) (ps : List TurnPart)
    (m : List (String × ℕ))
    → HasCards ps m
    → HasCards (place_cards bs ts names (ps, m)).0 (place_cards bs ts names (ps, m)).1
unfolding place_cards tool_part
place_cards-HasCards [] ts names ps m h = h
place_cards-HasCards (b ∷ bs) ts names ps m h =
    elim (Bool-cases (not (b.kind == "tool_use") || b.id == "")) [
      | inl e ↦ rw e (place_cards-HasCards bs ts names ps m h)
      | inr e ↦ elim (Option-cases (lookup b.id m)) [
        | inl fresh ↦
            let card = tool_part (info_of b.id names) "" b.id ts in
            rw (e, fresh)
              (place_cards-HasCards bs ts names (ps ++ card ∷ []) (insert b.id (length ps) m)
                (insert-HasCards ps m b.id card refl refl h))
        | inr (i, f) ↦ rw (e, f) (place_cards-HasCards bs ts names ps m h)
      ]
    ]

-- A call that has its card keeps it.
pub place_cards-lookup :
    (bs : List Block) (ts : ℕ) (names : List (String × ToolInfo)) (ps : List TurnPart)
    (m : List (String × ℕ)) (id : String) (i : ℕ)
    → lookup id m ≡ some i
    → lookup id (place_cards bs ts names (ps, m)).1 ≡ some i
unfolding place_cards
place_cards-lookup [] ts names ps m id i h = h
place_cards-lookup (b ∷ bs) ts names ps m id i h =
    elim (Bool-cases (not (b.kind == "tool_use") || b.id == "")) [
      | inl e ↦ rw e (place_cards-lookup bs ts names ps m id i h)
      | inr e ↦ elim (Option-cases (lookup b.id m)) [
        | inl fresh ↦
            let card = tool_part (info_of b.id names) "" b.id ts in
            rw (e, fresh)
              (place_cards-lookup bs ts names (ps ++ card ∷ []) (insert b.id (length ps) m) id i
                (ground (arith, h, fresh, lookup-insert b.id id (length ps) m, eq_iff b.id id)))
        | inr (j, f) ↦ rw (e, f) (place_cards-lookup bs ts names ps m id i h)
      ]
    ]

Keeps-cons :
    (p q : TurnPart) (ps qs : List TurnPart)
    → q.kind ≡ p.kind
    → q.tool_use_id ≡ p.tool_use_id
    → Keeps ps qs
    → Keeps (p ∷ ps) (q ∷ qs)
unfolding Keeps
Keeps-cons p q ps qs kind id keeps zero x at = (
  q,
  (
    refl,
    (
      kind ∙ ap (λ o. (Option.get_or o p).kind) at,
      id ∙ ap (λ o. (Option.get_or o p).tool_use_id) at,
    ),
  ),
)
Keeps-cons p q ps qs kind id keeps (suc i) x at = keeps i x at

pub append_text-Keeps :
    (id text : String) (ps qs : List TurnPart) (p : TurnPart)
    → append_text id text ps ≡ some (qs, p)
    → Keeps ps qs
unfolding append_text
append_text-Keeps id text [] qs p e = absurd (ground (arith, e))
append_text-Keeps id text (y ∷ ps) qs p e = elim (Option-cases (append_text id text ps)) [
  | inl no_later ↦
      let y' : TurnPart = record y { content = str_append y.content (str_append "\n" text) } in
      let result : (y' ∷ ps) ≡ qs = ground (arith, e, no_later) in
      subst (Keeps (y ∷ ps)) result (Keeps-cons y y' ps ps refl refl (Keeps-refl ps))
  | inr ((ps', q), later) ↦
      let result : (y ∷ ps') ≡ qs = ground (arith, e, later) in
      subst (Keeps (y ∷ ps)) result
        (Keeps-cons y y ps ps' refl refl (append_text-Keeps id text ps ps' q later))
]

pub get_elem?-set_ne :
    {A : Type 0} (xs : List A) (i k : ℕ) (x : A) → i ≢ k → get_elem? (set xs i x) k ≡ get_elem? xs k
get_elem?-set_ne [] i k x ne = refl
get_elem?-set_ne (y ∷ xs) zero zero x ne = absurd (ne refl)
get_elem?-set_ne (y ∷ xs) zero (suc k) x ne = refl
get_elem?-set_ne (y ∷ xs) (suc i) zero x ne = refl
get_elem?-set_ne (y ∷ xs) (suc i) (suc k) x ne = get_elem?-set_ne xs i k x (λ e. ne (ap suc e))

pub get_elem?-set :
    {A : Type 0} (xs : List A) (i : ℕ) (x y : A)
    → get_elem? xs i ≡ some y
    → get_elem? (set xs i x) i ≡ some x
get_elem?-set [] i x y e = absurd (ground (arith, e))
get_elem?-set (z ∷ xs) zero x y e = refl
get_elem?-set (z ∷ xs) (suc i) x y e = get_elem?-set xs i x y e

-- Two calls do not have the same card.
pub HasCards-apart :
    (ps : List TurnPart) (m : List (String × ℕ)) (id j : String) (i : ℕ)
    → HasCards ps m
    → lookup id m ≡ some i
    → lookup j m ≡ some i
    → id ≡ j
unfolding HasCards
HasCards-apart ps m id j i h e f =
    let (p, (at, (kind, mine))) = h id i e in
    let (q, (at', (kind', yours))) = h j i f in
    sym mine ∙ (ap (λ o. (Option.get_or o p).tool_use_id) (sym at ∙ at') ∙ yours)

pub set-HasCards :
    (ps : List TurnPart) (m : List (String × ℕ)) (id : String) (i : ℕ) (p : TurnPart)
    → lookup id m ≡ some i
    → HasCards ps m
    → HasCards (set ps i p) (remove id m)
unfolding HasCards
set-HasCards ps m id i p e h j k f =
    let apart : id ≢ j = λ same. ground (arith, f, same, lookup-remove id j m, eq_iff id j) in
    let there : lookup j m ≡ some k = ground (arith, f, lookup-remove id j m) in
    let moved : i ≢ k = λ same.
      apart (HasCards-apart ps m id j i h e (subst (λ n. lookup j m ≡ some n) (sym same) there)) in
    let (q, (at, rest)) = h j k there in (q, (get_elem?-set_ne ps i k p moved ∙ at, rest))

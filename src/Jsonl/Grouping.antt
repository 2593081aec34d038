-- ===== src/Jsonl/Grouping.antt =====
-- What the Assembler does with a line: cards stay sound, and a result finds the card of its call.
use sr_code.Prelude.{
  ℕ, String, ◌≡◌, refl, sym, ap, ◌∙◌, inl, inr, Bool, true, false, not, ◌&&◌, ◌||◌, Option, none,
  some, List, [], ◌∷◌, ◌++◌, arith, ◌==◌, nat_has_eq, string_has_eq, if◌then◌else◌, Bool-cases,
  Option-cases, get_elem?, set,
}
use sr_code.Prelude.Dict.{lookup, remove}
use mathlib.Core.Option
use mathlib.Core.Path.{subst}
use sr_code.Jsonl.{
  Message, Event, TurnPart, Turn, blocks_of, has_tool_result, extract_text, match_tool_info,
  collect_tool_uses, ContentBlock, assistant_content_blocks, touch, add_usage,
}
use sr_code.Jsonl.Assembler.{
  Assembler, bare_turn, tool_part, flush, open_turn, mark, append_part, append_text, meta_into,
  feed_meta, enter_assistant, filled, result_into, feed_result, is_injected, is_prompt, feed,
  to_list, fed_line, show_blocks, feed_line_parts,
}
use sr_code.Jsonl.Cards.{
  HasCards, parts_of, IsSound, HasCards-Keeps, append-Keeps, place_cards-HasCards,
  append_text-Keeps, set-HasCards,
}

-- The lines that end the turn in progress.
unfoldable pub ends_turn : Event → Bool
unfolding is_prompt
ends_turn ev = (ev.kind == "system" && ev.subtype == "compact_boundary") || is_prompt ev

open_turn-parts : (ev : Event) (o : Option Turn) → (open_turn ev o).parts ≡ parts_of o
unfolding open_turn
open_turn-parts ev none = refl
open_turn-parts ev (some t) = ground arith

mark-parts : (ev : Event) (t : Turn) → (mark ev t).parts ≡ t.parts
unfolding mark touch
mark-parts ev t = ground arith

add_usage-parts : (m : Message) (t : Turn) → (add_usage m t).parts ≡ t.parts
unfolding add_usage
add_usage-parts m t = elim (Option-cases m.usage) [ inl e ↦ rw e refl | inr (u, e) ↦ rw e refl ]

entered-parts :
    (ev : Event) (a : Assembler)
    → (add_usage ev.message (mark ev (open_turn ev a.cur))).parts ≡ parts_of a.cur
entered-parts ev a =
    add_usage-parts ev.message (mark ev (open_turn ev a.cur))
    ∙ (mark-parts ev (open_turn ev a.cur) ∙ open_turn-parts ev a.cur)

enter_assistant-HasCards :
    (ev : Event) (a : Assembler)
    → IsSound a
    → HasCards (enter_assistant ev a).0.parts (enter_assistant ev a).1.pending_tool
unfolding enter_assistant
enter_assistant-HasCards ev a s =
    place_cards-HasCards (blocks_of ev.message) ev.timestamp
      (collect_tool_uses ev.message a.tool_map)
      (add_usage ev.message (mark ev (open_turn ev a.cur))).parts a.pending_tool
      (rw (entered-parts ev a) s.cards)

meta_into-IsSound :
    (ev : Event) (text : String) (t : Turn) (a : Assembler)
    → HasCards t.parts a.pending_tool
    → IsSound (meta_into ev text t a).0
unfolding meta_into append_part
meta_into-IsSound ev text t a h =
    elim (Option-cases (append_text ev.source_tool_use_id text t.parts)) [
      | inl e ↦
          rw (e, meta_into)
            (record { cards = HasCards-Keeps t.parts _ a.pending_tool (append-Keeps t.parts _) h })
      | inr ((ps, p), e) ↦
          rw (e, meta_into)
            (record {
              cards =
                  HasCards-Keeps t.parts ps a.pending_tool
                    (append_text-Keeps ev.source_tool_use_id text t.parts ps p e) h;
            })
    ]

result_into-IsSound :
    (ev : Event) (t : Turn) (a : Assembler)
    → HasCards t.parts a.pending_tool
    → IsSound (result_into ev t a).0
unfolding result_into append_part
result_into-IsSound ev t a h =
    let id = (match_tool_info ev.message a.tool_map).1 in
    elim (Bool-cases (ev.rendered == "")) [
      | inl e ↦ rw e (record { cards = h })
      | inr e ↦ elim (Option-cases (lookup id a.pending_tool)) [
        | inl f ↦
            rw (e, f)
              (record {
                cards = HasCards-Keeps t.parts _ a.pending_tool (append-Keeps t.parts _) h;
              })
        | inr (i, f) ↦ elim (Option-cases (get_elem? t.parts i)) [
          | inl g ↦
              rw (e, f, g)
                (record {
                  cards = HasCards-Keeps t.parts _ a.pending_tool (append-Keeps t.parts _) h;
                })
          | inr (old, g) ↦
              rw (e, f, g) (record { cards = set-HasCards t.parts a.pending_tool id i _ f h })
        ]
      ]
    ]

current-parts :
    (ev : Event) (a : Assembler) (model : String)
    → (mark ev (Option.get_or a.cur (bare_turn "assistant" ev.timestamp model))).parts
      ≡ parts_of a.cur
current-parts ev a model = elim (Option-cases a.cur) [
  | inl e ↦ rw e (mark-parts ev (bare_turn "assistant" ev.timestamp model))
  | inr (t, e) ↦ rw e (mark-parts ev t)
]

feed_meta-IsSound :
    (ev : Event) (text : String) (a : Assembler) → IsSound a → IsSound (feed_meta ev text a).0
unfolding feed_meta
feed_meta-IsSound ev text a s =
    meta_into-IsSound ev text _ a
      (subst (λ ps. HasCards ps a.pending_tool) (sym (current-parts ev a "")) s.cards)

feed_result-IsSound : (ev : Event) (a : Assembler) → IsSound a → IsSound (feed_result ev a).0
unfolding feed_result
feed_result-IsSound ev a s = result_into-IsSound ev _ a (
    subst (λ ps. HasCards ps a.pending_tool)
      (sym (mark-parts ev (open_turn ev a.cur) ∙ open_turn-parts ev a.cur)) s.cards)

flush-IsSound :
    (a : Assembler) → ((id : String) → lookup id a.pending_tool ≡ none) → IsSound (flush a).0
unfolding flush HasCards
flush-IsSound a idle = record { cards = λ id i e. absurd (ground (arith, idle id, e)) }

append-HasCards :
    (ps qs : List TurnPart) (m : List (String × ℕ)) → HasCards ps m → HasCards (ps ++ qs) m
append-HasCards ps qs m h = HasCards-Keeps ps (ps ++ qs) m (append-Keeps ps qs) h

feed-IsSound :
    (ev : Event) (a : Assembler)
    → IsSound a
    → (ends_turn ev ≡ true → (id : String) → lookup id a.pending_tool ≡ none)
    → IsSound (feed ev a).0
unfolding feed ends_turn append_part
feed-IsSound ev a s idle =
    elim (Bool-cases (ev.kind == "system" && ev.subtype == "compact_boundary")) [
      | inl e ↦ rw e (flush-IsSound a (idle (rw e refl)))
      | inr e ↦ elim (Bool-cases (not (ev.kind == "user") && not (ev.kind == "assistant"))) [
        | inl f ↦ rw (e, f) s
        | inr f ↦ elim (Bool-cases (is_prompt ev)) [
          | inl g ↦ rw (e, f, g) (flush-IsSound a (idle (rw (e, g) refl)))
          | inr g ↦ elim (Bool-cases (is_injected ev && ev.kind == "user")) [
            | inl k ↦ elim (Bool-cases (extract_text ev.message == "")) [
              | inl l ↦ rw (e, f, g, k, l) s
              | inr l ↦ rw (e, f, g, k, l) (feed_meta-IsSound ev (extract_text ev.message) a s)
            ]
            | inr k ↦ elim (Bool-cases (ev.kind == "assistant")) [
              | inl l ↦ elim (Bool-cases (extract_text ev.message == "")) [
                | inl n ↦ rw (e, f, g, k, l, n) (record { cards = enter_assistant-HasCards ev a s })
                | inr n ↦
                    rw (e, f, g, k, l, n)
                      (record { cards = append-HasCards _ _ _ (enter_assistant-HasCards ev a s) })
              ]
              | inr l ↦ rw (e, f, g, k, l) (feed_result-IsSound ev a s)
            ]
          ]
        ]
      ]
    ]

if-lem :
    {A : Type 0} (P : A → Type 0) (b : Bool) (x y : A)
    → (b ≡ true → P x)
    → (b ≡ false → P y)
    → P (if b then x else y)
if-lem P true x y f g = f refl
if-lem P false x y f g = g refl

show_blocks-IsSound :
    (ev : Event) (a : Assembler) (bs : List ContentBlock)
    → IsSound a
    → IsSound (feed ev a).0
    → IsSound (show_blocks ev a bs).0
unfolding show_blocks
show_blocks-IsSound ev a [] s f = f
show_blocks-IsSound ev a (b ∷ bs) s f = record {
  cards = append-HasCards _ _ _ (enter_assistant-HasCards ev a s);
}

-- As long as no turn ends while a call waits for its result, every waiting call keeps its card in
-- the turn in progress, whatever the line is.
pub feed_line_parts-IsSound :
    (ev : Event) (a : Assembler)
    → IsSound a
    → (ends_turn ev ≡ true → (id : String) → lookup id a.pending_tool ≡ none)
    → IsSound (feed_line_parts ev a).0
unfolding feed_line_parts
feed_line_parts-IsSound ev a s idle =
    if-lem (λ (r : Assembler × (List Turn × List TurnPart)). IsSound r.0)
      (not (ev.kind == "assistant")) (fed_line ev a)
      (show_blocks ev a (assistant_content_blocks ev.message)) (λ e. feed-IsSound ev a s idle)
      (λ e.
        show_blocks-IsSound ev a (assistant_content_blocks ev.message) s (feed-IsSound ev a s idle))

-- A line that carries the result of a call, with something to show.
pub record IsResult (ev : Event) : Type 0 where
  pub user : ev.kind ≡ "user"
  pub result : has_tool_result ev.message ≡ true
  pub not_injected : is_injected ev ≡ false
  pub shown : (ev.rendered == "") ≡ false

-- The call whose result the line carries.
abbrev pub call_of : Event → Assembler → String
call_of ev a = (match_tool_info ev.message a.tool_map).1

feed_line_parts-result :
    (ev : Event) (a : Assembler)
    → IsResult ev
    → feed_line_parts ev a ≡ ((feed_result ev a).0, ([], to_list (feed_result ev a).1))
unfolding feed_line_parts feed is_prompt
feed_line_parts-result ev a r = rw (r.user, r.result, r.not_injected) refl

-- The result `q` stands in the place `i` of the call `id`, and every other part is as it was.
pub record IsFilled (id content : String) (i : ℕ) (parts : List TurnPart)
    (pending : List (String × ℕ)) (after : Assembler) (shown : List TurnPart) (q : TurnPart)
    : Type 0 where
  pub call : q.tool_use_id ≡ id
  pub text : q.content ≡ content
  pub placed : parts_of after.cur ≡ set parts i q
  pub streamed : shown ≡ q ∷ []
  pub settled : after.pending_tool ≡ remove id pending

filled-call : (now : ℕ) (old p : TurnPart) → (filled now old p).tool_use_id ≡ p.tool_use_id
unfolding filled
filled-call now old p = ground arith

filled-text : (now : ℕ) (old p : TurnPart) → (filled now old p).content ≡ p.content
unfolding filled
filled-text now old p = ground arith

result_into-fills :
    (ev : Event) (t : Turn) (a : Assembler) (i : ℕ) (old : TurnPart)
    → IsResult ev
    → lookup (call_of ev a) a.pending_tool ≡ some i
    → get_elem? t.parts i ≡ some old
    → (q : TurnPart) × IsFilled
        (call_of ev a)
        ev.rendered
        i
        t.parts
        a.pending_tool
        (result_into ev t a).0
        (to_list (result_into ev t a).1)
        q
unfolding result_into to_list
result_into-fills ev t a i old r pending at =
    let p =
      tool_part (match_tool_info ev.message a.tool_map).0 ev.rendered (call_of ev a) ev.timestamp in
    (
      filled ev.timestamp old p,
      rw (r.shown, pending, at)
          (record {
            call = filled-call ev.timestamp old p;
            text = filled-text ev.timestamp old p;
            placed = refl;
            streamed = refl;
            settled = refl;
          }),
    )

-- A line with the result of a call whose place `i` stands in the current turn puts the result into
-- that place and streams it; no other part of the turn changes and no turn is completed.
pub feed_line_parts-fills :
    (ev : Event) (a : Assembler) (i : ℕ) (old : TurnPart)
    → IsResult ev
    → lookup (call_of ev a) a.pending_tool ≡ some i
    → get_elem? (parts_of a.cur) i ≡ some old
    → ((feed_line_parts ev a).1.0 ≡ [])
      × ((q : TurnPart) × IsFilled
            (call_of ev a)
            ev.rendered
            i
            (parts_of a.cur)
            a.pending_tool
            (feed_line_parts ev a).0
            (feed_line_parts ev a).1.1
            q)
unfolding feed_result
feed_line_parts-fills ev a i old r pending at =
    let t = mark ev (open_turn ev a.cur) in
    let parts : t.parts ≡ parts_of a.cur =
      mark-parts ev (open_turn ev a.cur) ∙ open_turn-parts ev a.cur in
    let (q, fills) =
      result_into-fills ev t a i old r pending (ap (λ ps. get_elem? ps i) parts ∙ at) in
    (
      ap (λ f. f.1.0) (feed_line_parts-result ev a r),
      (
        q,
        subst
            (λ f. IsFilled (call_of ev a) ev.rendered i (parts_of a.cur) a.pending_tool f.0 f.1.1 q)
            (sym (feed_line_parts-result ev a r))
            (subst
              (λ ps.
                IsFilled (call_of ev a) ev.rendered i ps a.pending_tool (result_into ev t a).0
                  (to_list (result_into ev t a).1) q)
              parts fills),
      ),
    )

-- ===== src/Jsonl/Stale.antt =====
-- A call that still waits when its turn ends: the place of its card outlives the turn.
use sr_code.Prelude.{
  ℕ, String, ◌≡◌, refl, ap, ◌∙◌, inl, inr, false, none, some, List, [], ◌∷◌, ◌==◌, nat_has_eq,
  string_has_eq, Bool-cases, get_elem?,
}
use sr_code.Prelude.Dict.{lookup}
use sr_code.Jsonl.{
  Event, TurnPart, blocks_of, has_tool_result, extract_text, collect_tool_uses, ContentBlock,
  assistant_content_blocks, add_usage,
}
use sr_code.Jsonl.Assembler.{
  Assembler, flush, open_turn, mark, enter_assistant, is_injected, is_prompt, feed, show_blocks,
  feed_line_parts,
}
use sr_code.Jsonl.Cards.{parts_of, place_cards-lookup}
use sr_code.Jsonl.Grouping.{IsResult, call_of, IsFilled, feed_line_parts-fills}

-- A line that is a user's prompt.
pub record IsUserPrompt (ev : Event) : Type 0 where
  pub user : ev.kind ≡ "user"
  pub no_result : has_tool_result ev.message ≡ false
  pub not_injected : is_injected ev ≡ false

feed_line_parts-prompt :
    (ev : Event) (a : Assembler)
    → IsUserPrompt ev
    → (feed_line_parts ev a).0 ≡ record a { cur = none }
unfolding feed_line_parts feed is_prompt flush
feed_line_parts-prompt ev a p = rw (p.user, p.no_result, p.not_injected) refl

feed-pending :
    (ev : Event) (a : Assembler)
    → ev.kind ≡ "assistant"
    → (feed ev a).0.pending_tool ≡ (enter_assistant ev a).1.pending_tool
unfolding feed is_prompt
feed-pending ev a k = elim (Bool-cases (is_injected ev)) [
  | inl i ↦ elim (Bool-cases (extract_text ev.message == "")) [
    | inl e ↦ rw (k, e, i) refl
    | inr e ↦ rw (k, e, i) refl
  ]
  | inr i ↦ elim (Bool-cases (extract_text ev.message == "")) [
    | inl e ↦ rw (k, e, i) refl
    | inr e ↦ rw (k, e, i) refl
  ]
]

show_blocks-pending :
    (ev : Event) (a : Assembler) (bs : List ContentBlock)
    → ev.kind ≡ "assistant"
    → (show_blocks ev a bs).0.pending_tool ≡ (enter_assistant ev a).1.pending_tool
unfolding show_blocks
show_blocks-pending ev a [] k = feed-pending ev a k
show_blocks-pending ev a (b ∷ bs) k = refl

feed_line_parts-assistant :
    (ev : Event) (a : Assembler)
    → ev.kind ≡ "assistant"
    → feed_line_parts ev a ≡ show_blocks ev a (assistant_content_blocks ev.message)
unfolding feed_line_parts
feed_line_parts-assistant ev a k = rw k refl

-- A line of the assistant leaves a waiting call waiting at its place.
feed_line_parts-waits :
    (ev : Event) (a : Assembler) (id : String) (i : ℕ)
    → ev.kind ≡ "assistant"
    → lookup id a.pending_tool ≡ some i
    → lookup id (feed_line_parts ev a).0.pending_tool ≡ some i
unfolding enter_assistant
feed_line_parts-waits ev a id i k e =
    ap (λ r. lookup id r.0.pending_tool) (feed_line_parts-assistant ev a k)
    ∙ (ap (lookup id) (show_blocks-pending ev a (assistant_content_blocks ev.message) k)
        ∙ place_cards-lookup (blocks_of ev.message) ev.timestamp
            (collect_tool_uses ev.message a.tool_map)
            (add_usage ev.message (mark ev (open_turn ev a.cur))).parts a.pending_tool id i e)

-- The turn after a prompt and one line of the assistant.
unfoldable pub next_turn : Event → Event → Assembler → Assembler
next_turn prompt say a = (feed_line_parts say (feed_line_parts prompt a).0).0

-- If a call still waits when a prompt ends its turn, and its result comes after the first line of
-- the next turn, the result overwrites whatever part stands there at the place that the call's
-- card had in the turn that ended.
pub stale_result_overwrites :
    (prompt say ev : Event) (a : Assembler) (i : ℕ) (other : TurnPart)
    → IsUserPrompt prompt
    → say.kind ≡ "assistant"
    → IsResult ev
    → lookup (call_of ev (next_turn prompt say a)) a.pending_tool ≡ some i
    → get_elem? (parts_of (next_turn prompt say a).cur) i ≡ some other
    → (q : TurnPart) × IsFilled
        (call_of ev (next_turn prompt say a))
        ev.rendered
        i
        (parts_of (next_turn prompt say a).cur)
        (next_turn prompt say a).pending_tool
        (feed_line_parts ev (next_turn prompt say a)).0
        (feed_line_parts ev (next_turn prompt say a)).1.1
        q
unfolding next_turn
stale_result_overwrites prompt say ev a i other p k r waits at =
    let b = (feed_line_parts prompt a).0 in
    let flushed : b.pending_tool ≡ a.pending_tool =
      ap (λ (c : Assembler). c.pending_tool) (feed_line_parts-prompt prompt a p) in
    (feed_line_parts-fills ev (next_turn prompt say a) i other r
      (feed_line_parts-waits say b (call_of ev (next_turn prompt say a)) i k
        (ap (lookup (call_of ev (next_turn prompt say a))) flushed ∙ waits))
      at).1

-- ===== src/Codexrollout/Fork/Prefix.antt =====
-- What a fork of a rollout holds.
use sr_code.Prelude.{
  String, ◌≡◌, refl, sym, ap, ◌∙◌, inl, inr, Bool, true, false, ◌&&◌, ◌||◌, Option, none, some,
  List, [], ◌∷◌, ◌++◌, map, arith, ◌==◌, nat_has_eq, string_has_eq, same_refl, eq_iff, Bool-cases,
  All,
}
use sr_code.Prelude.Dict.{lookup, insert, lookup-insert}
use mathlib.Core.List.{append_assoc}
use sr_code.Codexrollout.Fork.{
  Line, Files, is_turn_complete_type, is_task_complete, Render, rewrite_fork_header, copy_through,
  install, finish_copy, fork_lines, fork_copy,
}

abbrev pub texts : List Line → List String
texts ls = map (λ (l : Line). l.text) ls

-- The line is the event that a turn with this id has ended.
pub completes_turn : Line → String → Bool
completes_turn l turn_id =
    l.is_object
    && l.kind == "event_msg"
    && l.turn_id == turn_id
    && (l.event == "task_complete" || l.event == "turn_complete")

is_task_complete_lem :
    (l : Line) (turn_id : String) → is_task_complete l turn_id ≡ completes_turn l turn_id
unfolding is_task_complete is_turn_complete_type completes_turn
is_task_complete_lem l turn_id = ground arith

-- The lines are those through the first that completes the turn, and others after it.
pub record IsThrough (turn_id : String) (lines kept_lines : List Line) : Type 0 where
  pub before : List Line
  pub done : Line
  pub after : List Line
  pub split : lines ≡ before ++ done ∷ after
  pub kept_split : kept_lines ≡ before ++ done ∷ []
  pub not_before : All (λ l. completes_turn l turn_id ≡ false) before
  pub completes : completes_turn done turn_id ≡ true

copy_through-IsThrough :
    (turn_id : String) (out : List String) (ls : List Line)
    → (copy_through turn_id out ls).1 ≡ true
    → (kept_lines : List Line) × IsThrough turn_id ls kept_lines
      × ((copy_through turn_id out ls).0 ≡ out ++ texts kept_lines)
unfolding copy_through
copy_through-IsThrough turn_id out [] found = absurd (ground (arith, found))
copy_through-IsThrough turn_id out (l ∷ ls) found = elim (Bool-cases (is_task_complete l turn_id)) [
  | inl e ↦ (
    l ∷ [],
    record {
      before = [];
      done = l;
      after = ls;
      split = refl;
      kept_split = refl;
      not_before = tt;
      completes = sym (is_task_complete_lem l turn_id) ∙ e;
    },
    rw e refl,
  )
  | inr e ↦
      let (kept_lines, t, same) =
        copy_through-IsThrough turn_id (out ++ l.text ∷ []) ls (ground (arith, found, e)) in
      (
        l ∷ kept_lines,
        record {
          before = l ∷ t.before;
          done = t.done;
          after = t.after;
          split = ap (λ xs. l ∷ xs) t.split;
          kept_split = ap (λ xs. l ∷ xs) t.kept_split;
          not_before = (sym (is_task_complete_lem l turn_id) ∙ e, t.not_before);
          completes = t.completes;
        },
        rw e (same ∙ append_assoc out (l.text ∷ []) (texts kept_lines)),
      )
]

fork_lines-IsThrough :
    (render : Render) (writable : Bool) (left : List String) (header : Line) (ls : List Line)
    (dst turn_id new_id src_id : String) (files : Files)
    → (fork_lines render writable left dst turn_id new_id src_id (header ∷ ls) files).0 ≡ none
    → (header.kind ≡ "session_meta")
      × (header.is_object ≡ true)
      × (header.null_payload ≡ false)
      × ((kept_lines : List Line) × IsThrough turn_id ls kept_lines
          × ((fork_lines render writable left dst turn_id new_id src_id (header ∷ ls) files).1
              ≡ insert dst (render header.text new_id src_id ∷ texts kept_lines) files))
unfolding fork_lines rewrite_fork_header finish_copy install
fork_lines-IsThrough render writable left header ls dst turn_id new_id src_id files ok =
    let start : List String = render header.text new_id src_id ∷ [] in
    let copied = copy_through turn_id start ls in
    elim (Bool-cases (header.kind == "session_meta" && header.is_object)) [
      | inr e ↦ absurd (ground (arith, e, ok))
      | inl e ↦ elim (Bool-cases header.null_payload) [
        | inl n ↦ absurd (ground (arith, e, n, ok))
        | inr n ↦ elim (Bool-cases (copied.1)) [
          | inr f ↦ absurd (ground (arith, e, n, f, ok))
          | inl f ↦ elim (Bool-cases writable) [
            | inr g ↦ absurd (ground (arith, e, n, f, g, ok))
            | inl g ↦
                let (kept_lines, t, same) = copy_through-IsThrough turn_id start ls f in
                (
                  (eq_iff header.kind "session_meta").0 (ground (arith, e)),
                  ground (arith, e),
                  n,
                  (kept_lines, t, ground (arith, e, n, f, g, same)),
                )
          ]
        ]
      ]
    ]

-- If a fork succeeds, the source has a first line that is a header with a payload and, after it, lines
-- up to the first that completes the turn of the fork point; the target holds the rewritten header and
-- the texts of those lines, and no other file has changed.
pub fork_copy-IsThrough :
    (render : Render) (writable : Bool) (left : List String) (source : Option (List Line))
    (dst turn_id new_id src_id : String) (files : Files)
    → (fork_copy render writable left source dst turn_id new_id src_id files).0 ≡ none
    → (header : Line) × (ls : List Line) × (source ≡ some (header ∷ ls))
      × (header.kind ≡ "session_meta")
      × (header.is_object ≡ true)
      × (header.null_payload ≡ false)
      × ((kept_lines : List Line) × IsThrough turn_id ls kept_lines
          × (lookup dst ((fork_copy render writable left source dst turn_id new_id src_id files).1)
              ≡ some (render header.text new_id src_id ∷ texts kept_lines))
          × ((other : String)
              → (dst == other) ≡ false
              → lookup other
                  ((fork_copy render writable left source dst turn_id new_id src_id files).1)
                ≡ lookup other files))
unfolding fork_copy fork_lines
fork_copy-IsThrough render writable left none dst turn_id new_id src_id files ok =
    absurd (ground (arith, ok))
fork_copy-IsThrough render writable left (some []) dst turn_id new_id src_id files ok =
    absurd (ground (arith, ok))
fork_copy-IsThrough render writable left (some (header ∷ ls)) dst turn_id new_id src_id files ok =
    let (kind, object, payload, (kept_lines, t, same)) =
      fork_lines-IsThrough render writable left header ls dst turn_id new_id src_id files ok in
    let content = render header.text new_id src_id ∷ texts kept_lines in
    (
      header,
      ls,
      refl,
      kind,
      object,
      payload,
      (
        kept_lines,
        t,
        ap (lookup dst) same ∙ ground (arith, same_refl dst, lookup-insert dst dst content files),
        λ other differs.
            ap (lookup other) same ∙ ground (arith, differs, lookup-insert dst other content files),
      ),
    )

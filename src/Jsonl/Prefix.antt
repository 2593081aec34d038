-- ===== src/Jsonl/Prefix.antt =====
-- What a fork keeps of a session.
use sr_code.Prelude.{
  String, ◌≡◌, refl, sym, ap, ◌∙◌, inl, inr, Bool, true, false, not, ◌&&◌, ◌||◌, Option, none, some,
  List, [], ◌∷◌, ◌++◌, map, arith, ◌==◌, nat_has_eq, string_has_eq, Bool-cases, Option-cases,
}
use mathlib.Core.Path.{subst}
use mathlib.Core.List.{append-nil, append_assoc}
use sr_code.Jsonl.{Event, has_tool_result}
use sr_code.Jsonl.Fork.{
  Scan, forked, is_cut, is_turn_complete, note, rewrite, copy, scan, verdict, fork_prefix,
}

module _ (decode : String → Option Event) (contains : String → String → Bool)
    (replace_all : String → String → String → String) where
  pub starts_turn : String → Bool
  starts_turn line = elim (decode line) [
    | none ↦ false
    | some ev ↦ ev.kind == "user" && not (has_tool_result ev.message)
  ]

  pub is_point : String → String → Bool
  is_point after line = elim (decode line) [ none ↦ false | some ev ↦ ev.uuid == after ]

  pub ends_turn : String → Bool
  ends_turn line = elim (decode line) [
    | none ↦ false
    | some ev ↦ ev.kind == "system" && ev.subtype == "turn_duration"
  ]

  pub any_ends : List String → Bool
  any_ends [] = false
  any_ends (line ∷ lines) = ends_turn line || any_ends lines

  -- The turn has ended: a line of it says so, or another turn follows.
  pub has_ended : List String → List String → Bool
  has_ended turn [] = any_ends turn
  has_ended turn (line ∷ rest) = true

  -- The rest of a file that is empty or starts a turn.
  pub begins : List String → Bool
  unfolding starts_turn
  begins [] = true
  begins (line ∷ lines) = starts_turn line

  abbrev pub Uncut : List String → Type 0
  Uncut [] = Unit
  Uncut (line ∷ lines) = (starts_turn line ≡ false) × Uncut lines

  abbrev pub Pointless : String → List String → Type 0
  Pointless after [] = Unit
  Pointless after (line ∷ lines) = (is_point after line ≡ false) × Pointless after lines

  -- The lines of one turn after the fork point, up to the next that starts a turn or the end of the file.
  -- `was` and `is` are the scan's `completed` before it and after it.
  pub record IsTurnRest (old new : String) (lines out more : List String) (was is : Bool)
      : Type 0 where
    pub turn : List String
    pub rest : List String
    pub whole : turn ++ rest ≡ lines
    pub content : more ≡ out ++ map (rewrite decode contains replace_all old new) turn
    pub uncut : Uncut turn
    pub ends : begins rest ≡ true
    pub ended : is ≡ true → was ≡ false → has_ended turn rest ≡ true

  longer_ended :
      (line : String) (turn rest : List String) (was is : Bool)
      → (is ≡ true → (was || ends_turn line) ≡ false → has_ended turn rest ≡ true)
      → is ≡ true
      → was ≡ false
      → has_ended (line ∷ turn) rest ≡ true
  unfolding has_ended any_ends
  longer_ended line turn (next ∷ rest) was is h e f = refl
  longer_ended line turn [] was is h e f = elim (Bool-cases (ends_turn line)) [
    | inl g ↦ rw g refl
    | inr g ↦ rw g (h e (rw (f, g) refl))
  ]

  turn_grows :
      (old new line : String) (lines out more : List String) (was is : Bool)
      → starts_turn line ≡ false
      → IsTurnRest old new lines
          (out ++ rewrite decode contains replace_all old new line ∷ [])
          more
          (was || ends_turn line)
          is
      → IsTurnRest old new (line ∷ lines) out more was is
  turn_grows old new line lines out more was is f r = record {
    turn = line ∷ r.turn;
    rest = r.rest;
    whole = ap (λ ls. line ∷ ls) r.whole;
    content =
        r.content
        ∙ append_assoc out (rewrite decode contains replace_all old new line ∷ [])
            (map (rewrite decode contains replace_all old new) r.turn);
    uncut = (f, r.uncut);
    ends = r.ends;
    ended = longer_ended line r.turn r.rest was is r.ended;
  }

  scan-seen :
      (after old new : String) (lines : List String) (st : Scan)
      → st.seen ≡ true
      → IsTurnRest old new lines st.out
          (scan decode contains replace_all after old new lines st).out
          st.completed
          (scan decode contains replace_all after old new lines st).completed
  unfolding scan begins copy note ends_turn has_ended is_cut is_turn_complete
  scan-seen after old new [] st s = record {
    turn = [];
    rest = [];
    whole = refl;
    content = sym (append-nil st.out);
    uncut = tt;
    ends = refl;
    ended = λ is was. absurd (ground (arith, is, was));
  }
  scan-seen after old new (line ∷ lines) st s = elim (Option-cases (decode line)) [
    | inl e ↦
        let st' = copy decode contains replace_all old new line st in
        let quiet : ends_turn line ≡ false = rw (ends_turn, e) refl in
        let same : (st.completed || ends_turn line) ≡ st'.completed = ground (arith, quiet) in
        rw (scan, e)
          (turn_grows old new line lines st.out _ st.completed _ (rw (starts_turn, e) refl)
            (rw same (scan-seen after old new lines st' s)))
    | inr (ev, e) ↦ elim (Bool-cases (is_cut ev)) [
      | inl cut ↦
          rw (scan, e, s, cut)
            (record {
              turn = [];
              rest = line ∷ lines;
              whole = refl;
              content = sym (append-nil st.out);
              uncut = tt;
              ends = rw (starts_turn, e) cut;
              ended = λ is was. refl;
            })
      | inr uncut ↦
          let st' = copy decode contains replace_all old new line (note after old ev st) in
          let same : (st.completed || ends_turn line) ≡ st'.completed = rw (ends_turn, e, s) refl in
          rw (scan, e, s, uncut)
            (turn_grows old new line lines st.out _ st.completed _ (rw (starts_turn, e) uncut)
              (rw same (scan-seen after old new lines st' (rw s refl))))
    ]
  ]

  -- What a fork keeps: all lines up to the first one that has the point's id, and the rest of its
  -- turn, which has ended, with the session's id replaced in each.
  pub record IsTurnPrefix (after old new : String) (lines out more : List String) : Type 0 where
    pub before : List String
    pub point : String
    pub turn : List String
    pub rest : List String
    pub whole : before ++ (point ∷ (turn ++ rest)) ≡ lines
    pub content :
        more ≡ out ++ map (rewrite decode contains replace_all old new) (before ++ (point ∷ turn))
    pub first : Pointless after before
    pub is_it : is_point after point ≡ true
    pub uncut : Uncut turn
    pub ends : begins rest ≡ true
    pub ended : has_ended turn rest ≡ true

  prefix_grows :
      (after old new line : String) (lines out more : List String)
      → is_point after line ≡ false
      → IsTurnPrefix after old new lines
          (out ++ rewrite decode contains replace_all old new line ∷ [])
          more
      → IsTurnPrefix after old new (line ∷ lines) out more
  prefix_grows after old new line lines out more f r = record {
    before = line ∷ r.before;
    point = r.point;
    turn = r.turn;
    rest = r.rest;
    whole = ap (λ ls. line ∷ ls) r.whole;
    content =
        r.content
        ∙ append_assoc out (rewrite decode contains replace_all old new line ∷ [])
            (map (rewrite decode contains replace_all old new) (r.before ++ (r.point ∷ r.turn)));
    first = (f, r.first);
    is_it = r.is_it;
    uncut = r.uncut;
    ends = r.ends;
    ended = r.ended;
  }

  prefix_starts :
      (after old new line : String) (lines out more : List String) (was is : Bool)
      → is_point after line ≡ true
      → was ≡ false
      → is ≡ true
      → IsTurnRest old new lines
          (out ++ rewrite decode contains replace_all old new line ∷ [])
          more
          was
          is
      → IsTurnPrefix after old new (line ∷ lines) out more
  prefix_starts after old new line lines out more was is f n c r = record {
    before = [];
    point = line;
    turn = r.turn;
    rest = r.rest;
    whole = ap (λ ls. line ∷ ls) r.whole;
    content =
        r.content
        ∙ append_assoc out (rewrite decode contains replace_all old new line ∷ [])
            (map (rewrite decode contains replace_all old new) r.turn);
    first = tt;
    is_it = f;
    uncut = r.uncut;
    ends = r.ends;
    ended = r.ended c n;
  }

  scan-unseen :
      (after old new : String) (lines : List String) (st : Scan)
      → st.seen ≡ false
      → st.completed ≡ false
      → (scan decode contains replace_all after old new lines st).seen ≡ true
      → (scan decode contains replace_all after old new lines st).completed ≡ true
      → IsTurnPrefix after old new lines st.out
          (scan decode contains replace_all after old new lines st).out
  unfolding scan copy note is_point
  scan-unseen after old new [] st s n found done = absurd (ground (arith, s, found))
  scan-unseen after old new (line ∷ lines) st s n found done = elim (Option-cases (decode line)) [
    | inl e ↦
        rw (scan, e)
          (prefix_grows after old new line lines st.out _ (rw (is_point, e) refl) (
            scan-unseen after old new lines (copy decode contains replace_all old new line st) s n
              (rw (scan, e) at found) (rw (scan, e) at done)))
    | inr (ev, e) ↦
        let st' = copy decode contains replace_all old new line (note after old ev st) in
        elim (Bool-cases (ev.uuid == after)) [
          | inl here ↦
              rw (scan, e, s)
                (prefix_starts after old new line lines st.out _ st'.completed _
                  (rw (is_point, e) here) (rw (s, n) refl) (rw (scan, e, s) at done)
                  (scan-seen after old new lines st' (rw (s, here) refl)))
          | inr other ↦
              rw (scan, e, s)
                (prefix_grows after old new line lines st.out _ (rw (is_point, e) other) (
                  scan-unseen after old new lines st' (rw (s, other) refl) (rw (s, n) refl)
                    (rw (scan, e, s) at found) (rw (scan, e, s) at done)))
        ]
  ]

  -- If the prefix of a session is taken, it is the lines up to the first with the point's id and the
  -- lines of its turn, with the session's id replaced in each; the turn goes to the end of the file or
  -- to the next line of type `user` that is not a tool's result, injected ones with `isMeta` included;
  -- and it has ended: there is such a line, or a line of the turn after the point says that it ended.
  pub fork_prefix-IsTurnPrefix :
      (after old new : String) (lines more : List String)
      → fork_prefix decode contains replace_all after old new lines ≡ forked more
      → IsTurnPrefix after old new lines [] more
  unfolding fork_prefix verdict
  fork_prefix-IsTurnPrefix after old new lines more e =
      let st =
        scan decode contains replace_all after old new lines
          (record { out = []; seen = false; completed = false; parsed = 0; replaced = 0 }) in
      elim (Bool-cases st.seen) [
        | inr s ↦ absurd (ground (arith, rw s at e))
        | inl s ↦ elim (Bool-cases st.completed) [
          | inr n ↦ absurd (ground (arith, rw (s, n) at e))
          | inl done ↦
              let taken : st.out ≡ more = ground (arith, rw (s, done) at e) in
              subst (IsTurnPrefix after old new lines []) taken
                (scan-unseen after old new lines _ refl refl s done)
        ]
      ]

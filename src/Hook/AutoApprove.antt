-- ===== src/Hook/AutoApprove.antt =====
-- The blanket flag of a session: when it decides, and what a restart finds of it.
use sr_code.Prelude.{
  String, ◌≡◌, refl, ap, ◌∙◌, ◌≢◌, ◌↔◌, ◌⊎◌, inl, Bool, true, false, none, some, List, [], ◌∷◌,
  arith, eq_iff, ◌==◌, nat_has_eq, string_has_eq, if◌then◌else◌,
}
use sr_code.Prelude.Dict.{
  lookup, insert, lookup-insert, lookup-remove, Unique, insert-Unique, remove-Unique,
}
use sr_code.Hook.{
  Response, Event, Manager, is_auto_approve, auto_response, quick_decide, World, load_flags, new,
  set_auto_approve,
}

-- A call is decided without the user exactly if its session has the flag and the tool is not the
-- question tool; the decision is then to allow it, once.
pub quick_decide_iff :
    (ev : Event) (m : Manager) (r : Response)
    → (quick_decide ev m ≡ some r) ↔ (
        (ev.tool_name ≢ "AskUserQuestion")
        × (is_auto_approve ev.session_id m ≡ true)
        × (r ≡ auto_response))
unfolding quick_decide
quick_decide_iff ev m r = (
  λ h. (λ e. ground (arith, eq_iff ev.tool_name "AskUserQuestion"), ground arith, ground arith),
  λ h. ground (arith, h.0, eq_iff ev.tool_name "AskUserQuestion"),
)

-- The flags a history of settings leaves, the last setting of a session counting.
pub flag_after : String → Bool → List (String × Bool) → Bool
flag_after sid b [] = b
flag_after sid b ((j, v) ∷ rest) = flag_after sid (if j == sid then v else b) rest

pub set_all : World → List (String × Bool) → World
set_all w [] = w
set_all w ((sid, v) ∷ rest) = set_all (set_auto_approve true sid v w) rest

pub first_start : String → World
first_start path = record { manager = new path none; disk = none }

-- What holds of the flags between two settings.
record InSync (path : String) (w : World) : Type 0 where
  at_path : w.manager.auto_path ≡ path
  unique : Unique w.manager.auto_approve
  set_only : (sid : String) → lookup sid w.manager.auto_approve ≢ some false
  written :
      (w.disk ≡ some w.manager.auto_approve) ⊎ ((w.manager.auto_approve ≡ []) × (w.disk ≡ none))

load_flags-lookup :
    (j : String) (f m : List (String × Bool))
    → Unique f
    → ((sid : String) → lookup sid f ≢ some false)
    → lookup j (load_flags f m) ≡ elim (lookup j f) [ none ↦ lookup j m | some v ↦ some true ]
unfolding load_flags lookup
load_flags-lookup j [] m u a = refl
load_flags-lookup j ((k, v) ∷ f) m u a = ground (
  arith,
  load_flags-lookup j f (insert k true m) u.1
      (λ sid. ground (arith, a sid, a k, u.0, eq_iff k sid)),
  lookup-insert k j true m,
  eq_iff k j,
  eq_iff k k,
  a k,
)

module _ (path : String) (named : (path == "") ≡ false) where
  set_auto_approve-InSync :
      (sid : String) (v : Bool) (w : World)
      → InSync path w
      → InSync path (set_auto_approve true sid v w)
  unfolding set_auto_approve
  set_auto_approve-InSync sid true w s = record {
    at_path = s.at_path;
    unique = insert-Unique sid true w.manager.auto_approve s.unique;
    set_only =
        λ j e. s.set_only j (ground (arith, e, lookup-insert sid j true w.manager.auto_approve));
    written = inl (ground (arith, s.at_path, named));
  }
  set_auto_approve-InSync sid false w s = record {
    at_path = s.at_path;
    unique = remove-Unique sid w.manager.auto_approve s.unique;
    set_only = λ j e. s.set_only j (ground (arith, e, lookup-remove sid j w.manager.auto_approve));
    written = inl (ground (arith, s.at_path, named));
  }

  set_all-InSync :
      (w : World) (hist : List (String × Bool)) → InSync path w → InSync path (set_all w hist)
  unfolding set_all
  set_all-InSync w [] s = s
  set_all-InSync w ((sid, v) ∷ rest) s =
      set_all-InSync (set_auto_approve true sid v w) rest (set_auto_approve-InSync sid v w s)

  first_start-InSync : InSync path (first_start path)
  unfolding first_start new lookup
  first_start-InSync = ground (arith, named)

is_auto_approve-set :
    (j sid : String) (v : Bool) (w : World)
    → is_auto_approve j (set_auto_approve true sid v w).manager
      ≡ (if sid == j then v else is_auto_approve j w.manager)
unfolding set_auto_approve is_auto_approve
is_auto_approve-set j sid true w = ground (arith, lookup-insert sid j true w.manager.auto_approve)
is_auto_approve-set j sid false w = ground (arith, lookup-remove sid j w.manager.auto_approve)

is_auto_approve-set_all :
    (j : String) (w : World) (hist : List (String × Bool))
    → is_auto_approve j (set_all w hist).manager ≡ flag_after j (is_auto_approve j w.manager) hist
unfolding set_all flag_after
is_auto_approve-set_all j w [] = refl
is_auto_approve-set_all j w ((sid, v) ∷ rest) =
    is_auto_approve-set_all j (set_auto_approve true sid v w) rest
    ∙ ap (λ b. flag_after j b rest) (is_auto_approve-set j sid v w)

is_auto_approve-new :
    (path : String) (j : String) (w : World)
    → (path == "") ≡ false
    → InSync path w
    → is_auto_approve j (new path w.disk) ≡ is_auto_approve j w.manager
unfolding is_auto_approve new
is_auto_approve-new path j w named s = ground (
  arith,
  s.written,
  named,
  load_flags-lookup j w.manager.auto_approve [] s.unique s.set_only,
  s.set_only j,
)

first_start_off :
    (path sid : String)
    → (path == "") ≡ false
    → is_auto_approve sid (first_start path).manager ≡ false
unfolding is_auto_approve first_start new lookup
first_start_off path sid named = ground (arith, named)

-- After any settings whose writes succeed, from a first start with a file to write to, a session is
-- approved blindly exactly if its last setting was to do so; and a restart finds every flag as it was.
pub set_all-flag_after :
    (path : String) (hist : List (String × Bool)) (sid : String)
    → (path == "") ≡ false
    → (is_auto_approve sid (set_all (first_start path) hist).manager ≡ flag_after sid false hist)
      × (is_auto_approve sid (new path (set_all (first_start path) hist).disk)
          ≡ flag_after sid false hist)
set_all-flag_after path hist sid named =
    let live : is_auto_approve sid (set_all (first_start path) hist).manager
        ≡ flag_after sid false hist =
      is_auto_approve-set_all sid (first_start path) hist
      ∙ ap (λ b. flag_after sid b hist) (first_start_off path sid named) in
    let synced =
      set_all-InSync path named (first_start path) hist (first_start-InSync path named) in
    (live, is_auto_approve-new path sid (set_all (first_start path) hist) named synced ∙ live)

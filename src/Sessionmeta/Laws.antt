-- ===== src/Sessionmeta/Laws.antt =====
-- Each operation of the session store, seen as what it does to one session's record.
use sr_code.Prelude.{
  ℕ, zero, suc, ◌+◌, String, ◌≡◌, Bool, true, false, Option, none, some, arith, eq_iff, leb, ◌==◌,
  nat_has_eq, string_has_eq, if◌then◌else◌,
}
use sr_code.Prelude.Dict.{lookup, lookup-insert, lookup-remove}
use sr_code.Prelude.Int.{ℤ, pos, negsuc}
use sr_code.Sessionmeta.{
  ArchiveDecision, archived, shown, Store, World, int_eq, context_window, is_pinned, custom_title,
  is_archived_at, save_context_window, archive, unarchive, pin, unpin, rename, forget,
}

pub data Op : Type 0 where
  saves_window : String → ℤ → Op
  archives : String → Op
  unarchives : String → ℕ → ℕ → Op
  pins : String → Op
  unpins : String → Op
  renames : String → String → Op
  forgets : String → Op

unfoldable pub step : Bool → Op → World → World
step writable (saves_window id window) w = save_context_window writable id window w
step writable (archives id) w = archive writable id w
step writable (unarchives id last_event_at now) w = unarchive writable id last_event_at now w
step writable (pins id) w = pin writable id w
step writable (unpins id) w = unpin writable id w
step writable (renames id title) w = rename writable id title w
step writable (forgets id) w = forget writable id w

-- What the store says of one session.
pub record View : Type 0 where
  pub decision : Option ArchiveDecision
  pub pin_flag : Bool
  pub title : String
  pub window : ℤ

unfoldable pub view : String → Store → View
unfolding is_pinned custom_title context_window
view id s = record {
  decision = lookup id s.decisions;
  pin_flag = is_pinned id s;
  title = custom_title id s;
  window = context_window id s;
}

abbrev pub blank : View
blank = record { decision = none; pin_flag = false; title = ""; window = pos 0 }

abbrev pub target : Op → String
target (saves_window id window) = id
target (archives id) = id
target (unarchives id last_event_at now) = id
target (pins id) = id
target (unpins id) = id
target (renames id title) = id
target (forgets id) = id

-- The activity is recent, or nothing is archived by age.
abbrev pub fresh : ℕ → ℕ → ℕ → Bool
fresh zero last_event_at now = true
fresh (suc after) zero now = false
fresh (suc after) (suc last) now = leb now (suc last + suc after)

-- The operations over one session's record, with no map and no file.
abbrev pub spec : ℕ → Op → View → View
spec auto_after (saves_window id (pos (suc n))) v =
    if id == "" then v else record v { window = pos (suc n) }
spec auto_after (saves_window id (pos zero)) v = v
spec auto_after (saves_window id (negsuc n)) v = v
spec auto_after (archives id) v = record v { decision = some archived }
spec auto_after (unarchives id last_event_at now) v = record v {
  decision = if fresh auto_after last_event_at now then none else some shown;
}
spec auto_after (pins id) v = record v { pin_flag = true }
spec auto_after (unpins id) v = record v { pin_flag = false }
spec auto_after (renames id t) v = record v { title = t }
spec auto_after (forgets id) v = blank

int_eq-eq : (a b : ℤ) → int_eq a b ≡ true → a ≡ b
unfolding int_eq
int_eq-eq a b h = ground arith

module _ (writable : Bool) (j : String) (w : World) where
  view-save_context_window :
      (id : String) (window : ℤ)
      → view j (step writable (saves_window id window) w).store ≡ (
          if id == j
          then spec w.store.auto_after (saves_window id window) (view j w.store)
          else view j w.store)
  unfolding step view save_context_window
  view-save_context_window id (pos zero) = ground (arith, eq_iff id j)
  view-save_context_window id (negsuc n) = ground (arith, eq_iff id j)
  view-save_context_window id (pos (suc n)) = ground (
    arith,
    lookup-insert id j (pos (suc n)) w.store.windows,
    int_eq-eq (context_window id w.store) (pos (suc n)),
    eq_iff id j,
  )

  view-archive :
      (id : String)
      → view j (step writable (archives id) w).store ≡ (
          if id == j
          then spec w.store.auto_after (archives id) (view j w.store)
          else view j w.store)
  unfolding step view archive
  view-archive id = ground (arith, lookup-insert id j archived w.store.decisions, eq_iff id j)

  view-unarchive :
      (id : String) (last_event_at now : ℕ)
      → view j (step writable (unarchives id last_event_at now) w).store ≡ (
          if id == j
          then spec w.store.auto_after (unarchives id last_event_at now) (view j w.store)
          else view j w.store)
  unfolding step view unarchive
  view-unarchive id last now = ground (
    arith,
    lookup-insert id j shown w.store.decisions,
    lookup-remove id j w.store.decisions,
    eq_iff id j,
  )

  view-pin :
      (id : String)
      → view j (step writable (pins id) w).store
        ≡ (if id == j then spec w.store.auto_after (pins id) (view j w.store) else view j w.store)
  unfolding step view pin
  view-pin id = ground (arith, lookup-insert id j true w.store.pinned, eq_iff id j)

  view-unpin :
      (id : String)
      → view j (step writable (unpins id) w).store
        ≡ (if id == j then spec w.store.auto_after (unpins id) (view j w.store) else view j w.store)
  unfolding step view unpin
  view-unpin id = ground (arith, lookup-remove id j w.store.pinned, eq_iff id j)

  view-rename :
      (id title : String)
      → view j (step writable (renames id title) w).store ≡ (
          if id == j
          then spec w.store.auto_after (renames id title) (view j w.store)
          else view j w.store)
  unfolding step view rename
  view-rename id title = ground (
    arith,
    lookup-insert id j title w.store.titles,
    lookup-remove id j w.store.titles,
    eq_iff title "",
    eq_iff id j,
  )

  view-forget :
      (id : String)
      → view j (step writable (forgets id) w).store ≡ (
          if id == j then spec w.store.auto_after (forgets id) (view j w.store) else view j w.store)
  unfolding step view forget
  view-forget id = ground (
    arith,
    lookup-remove id j w.store.decisions,
    lookup-remove id j w.store.pinned,
    lookup-remove id j w.store.titles,
    lookup-remove id j w.store.windows,
    eq_iff id j,
  )

-- Every operation, whether its write of the file succeeds or not, changes the record of its own
-- session as the specification says, and the record of no other session.
pub view-step :
    (writable : Bool) (op : Op) (j : String) (w : World)
    → view j (step writable op w).store
      ≡ (if target op == j then spec w.store.auto_after op (view j w.store) else view j w.store)
view-step writable (saves_window id window) j w = view-save_context_window writable j w id window
view-step writable (archives id) j w = view-archive writable j w id
view-step writable (unarchives id last now) j w = view-unarchive writable j w id last now
view-step writable (pins id) j w = view-pin writable j w id
view-step writable (unpins id) j w = view-unpin writable j w id
view-step writable (renames id title) j w = view-rename writable j w id title
view-step writable (forgets id) j w = view-forget writable j w id

-- A session that the user takes out of the archive counts as not archived at that moment, however
-- long it has been idle.
pub is_archived_at-unarchive :
    (writable : Bool) (id : String) (last_event_at now : ℕ) (w : World)
    → is_archived_at id last_event_at now (unarchive writable id last_event_at now w).store ≡ false
unfolding is_archived_at unarchive
is_archived_at-unarchive writable id last now w = ground (
  arith,
  lookup-insert id id shown w.store.decisions,
  lookup-remove id id w.store.decisions,
  eq_iff id id,
)

-- Right after it is archived a session counts as archived at every age.
pub is_archived_at-archive :
    (writable : Bool) (id : String) (last_event_at now : ℕ) (w : World)
    → is_archived_at id last_event_at now (archive writable id w).store ≡ true
unfolding is_archived_at archive
is_archived_at-archive writable id last now w =
    ground (arith, lookup-insert id id archived w.store.decisions, eq_iff id id)

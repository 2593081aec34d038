-- ===== src/Sessionmeta/Reload.antt =====
-- What a restart finds in the file.
use sr_code.Prelude.{
  ℕ, zero, suc, String, ◌≡◌, refl, ◌∙◌, ◌⊎◌, inl, inr, Bool, true, false, Option, none, some, List,
  [], ◌∷◌, map, arith, eq_iff, ◌==◌, nat_has_eq, string_has_eq, All,
}
use sr_code.Prelude.Dict.{
  lookup, insert, remove, lookup-insert, Unique, insert-Unique, remove-Unique, All-insert,
  All-remove,
}
use sr_code.Prelude.Int.{ℤ, pos, negsuc}
use sr_code.Sessionmeta.{
  ArchiveDecision, archived, shown, FileFormat, Store, World, is_positive, is_known, load_decisions,
  load_pinned, load_titles, load_windows, new, file_format, persist, save_context_window, archive,
  unarchive, pin, unpin, rename, forget,
}
use sr_code.Sessionmeta.Laws.{
  Op, saves_window, archives, unarchives, pins, unpins, renames, forgets, step, view,
}

-- What the loops of `load` make of a map with no key twice.
overlay {ℓ} : {V : Type ℓ} → Option V → Option V → Option V
overlay (some v) old = some v
overlay none old = old

load_titles-lookup :
    (j : String) (f m : List (String × String))
    → Unique f
    → lookup j (load_titles f m) ≡ overlay (lookup j f) (lookup j m)
unfolding load_titles overlay lookup
load_titles-lookup j [] m u = refl
load_titles-lookup j ((k, v) ∷ f) m u =
    ground (arith, load_titles-lookup j f (insert k v m) u.1, lookup-insert k j v m, eq_iff k j)

load_decisions-lookup :
    (j : String) (f m : List (String × ArchiveDecision))
    → Unique f
    → All (λ p. is_known p.1 ≡ true) f
    → lookup j (load_decisions f m) ≡ overlay (lookup j f) (lookup j m)
unfolding load_decisions overlay lookup
load_decisions-lookup j [] m u a = refl
load_decisions-lookup j ((k, v) ∷ f) m u a =
    ground
      (arith, load_decisions-lookup j f (insert k v m) u.1 a.1, lookup-insert k j v m, eq_iff k j)

load_windows-lookup :
    (j : String) (f m : List (String × ℤ))
    → Unique f
    → All (λ p. is_positive p.1 ≡ true) f
    → lookup j (load_windows f m) ≡ overlay (lookup j f) (lookup j m)
unfolding load_windows overlay lookup
load_windows-lookup j [] m u a = refl
load_windows-lookup j ((k, v) ∷ f) m u a =
    ground
      (arith, load_windows-lookup j f (insert k v m) u.1 a.1, lookup-insert k j v m, eq_iff k j)

load_pinned-lookup :
    (j : String) (f m : List (String × Bool))
    → Unique f
    → All (λ p. p.1 ≡ true) f
    → lookup j (load_pinned (map (λ p. p.0) f) m) ≡ overlay (lookup j f) (lookup j m)
unfolding load_pinned overlay lookup
load_pinned-lookup j [] m u a = refl
load_pinned-lookup j ((k, v) ∷ f) m u a =
    ground (
      arith,
      load_pinned-lookup j f (insert k true m) u.1 a.1,
      lookup-insert k j true m,
      eq_iff k j,
    )

AllKnown : List (String × ArchiveDecision) → Type 0
AllKnown = All λ p. is_known p.1 ≡ true

AllTrue : List (String × Bool) → Type 0
AllTrue = All λ p. p.1 ≡ true

AllPositive : List (String × ℤ) → Type 0
AllPositive = All λ p. is_positive p.1 ≡ true

AllKnown-laws :
    (k : String) (m : List (String × ArchiveDecision))
    → AllKnown m
    → AllKnown (insert k archived m) × AllKnown (insert k shown m) × AllKnown (remove k m)
unfolding AllKnown is_known
AllKnown-laws k m a =
    (All-insert _ k archived m refl a, All-insert _ k shown m refl a, All-remove _ k m a)

AllTrue-laws :
    (k : String) (m : List (String × Bool))
    → AllTrue m
    → AllTrue (insert k true m) × AllTrue (remove k m)
unfolding AllTrue
AllTrue-laws k m a = (All-insert _ k true m refl a, All-remove _ k m a)

AllPositive-laws :
    (k : String) (n : ℕ) (m : List (String × ℤ))
    → AllPositive m
    → AllPositive (insert k (pos (suc n)) m) × AllPositive (remove k m)
unfolding AllPositive is_positive
AllPositive-laws k n m a = (All-insert _ k (pos (suc n)) m refl a, All-remove _ k m a)

-- What holds of the maps of a store between two calls.
record IsTidy (s : Store) : Type 0 where
  pub decisions_unique : Unique s.decisions
  pub decisions_known : AllKnown s.decisions
  pub pinned_unique : Unique s.pinned
  pub pinned_set : AllTrue s.pinned
  pub titles_unique : Unique s.titles
  pub windows_unique : Unique s.windows
  pub windows_positive : AllPositive s.windows

new-IsTidy : (path : String) (auto_after : ℤ) → IsTidy (new path auto_after none)
unfolding new AllKnown AllTrue AllPositive
new-IsTidy path auto_after = omega arith

persist_store :
    (writable : Bool) (s : Store) (disk : Option FileFormat) → (persist writable s disk).store ≡ s
unfolding persist
persist_store writable s disk = refl

-- The maps stay tidy under every operation.
module _ (writable : Bool) (w : World) (h : IsTidy w.store) where
  save_context_window-IsTidy :
      (id : String) (window : ℤ) → IsTidy (save_context_window writable id window w).store
  unfolding save_context_window
  save_context_window-IsTidy id (pos zero) = ground arith
  save_context_window-IsTidy id (negsuc n) = ground arith
  save_context_window-IsTidy id (pos (suc n)) = ground (
    arith,
    insert-Unique id (pos (suc n)) w.store.windows h.windows_unique,
    AllPositive-laws id n w.store.windows h.windows_positive,
  )

  archive-IsTidy : (id : String) → IsTidy (archive writable id w).store
  unfolding archive
  archive-IsTidy id = ground (
    arith,
    insert-Unique id archived w.store.decisions h.decisions_unique,
    AllKnown-laws id w.store.decisions h.decisions_known,
  )

  unarchive-IsTidy : (id : String) (last now : ℕ) → IsTidy (unarchive writable id last now w).store
  unfolding unarchive
  unarchive-IsTidy id last now = ground (
    arith,
    insert-Unique id shown w.store.decisions h.decisions_unique,
    AllKnown-laws id w.store.decisions h.decisions_known,
    remove-Unique id w.store.decisions h.decisions_unique,
    AllKnown-laws id w.store.decisions h.decisions_known,
  )

  pin-IsTidy : (id : String) → IsTidy (pin writable id w).store
  unfolding pin
  pin-IsTidy id = ground (
    arith,
    insert-Unique id true w.store.pinned h.pinned_unique,
    AllTrue-laws id w.store.pinned h.pinned_set,
  )

  unpin-IsTidy : (id : String) → IsTidy (unpin writable id w).store
  unfolding unpin
  unpin-IsTidy id = ground (
    arith,
    remove-Unique id w.store.pinned h.pinned_unique,
    AllTrue-laws id w.store.pinned h.pinned_set,
  )

  rename-IsTidy : (id title : String) → IsTidy (rename writable id title w).store
  unfolding rename
  rename-IsTidy id title = ground (
    arith,
    insert-Unique id title w.store.titles h.titles_unique,
    remove-Unique id w.store.titles h.titles_unique,
  )

  forget-IsTidy : (id : String) → IsTidy (forget writable id w).store
  unfolding forget
  forget-IsTidy id = ground (
    arith,
    remove-Unique id w.store.decisions h.decisions_unique,
    AllKnown-laws id w.store.decisions h.decisions_known,
    remove-Unique id w.store.pinned h.pinned_unique,
    AllTrue-laws id w.store.pinned h.pinned_set,
    remove-Unique id w.store.titles h.titles_unique,
    remove-Unique id w.store.windows h.windows_unique,
    AllPositive-laws id 0 w.store.windows h.windows_positive,
  )

step-IsTidy :
    (writable : Bool) (op : Op) (w : World) → IsTidy w.store → IsTidy (step writable op w).store
unfolding step
step-IsTidy writable (saves_window id window) w h =
    save_context_window-IsTidy writable w h id window
step-IsTidy writable (archives id) w h = archive-IsTidy writable w h id
step-IsTidy writable (unarchives id last now) w h = unarchive-IsTidy writable w h id last now
step-IsTidy writable (pins id) w h = pin-IsTidy writable w h id
step-IsTidy writable (unpins id) w h = unpin-IsTidy writable w h id
step-IsTidy writable (renames id title) w h = rename-IsTidy writable w h id title
step-IsTidy writable (forgets id) w h = forget-IsTidy writable w h id

-- The file that a tidy store writes is read back as a store that says the same of every session.
view-file_format :
    (path : String) (auto_after : ℤ) (s : Store) (j : String)
    → IsTidy s
    → (path == "") ≡ false
    → view j (new path auto_after (some (file_format s))) ≡ view j s
unfolding new file_format view overlay AllKnown AllTrue AllPositive
view-file_format path auto_after s j h p = ground (
  arith,
  load_decisions-lookup j s.decisions [] h.decisions_unique h.decisions_known,
  load_pinned-lookup j s.pinned [] h.pinned_unique h.pinned_set,
  load_titles-lookup j s.titles [] h.titles_unique,
  load_windows-lookup j s.windows [] h.windows_unique h.windows_positive,
)

path-step : (writable : Bool) (op : Op) (w : World) → (step writable op w).store.path ≡ w.store.path
unfolding step save_context_window archive unarchive pin unpin rename forget
path-step writable (saves_window id window) w = ground arith
path-step writable (archives id) w = ground arith
path-step writable (unarchives id last now) w = ground arith
path-step writable (pins id) w = ground arith
path-step writable (unpins id) w = ground arith
path-step writable (renames id title) w = ground arith
path-step writable (forgets id) w = ground arith

-- A call that changes anything writes the file anew.
disk-step :
    (op : Op) (w : World)
    → (w.store.path == "") ≡ false
    → (step true op w ≡ w) ⊎ ((step true op w).disk ≡ some (file_format (step true op w).store))
unfolding step save_context_window archive unarchive pin unpin rename forget
disk-step (saves_window id window) w p = ground arith
disk-step (archives id) w p = ground arith
disk-step (unarchives id last now) w p = ground arith
disk-step (pins id) w p = ground arith
disk-step (unpins id) w p = ground arith
disk-step (renames id title) w p = ground arith
disk-step (forgets id) w p = ground arith

unfoldable pub run : World → List Op → World
run w [] = w
run w (op ∷ ops) = run (step true op w) ops

-- The store of a first start, with no file yet.
unfoldable pub first_start : String → ℤ → World
first_start path auto_after = record { store = new path auto_after none; disk = none }

module _ (path : String) (auto_after : ℤ) (named : (path == "") ≡ false) where
  record InSync (w : World) : Type 0 where
    tidy : IsTidy w.store
    at_path : w.store.path ≡ path
    same : (j : String) → view j (new path auto_after w.disk) ≡ view j w.store

  first_start-InSync : InSync (first_start path auto_after)
  unfolding first_start new
  first_start-InSync = record {
    tidy = new-IsTidy path auto_after;
    at_path = refl;
    same = λ j. refl;
  }

  step-InSync : (op : Op) (w : World) → InSync w → InSync (step true op w)
  step-InSync op w s = record {
    tidy = step-IsTidy true op w s.tidy;
    at_path = path-step true op w ∙ s.at_path;
    same = λ j. elim (disk-step op w (rw s.at_path named)) [
      | inl unchanged ↦ rw unchanged (s.same j)
      | inr written ↦ rw written (
          view-file_format path auto_after (step true op w).store j (step-IsTidy true op w s.tidy)
            named)
    ];
  }

  run-InSync : (w : World) (ops : List Op) → InSync w → InSync (run w ops)
  unfolding run
  run-InSync w [] s = s
  run-InSync w (op ∷ ops) s = run-InSync (step true op w) ops (step-InSync op w s)

  -- After any operations on a store that started with no file, whose writes all succeed, a restart
  -- reads a store back that says the same of every session.
  pub view-restart :
      (ops : List Op) (j : String)
      → view j (new path auto_after (run (first_start path auto_after) ops).disk)
        ≡ view j (run (first_start path auto_after) ops).store
  view-restart ops j = (run-InSync (first_start path auto_after) ops first_start-InSync).same j

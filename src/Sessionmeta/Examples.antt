-- ===== src/Sessionmeta/Examples.antt =====
-- A session that is pinned, renamed, archived and forgotten.
use sr_code.Prelude.{◌≡◌, refl, true, false, none, List, [], ◌∷◌, nat_has_eq, string_has_eq}
use sr_code.Prelude.Int.{pos}
use sr_code.Sessionmeta.{
  World, new, is_archived_at, save_context_window, archive, unarchive, pin, rename, forget,
}
use sr_code.Sessionmeta.Laws.{
  Op, saves_window, archives, unarchives, pins, renames, forgets, step, view, spec, view-step,
}
use sr_code.Sessionmeta.Reload.{run, first_start, view-restart}

abbrev started : World
started = first_start "sessions.json" (pos 100)

abbrev some_ops : List Op
some_ops =
    pins "a"
    ∷ renames "a" "work"
    ∷ archives "b"
    ∷ saves_window "a" (pos 200_000)
    ∷ unarchives "b" 5 500
    ∷ forgets "c"
    ∷ []

reads_back :
    view "a" (run started some_ops).store
    ≡ record { decision = none; pin_flag = true; title = "work"; window = pos 200_000 }
unfolding run first_start view step pin rename archive save_context_window unarchive forget new
    is_archived_at
reads_back = refl

view-step_example :
    view "a" (step false (pins "a") started).store ≡ spec 100 (pins "a") (view "a" started.store)
unfolding first_start new
view-step_example = view-step false (pins "a") "a" started

view-restart_example :
    view "a" (new "sessions.json" (pos 100) (run started some_ops).disk)
    ≡ view "a" (run started some_ops).store
view-restart_example = view-restart "sessions.json" (pos 100) refl some_ops "a"

-- ===== src/Appserver/Workers/Kill.antt =====
-- A kill that meets the end of a resume.
use sr_code.Prelude.{
  ℕ, String, ◌≡◌, refl, Bool, true, not, ◌||◌, none, some, arith, nat_has_eq, string_has_eq,
  same_refl,
}
use sr_code.Prelude.Dict.{lookup, insert, lookup-insert}
use sr_code.Appserver.Workers.{
  Worker, Manager, is_owned, resume_ends, kill, tests_ready, blocks_forever, receive_ready,
}

-- If `Kill` finds a worker that is still being resumed, and the resume ends between its test of
-- `w.ready` and its receive, it receives from nil and never goes on.
pub kill_can_hang :
    (id : String) (at : ℕ) (w : Worker) (channel : ℕ) (failed : Bool) (m : Manager)
    → lookup id m.workers ≡ some at
    → lookup at m.heap ≡ some w
    → w.ready ≡ some channel
    → ((kill id m).0 ≡ some at)
      × (tests_ready at ((kill id m).1) ≡ true)
      × (receive_ready at (resume_ends id at w channel failed ((kill id m).1)) ≡ blocks_forever)
unfolding kill tests_ready receive_ready resume_ends
kill_can_hang id at w channel failed m there found resuming = (
  there,
  rw (tests_ready, found) (ground (arith, resuming)),
  rw (receive_ready, replaced_worker) refl,
)
  where
    replaced_worker :
        lookup at (
          insert at
            (record w { err = failed || not (is_owned id at ((kill id m).1)); ready = none })
            m.heap)
        ≡ some (record w { err = failed || not (is_owned id at ((kill id m).1)); ready = none })
    replaced_worker = ground (
      arith,
      same_refl at,
      lookup-insert at at
          (record w { err = failed || not (is_owned id at ((kill id m).1)); ready = none }) m.heap,
    )

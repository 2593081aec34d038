-- ===== src/Appserver/Workers/Examples.antt =====
-- A manager of one place: a resume fills it, a second start puts the worker out.
use sr_code.Prelude.{
  ℕ, ◌+◌, ◌≤◌, ◌<◌, String, ◌≡◌, refl, true, false, none, some, arith, leb, nat_has_eq,
  string_has_eq, if◌then◌else◌, length,
}
use sr_code.Prelude.Dict.{lookup, insert, remove}
use sr_code.Appserver.Workers.{
  Worker, Manager, Clients, new_manager, is_idle, stands, choose, pick, put_out, reserve,
  finish_start, resume_begins, is_owned, resume_ends, kill, tests_ready, blocks_forever,
  receive_ready,
}
use sr_code.Appserver.Workers.Victim.{reserve_puts_out_idle}
use sr_code.Appserver.Workers.Capacity.{
  System, reserves, resumes, ends_resume, Reach, starts_empty, then_step, workers_within_limit,
}
use sr_code.Appserver.Workers.Kill.{kill_can_hang}

abbrev clients : Clients
clients = record { is_running = λ c. true; has_turn = λ c id. false }

abbrev resuming : Worker
resuming = record {
  client = 3;
  ready = some 0;
  err = false;
  busy = false;
  last_used = 5;
  model = "";
}

abbrev reserved : Manager
reserved = (reserve clients (new_manager 1)).1

abbrev resumed : Manager
resumed = (resume_begins "s" 0 resuming reserved).1

abbrev ready : Manager
ready = resume_ends "s" 0 resuming 0 false resumed

-- And a second start, for which the worker is put out.
abbrev full : System
full = record { manager = (reserve clients ready).1; holders = 1 }

Reach-full : Reach 1 full
unfolding reserve pick choose stands is_idle resume_begins resume_ends is_owned finish_start lookup
    insert remove
Reach-full =
    then_step
      (then_step
        (then_step (then_step starts_empty (reserves clients))
          (resumes "s" 0 resuming (omega arith)))
        (ends_resume "s" 0 resuming 0 false))
      (reserves clients)

-- The worker that has ended its resume is put out for the next start.
makes_room : (reserve clients ready).0 ≡ put_out 3
unfolding reserve pick choose stands is_idle resume_begins resume_ends is_owned finish_start lookup
    insert remove
makes_room = refl

workers_within_limit_example :
    (full.manager.starting ≡ full.holders)
    × (length full.manager.workers + full.holders ≤ (if leb 1 0 then 8 else 1))
workers_within_limit_example = workers_within_limit 1 full Reach-full

reserve_puts_out_idle_example :
    (ready.max_live ≤ length ready.workers + ready.starting)
    × ((id : String) × (at : ℕ) × (w : Worker) × (lookup id ready.workers ≡ some at)
        × (lookup at ready.heap ≡ some w)
        × (w.client ≡ 3)
        × (w.ready ≡ none)
        × (w.busy ≡ false)
        × (clients.has_turn 3 id ≡ false)
        × (((reserve clients ready).1).workers ≡ remove id ready.workers)
        × (length (remove id ready.workers) < length ready.workers))
unfolding reserve pick choose stands is_idle resume_begins resume_ends is_owned finish_start lookup
    insert remove
reserve_puts_out_idle_example = reserve_puts_out_idle clients ready 3 (refl, tt) refl

kill_can_hang_example :
    ((kill "s" resumed).0 ≡ some 0)
    × (tests_ready 0 ((kill "s" resumed).1) ≡ true)
    × (receive_ready 0 (resume_ends "s" 0 resuming 0 false ((kill "s" resumed).1)) ≡ blocks_forever)
unfolding reserve resume_begins finish_start lookup insert
kill_can_hang_example = kill_can_hang "s" 0 resuming 0 false resumed refl refl refl

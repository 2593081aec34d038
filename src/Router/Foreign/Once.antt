-- ===== src/Router/Foreign/Once.antt =====
-- What the watch relays: bytes that usher's turns did not write, and each of them once.
use sr_code.Prelude.{
  ℕ, inl, inr, Bool, true, false, List, arith, nat_has_eq, string_has_eq, Bool-cases, length, All,
}
use sr_code.Router.Foreign.{Watch, stat, last_file_line, bytes_of, finish, mark}
use sr_code.Router.Foreign.Regions.{mark-AllForeign}
use sr_code.Router.Foreign.Steps.{
  Step, begins, queues, writes, others_write, ends, bumps, stats, judges, finishes, Reach, starts,
  then_step, IsChain, IsForeignRegion, base_of, IsSound, IsChain-le, grow-IsSound, bump-IsSound,
  turn_ends-IsSound, rest-IsSound, judge-IsSound, commit-IsSound,
}

step-IsSound :
    {is_turn_complete : List ℕ → Bool} {w w' : Watch}
    → Step is_turn_complete w w'
    → IsSound w
    → IsSound w'
unfolding stat finish
step-IsSound (begins free) s = record {
  within = s.within;
  settled = λ free'. absurd (ground (arith, free'));
  scanned = s.scanned;
  chained = s.chained;
  foreign = s.foreign;
}
step-IsSound (queues q) s = record {
  within = s.within;
  settled = s.settled;
  scanned = s.scanned;
  chained = s.chained;
  foreign = s.foreign;
}
step-IsSound {w} (writes bytes busy) s =
    grow-IsSound w (mark true bytes) (λ free. absurd (ground (arith, busy, free))) s
step-IsSound {w} (others_write bytes) s =
    grow-IsSound w (mark false bytes) (λ free. mark-AllForeign bytes) s
step-IsSound {w} ends s = turn_ends-IsSound w s
step-IsSound {w} bumps s = bump-IsSound w s
step-IsSound {w} (stats at) s = record {
  within = s.within;
  settled = s.settled;
  scanned = omega arith;
  chained = s.chained;
  foreign = s.foreign;
}
step-IsSound {w} (judges size at) s = judge-IsSound size w at s
step-IsSound {is_turn_complete} {w} (finishes base size at) s =
    elim (Bool-cases (is_turn_complete (last_file_line size (bytes_of w.log)))) [
      | inl done ↦ rw (finish, done) (commit-IsSound base size w at s)
      | inr open_turn ↦ rw (finish, open_turn) (rest-IsSound w s)
    ]

reach-IsSound :
    {is_turn_complete : List ℕ → Bool} {w : Watch} → Reach is_turn_complete w → IsSound w
reach-IsSound (starts queued bytes) = record {
  within = omega arith;
  settled = λ free. mark-AllForeign bytes;
  scanned = tt;
  chained = tt;
  foreign = tt;
}
reach-IsSound (then_step reach step) = step-IsSound step (reach-IsSound reach)

-- However the passes of the watcher interleave with usher's turns and with what others write: every
-- region of the log that the watcher has relayed holds only bytes that no turn of usher's wrote, and
-- the regions follow one another without overlap, so that no byte is relayed twice.
pub relays_foreign_once :
    (is_turn_complete : List ℕ → Bool) (w : Watch)
    → Reach is_turn_complete w
    → All (IsForeignRegion w.log) w.relayed × IsChain (length w.log) w.relayed
relays_foreign_once is_turn_complete w reach =
    let s = reach-IsSound reach in
    (s.foreign, IsChain-le (base_of w) (length w.log) w.relayed s.within s.chained)

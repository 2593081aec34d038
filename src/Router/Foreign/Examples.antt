-- ===== src/Router/Foreign/Examples.antt =====
-- A turn that someone else completes between two of usher's.
use sr_code.Prelude.{
  ℕ, ◌≡◌, refl, Bool, true, false, List, [], ◌∷◌, ◌++◌, nat_eq, nat_has_eq, string_has_eq, length,
  All,
}
use sr_code.Router.Foreign.{
  Watch, new, set_foreign_base, bump_foreign_base, turn_ends, stat, judge, last_file_line, bytes_of,
  is_overtaken, commit, finish, mark,
}
use sr_code.Router.Foreign.Steps.{
  begins, writes, others_write, ends, stats, judges, finishes, Reach, starts, then_step, IsChain,
  IsForeignRegion,
}
use sr_code.Router.Foreign.Once.{relays_foreign_once}

-- A line that ends a turn is a `!`.
abbrev ends_turn : List ℕ → Bool
ends_turn [] = false
ends_turn (b ∷ bs) = nat_eq b 33

abbrev before : List ℕ
before = 65 ∷ 10 ∷ []

abbrev report : List ℕ
report = 66 ∷ 10 ∷ 33 ∷ 10 ∷ []

abbrev first_seen : Watch
first_seen = judge 2 (stat (new false (mark false before)))

abbrev own_turn : Watch
own_turn =
    turn_ends
      (record (record first_seen { busy = true }) { log = first_seen.log ++ mark true before })

abbrev reported : Watch
reported = record own_turn { log = own_turn.log ++ mark false report }

abbrev relayed_once : Watch
relayed_once = finish ends_turn 4 8 (judge 8 (stat reported))

Reach-relayed_once : Reach ends_turn relayed_once
unfolding judge stat turn_ends finish bump_foreign_base set_foreign_base commit last_file_line
    bytes_of is_overtaken
Reach-relayed_once =
    then_step
      (then_step
        (then_step
          (then_step
            (then_step
              (then_step
                (then_step
                  (then_step (then_step (starts false before) (stats refl)) (judges 2 refl))
                  (begins refl))
                (writes before refl))
              ends)
            (others_write report))
          (stats refl))
        (judges 8 refl))
      (finishes 4 8 refl)

-- The watcher relays the four bytes of the report.
report_is_relayed : relayed_once.relayed ≡ (4, 8) ∷ []
unfolding judge stat turn_ends finish bump_foreign_base set_foreign_base commit last_file_line
    bytes_of is_overtaken
report_is_relayed = refl

relays_foreign_once_example :
    All (IsForeignRegion relayed_once.log) relayed_once.relayed
    × IsChain (length relayed_once.log) relayed_once.relayed
relays_foreign_once_example = relays_foreign_once ends_turn relayed_once Reach-relayed_once

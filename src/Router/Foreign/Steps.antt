-- ===== src/Router/Foreign/Steps.antt =====
-- What may happen to a session while it is watched, and what every change keeps.
use sr_code.Prelude.{
  ℕ, ◌≤◌, ◌<◌, ◌≡◌, sym, ap, inl, inr, Bool, true, false, ◌||◌, none, List, [], ◌∷◌, ◌++◌, arith,
  leb, nat_eq_iff, nat_has_eq, string_has_eq, Bool-cases, Option-cases, length, drop, All,
  length-append,
}
use mathlib.Core.Option
use mathlib.Core.Path.{subst}
use sr_code.Router.Foreign.{
  Scan, idle, measured, judged, Watch, new, set_foreign_base, bump_foreign_base, turn_ends, stat,
  judge, is_overtaken, commit, finish, region, mark,
}
use sr_code.Router.Foreign.Regions.{
  AllForeign, append-AllForeign, drop-append, drop-length, later-AllForeign, region-AllForeign,
  region-append,
}

-- A turn of usher's writes while the session runs; others may write whenever they like. Queueing and
-- the ends of goroutines go on beside the watch.
pub data Step (is_turn_complete : List ℕ → Bool) (w : Watch) : Watch → Type 0 where
  begins : w.busy ≡ false → Step is_turn_complete w (record w { busy = true })
  queues : (queued : Bool) → Step is_turn_complete w (record w { queued = queued })
  writes :
      (bytes : List ℕ)
      → w.busy ≡ true
      → Step is_turn_complete w (record w { log = w.log ++ mark true bytes })
  others_write :
      (bytes : List ℕ) → Step is_turn_complete w (record w { log = w.log ++ mark false bytes })
  ends : Step is_turn_complete w (turn_ends w)
  bumps : Step is_turn_complete w (bump_foreign_base w)
  stats : w.scan ≡ idle → Step is_turn_complete w (stat w)
  judges : (size : ℕ) → w.scan ≡ measured size → Step is_turn_complete w (judge size w)
  finishes :
      (base size : ℕ)
      → w.scan ≡ judged base size
      → Step is_turn_complete w (finish is_turn_complete base size w)

-- From a start before any turn of usher's, on a log that others wrote.
pub data Reach (is_turn_complete : List ℕ → Bool) : Watch → Type 0 where
  starts : (queued : Bool) (bytes : List ℕ) → Reach is_turn_complete (new queued (mark false bytes))
  then_step :
      {w w' : Watch}
      → Reach is_turn_complete w
      → Step is_turn_complete w w'
      → Reach is_turn_complete w'

-- The regions, the latest first, end at `top` at most, and none reaches into an earlier one.
abbrev pub IsChain : ℕ → List (ℕ × ℕ) → Type 0
IsChain top [] = Unit
IsChain top ((base, size) ∷ rest) = (size ≤ top) × (base < size) × IsChain base rest

abbrev pub IsForeignRegion : List (ℕ × Bool) → ℕ × ℕ → Type 0
IsForeignRegion log (base, size) =
    (base < size) × (size ≤ length log) × AllForeign (region base size log)

abbrev pub IsMeasured : Scan → List (ℕ × Bool) → Type 0
IsMeasured idle log = Unit
IsMeasured (measured size) log = size ≤ length log
IsMeasured (judged base size) log = IsForeignRegion log (base, size)

abbrev pub base_of : Watch → ℕ
base_of w = Option.get_or w.foreign_base 0

pub record IsSound (w : Watch) : Type 0 where
  pub within : base_of w ≤ length w.log
  pub settled : w.busy ≡ false → AllForeign (drop (base_of w) w.log)
  pub scanned : IsMeasured w.scan w.log
  pub chained : IsChain (base_of w) w.relayed
  pub foreign : All (IsForeignRegion w.log) w.relayed

pub IsChain-le : (top top' : ℕ) (l : List (ℕ × ℕ)) → top ≤ top' → IsChain top l → IsChain top' l
IsChain-le top top' [] le c = tt
IsChain-le top top' ((base, size) ∷ rest) le c = (omega arith, c.1, c.2)

IsForeignRegion-append :
    (log more : List (ℕ × Bool)) (r : ℕ × ℕ)
    → IsForeignRegion log r
    → IsForeignRegion (log ++ more) r
IsForeignRegion-append log more (base, size) f = (
  f.0,
  rw (length-append log more) (omega arith),
  subst AllForeign (sym (region-append base size log more (omega arith) f.1)) f.2,
)

regions-append :
    (log more : List (ℕ × Bool)) (l : List (ℕ × ℕ))
    → All (IsForeignRegion log) l
    → All (IsForeignRegion (log ++ more)) l
regions-append log more [] f = tt
regions-append log more (r ∷ l) f =
    (IsForeignRegion-append log more r f.0, regions-append log more l f.1)

IsMeasured-append :
    (scan : Scan) (log more : List (ℕ × Bool)) → IsMeasured scan log → IsMeasured scan (log ++ more)
IsMeasured-append idle log more m = tt
IsMeasured-append (measured size) log more m = rw (length-append log more) (omega arith)
IsMeasured-append (judged base size) log more m = IsForeignRegion-append log more (base, size) m

-- The log grows, by foreign bytes unless a turn runs.
pub grow-IsSound :
    (w : Watch) (more : List (ℕ × Bool))
    → (w.busy ≡ false → AllForeign more)
    → IsSound w
    → IsSound (record w { log = w.log ++ more })
grow-IsSound w more theirs s = record {
  within = rw (length-append w.log more) (let le = s.within in omega arith);
  settled = λ free.
      rw (drop-append (base_of w) w.log more s.within)
        (append-AllForeign (drop (base_of w) w.log) more (s.settled free) (theirs free));
  scanned = IsMeasured-append w.scan w.log more s.scanned;
  chained = s.chained;
  foreign = regions-append w.log more w.relayed s.foreign;
}

pub bump-IsSound : (w : Watch) → IsSound w → IsSound (bump_foreign_base w)
unfolding bump_foreign_base set_foreign_base
bump-IsSound w s = record {
  within = omega arith;
  settled = λ free. rw (drop-length w.log) tt;
  scanned = s.scanned;
  chained = IsChain-le (base_of w) (length w.log) w.relayed s.within s.chained;
  foreign = s.foreign;
}

pub turn_ends-IsSound : (w : Watch) → IsSound w → IsSound (turn_ends w)
unfolding turn_ends bump_foreign_base set_foreign_base
turn_ends-IsSound w s =
    let b = bump-IsSound w s in
    record {
      within = b.within;
      settled = λ free. rw (drop-length w.log) tt;
      scanned = b.scanned;
      chained = b.chained;
      foreign = b.foreign;
    }

pub rest-IsSound : (w : Watch) → IsSound w → IsSound (record w { scan = idle })
rest-IsSound w s = record {
  within = s.within;
  settled = s.settled;
  scanned = tt;
  chained = s.chained;
  foreign = s.foreign;
}

first_sight-IsSound :
    (size : ℕ) (w : Watch)
    → w.foreign_base ≡ none
    → size ≤ length w.log
    → IsSound w
    → IsSound (record (set_foreign_base size w) { scan = idle })
unfolding set_foreign_base
first_sight-IsSound size w unseen le s =
    let zero_base : base_of w ≡ 0 = ap (λ b. Option.get_or b 0) unseen in
    record {
      within = le;
      settled = λ free. later-AllForeign (base_of w) size w.log (omega arith) (s.settled free);
      scanned = tt;
      chained = IsChain-le (base_of w) size w.relayed (omega arith) s.chained;
      foreign = s.foreign;
    }

pub judge-IsSound :
    (size : ℕ) (w : Watch) → w.scan ≡ measured size → IsSound w → IsSound (judge size w)
unfolding judge
judge-IsSound size w at s =
    let le : size ≤ length w.log = subst (λ c. IsMeasured c w.log) at s.scanned in
    elim (Option-cases w.foreign_base) [
      | inl unseen ↦ rw (judge, unseen) (first_sight-IsSound size w unseen le s)
      | inr (base, seen) ↦
          let its : base_of w ≡ base = ap (λ b. Option.get_or b 0) seen in
          elim (Bool-cases (w.busy || w.queued || leb size base)) [
            | inl skip ↦ rw (judge, seen, skip) (rest-IsSound w s)
            | inr go_on ↦
                rw (judge, seen, go_on)
                  (record {
                    within = s.within;
                    settled = s.settled;
                    scanned = (
                      ground (arith, go_on),
                      le,
                      region-AllForeign base size w.log (
                          subst (λ b. AllForeign (drop b w.log)) its
                            (s.settled (ground (arith, go_on)))),
                    );
                    chained = s.chained;
                    foreign = s.foreign;
                  })
          ]
    ]

pub commit-IsSound :
    (base size : ℕ) (w : Watch)
    → w.scan ≡ judged base size
    → IsSound w
    → IsSound (commit base size w)
unfolding commit is_overtaken set_foreign_base
commit-IsSound base size w at s =
    let region : IsForeignRegion w.log (base, size) =
      subst (λ c. IsMeasured c w.log) at s.scanned in
    elim (Bool-cases (is_overtaken base w)) [
      | inl late ↦ rw (commit, late) (rest-IsSound w s)
      | inr first ↦
          let its : base_of w ≡ base = ground (arith, first, nat_eq_iff (base_of w) base) in
          rw (commit, first)
            (record {
              within = region.1;
              settled =
                  λ free. later-AllForeign (base_of w) size w.log (omega arith) (s.settled free);
              scanned = tt;
              chained = (omega arith, region.0, subst (λ b. IsChain b w.relayed) its s.chained);
              foreign = (region, s.foreign);
            })
    ]

-- ===== src/Appserver/Workers/Capacity.antt =====
-- The number of workers.
use sr_code.Prelude.{
  ℕ, ◌+◌, ◌≤◌, ◌<◌, String, ◌≡◌, refl, ◌∙◌, inl, inr, Bool, true, false, not, ◌-◌, ◌&&◌, ◌||◌, none,
  List, [], ◌∷◌, arith, ltb, leb, ◌==◌, nat_has_eq, string_has_eq, if◌then◌else◌, Bool-cases,
  Option-cases, length,
}
use sr_code.Prelude.Dict.{lookup, insert, length-remove}
use mathlib.Core.Path.{subst}
use sr_code.Appserver.Workers.{
  Worker, Manager, Clients, new_manager, pick, Reserved, free_place, put_out, all_busy, reserve,
  finish_start, thread_started, resume_begins, is_owned, resume_ends, find_worker, get_or_resume,
  begin_turn, end_turn, kill, shutdown,
}
use sr_code.Appserver.Workers.Victim.{pick-makes_room}

-- The manager and the number of the callers that hold a place: `reserve` gave them one, and they have
-- neither given it back nor filled it.
pub record System : Type 0 where
  pub manager : Manager
  pub holders : ℕ

abbrev is_granted : Reserved → Bool
is_granted free_place = true
is_granted (put_out client) = true
is_granted all_busy = false

-- A caller reserves; it returns with the error, or holds a place from then on.
abbrev pub reserved : Clients → System → System
reserved clients s = record {
  manager = (reserve clients s.manager).1;
  holders = if is_granted ((reserve clients s.manager).0) then s.holders + 1 else s.holders;
}

-- A caller goes on with the place it holds, which is used up.
abbrev pub used : Manager → System → System
used m s = record { manager = m; holders = s.holders - 1 }

-- What the callers and the ends of their waits do. Only a caller that holds a place gives it back or
-- fills it.
pub data Step (s : System) : System → Type 0 where
  reserves : (clients : Clients) → Step s (reserved clients s)
  fails : 0 < s.holders → Step s (used (finish_start s.manager) s)
  starts :
      (id : String) (at client now : ℕ)
      → 0 < s.holders
      → Step s (used (thread_started id at client now s.manager) s)
  resumes :
      (id : String) (at : ℕ) (w : Worker)
      → 0 < s.holders
      → Step s (used ((resume_begins id at w s.manager).1) s)
  ends_resume :
      (id : String) (at : ℕ) (w : Worker) (channel : ℕ) (failed : Bool)
      → Step s (record s { manager = resume_ends id at w channel failed s.manager })
  finds :
      (id model : String) (now : ℕ)
      → Step s (record s { manager = (get_or_resume id model now s.manager).1 })
  begins :
      (clients : Clients) (id : String) (at : ℕ) (w : Worker) (now : ℕ)
      → Step s (record s { manager = (begin_turn clients id at w now s.manager).1 })
  ends :
      (id : String) (at : ℕ) (w : Worker) (now : ℕ)
      → Step s (record s { manager = end_turn id at w now s.manager })
  kills : (id : String) → Step s (record s { manager = (kill id s.manager).1 })
  shuts_down : Step s (record s { manager = shutdown s.manager })

pub data Reach (max_live : ℕ) : System → Type 0 where
  starts_empty : Reach max_live (record { manager = new_manager max_live; holders = 0 })
  then_step : {s s' : System} → Reach max_live s → Step s s' → Reach max_live s'

Fits : Manager → Type 0
Fits m = length m.workers + m.starting ≤ m.max_live

length-insert : (k : String) (v : ℕ) (m : List (String × ℕ)) → length (insert k v m) ≤ length m + 1
unfolding insert
length-insert k v [] = omega arith
length-insert k v ((j, w) ∷ m) = ground (arith, length-insert k v m)

reserve-Fits : (clients : Clients) (m : Manager) → Fits m → Fits ((reserve clients m).1)
unfolding reserve Fits
reserve-Fits clients m fits = elim (Bool-cases (ltb (length m.workers + m.starting) m.max_live)) [
  | inl e ↦ rw (reserve, e) (ground (arith, e))
  | inr e ↦ elim (Option-cases (pick clients m.heap m.workers none)) [
    | inl f ↦ rw (reserve, e, f) fits
    | inr ((id, w), f) ↦ elim (pick-makes_room clients m.heap m.workers none id w f) [
      | inl g ↦ absurd (ground (arith, g))
      | inr lt ↦ rw (reserve, e, f) (omega arith)
    ]
  ]
]

find_worker-Fits :
    (id : String) (at : ℕ) (w : Worker) (model : String) (now : ℕ) (m : Manager)
    → Fits m
    → Fits ((find_worker id at w model now m).1)
unfolding find_worker Fits
find_worker-Fits id at w model now m fits =
    let le = length-remove id m.workers in
    elim (Bool-cases (not (model == "") && not (w.model == "") && not (model == w.model))) [
      | inl e ↦ rw (find_worker, e) (omega arith)
      | inr e ↦ elim (Option-cases w.ready) [
        | inl f ↦ rw (find_worker, e, f) fits
        | inr (c, f) ↦ rw (find_worker, e, f) fits
      ]
    ]

get_or_resume-Fits :
    (id model : String) (now : ℕ) (m : Manager) → Fits m → Fits ((get_or_resume id model now m).1)
unfolding get_or_resume Fits
get_or_resume-Fits id model now m fits = elim (Option-cases (lookup id m.workers)) [
  | inl e ↦ rw (get_or_resume, e) fits
  | inr (at, e) ↦ elim (Option-cases (lookup at m.heap)) [
    | inl f ↦ rw (get_or_resume, e, f) fits
    | inr (w, f) ↦ rw (get_or_resume, e, f) (find_worker-Fits id at w model now m fits)
  ]
]

resume_begins-Fits :
    (id : String) (at : ℕ) (w : Worker) (m : Manager)
    → 0 < m.starting
    → Fits m
    → Fits ((resume_begins id at w m).1)
unfolding resume_begins finish_start Fits
resume_begins-Fits id at w m held fits =
    let le = length-insert id at m.workers in
    elim (Option-cases (lookup id m.workers)) [
      | inl e ↦ rw (resume_begins, e) (omega arith)
      | inr (other, e) ↦ rw (resume_begins, e) (omega arith)
    ]

resume_ends-Fits :
    (id : String) (at : ℕ) (w : Worker) (channel : ℕ) (failed : Bool) (m : Manager)
    → Fits m
    → Fits (resume_ends id at w channel failed m)
unfolding resume_ends Fits
resume_ends-Fits id at w channel failed m fits = ground (arith, fits, length-remove id m.workers)

begin_turn-Fits :
    (clients : Clients) (id : String) (at : ℕ) (w : Worker) (now : ℕ) (m : Manager)
    → Fits m
    → Fits ((begin_turn clients id at w now m).1)
unfolding begin_turn Fits
begin_turn-Fits clients id at w now m fits =
    elim (Bool-cases (w.busy || clients.has_turn w.client id)) [
      | inl e ↦ rw (begin_turn, e) fits
      | inr e ↦ rw (begin_turn, e) fits
    ]

end_turn-Fits :
    (id : String) (at : ℕ) (w : Worker) (now : ℕ) (m : Manager)
    → Fits m
    → Fits (end_turn id at w now m)
unfolding end_turn Fits
end_turn-Fits id at w now m fits = elim (Bool-cases (is_owned id at m)) [
  | inl e ↦ rw (end_turn, e) fits
  | inr e ↦ rw (end_turn, e) fits
]

step-Fits :
    {s s' : System} → Step s s' → s.manager.starting ≡ s.holders → Fits s.manager → Fits s'.manager
unfolding finish_start thread_started kill shutdown Fits
step-Fits {s} (reserves clients) same fits = reserve-Fits clients s.manager fits
step-Fits {s} (fails held) same fits = omega arith
step-Fits {s} (starts id at client now held) same fits =
    let le = length-insert id at s.manager.workers in omega arith
step-Fits {s} (resumes id at w held) same fits =
    resume_begins-Fits id at w s.manager (omega arith) fits
step-Fits {s} (ends_resume id at w channel failed) same fits =
    resume_ends-Fits id at w channel failed s.manager fits
step-Fits {s} (finds id model now) same fits = get_or_resume-Fits id model now s.manager fits
step-Fits {s} (begins clients id at w now) same fits =
    begin_turn-Fits clients id at w now s.manager fits
step-Fits {s} (ends id at w now) same fits = end_turn-Fits id at w now s.manager fits
step-Fits {s} (kills id) same fits = let le = length-remove id s.manager.workers in omega arith
step-Fits {s} shuts_down same fits = omega arith

-- What the look into the map leaves as it was.
get_or_resume-keeps :
    (id model : String) (now : ℕ) (m : Manager)
    → (((get_or_resume id model now m).1).max_live ≡ m.max_live)
      × (((get_or_resume id model now m).1).starting ≡ m.starting)
unfolding get_or_resume find_worker
get_or_resume-keeps id model now m = elim (Option-cases (lookup id m.workers)) [
  | inl e ↦ rw (get_or_resume, e) (refl, refl)
  | inr (at, e) ↦ elim (Option-cases (lookup at m.heap)) [
    | inl f ↦ rw (get_or_resume, e, f) (refl, refl)
    | inr (w, f) ↦ elim (Option-cases w.ready) [
      | inl g ↦ rw (get_or_resume, e, f) (rw (find_worker, g) (ground arith, ground arith))
      | inr (c, g) ↦ rw (get_or_resume, e, f) (rw (find_worker, g) (ground arith, ground arith))
    ]
  ]
]

-- `starting` counts the callers that hold a place.
step-starting :
    {s s' : System} → Step s s' → s.manager.starting ≡ s.holders → s'.manager.starting ≡ s'.holders
unfolding finish_start thread_started kill shutdown reserve resume_begins resume_ends begin_turn
    end_turn
step-starting {s} (reserves clients) same =
    elim (Option-cases (pick clients s.manager.heap s.manager.workers none)) [
      | inl e ↦ ground (arith, e, same)
      | inr (v, e) ↦ ground (arith, e, same)
    ]
step-starting (fails held) same = omega arith
step-starting (starts id at client now held) same = omega arith
step-starting {s} (resumes id at w held) same = elim (Option-cases (lookup id s.manager.workers)) [
  | inl e ↦ rw (resume_begins, e) (omega arith)
  | inr (other, e) ↦ rw (resume_begins, e) (omega arith)
]
step-starting (ends_resume id at w channel failed) same = same
step-starting {s} (finds id model now) same = (get_or_resume-keeps id model now s.manager).1 ∙ same
step-starting (begins clients id at w now) same = ground (arith, same)
step-starting (ends id at w now) same = ground (arith, same)
step-starting (kills id) same = same
step-starting shuts_down same = same

-- The limit is never changed.
step-max_live : {s s' : System} → Step s s' → s'.manager.max_live ≡ s.manager.max_live
unfolding finish_start thread_started kill shutdown reserve resume_begins resume_ends begin_turn
    end_turn
step-max_live {s} (reserves clients) =
    elim (Option-cases (pick clients s.manager.heap s.manager.workers none)) [
      | inl e ↦ ground (arith, e)
      | inr (v, e) ↦ ground (arith, e)
    ]
step-max_live (fails held) = refl
step-max_live (starts id at client now held) = refl
step-max_live {s} (resumes id at w held) = elim (Option-cases (lookup id s.manager.workers)) [
  | inl e ↦ rw (resume_begins, e) refl
  | inr (other, e) ↦ rw (resume_begins, e) refl
]
step-max_live (ends_resume id at w channel failed) = refl
step-max_live {s} (finds id model now) = (get_or_resume-keeps id model now s.manager).0
step-max_live (begins clients id at w now) = ground arith
step-max_live (ends id at w now) = ground arith
step-max_live (kills id) = refl
step-max_live shuts_down = refl

limit : ℕ → ℕ
limit max_live = if leb max_live 0 then 8 else max_live

reach-Fits :
    {max_live : ℕ} {s : System}
    → Reach max_live s
    → (s.manager.starting ≡ s.holders) × Fits s.manager × (s.manager.max_live ≡ limit max_live)
unfolding Fits limit
reach-Fits starts_empty = (refl, omega arith, refl)
reach-Fits (then_step reach step) =
    let (counted, fits, same) = reach-Fits reach in
    (step-starting step counted, step-Fits step counted fits, step-max_live step ∙ same)

-- However starts, resumes, kills and evictions interleave: `starting` is the number of the callers to
-- whom `reserve` gave a place that they have neither given back nor filled, and they and the live workers
-- are together at most as many as the limit, which is eight if none above zero was given.
pub workers_within_limit :
    (max_live : ℕ) (s : System)
    → Reach max_live s
    → (s.manager.starting ≡ s.holders)
      × (length s.manager.workers + s.holders ≤ (if leb max_live 0 then 8 else max_live))
unfolding Fits limit
workers_within_limit max_live s reach =
    let (counted, fits, same) = reach-Fits reach in
    (
      counted,
      subst (λ n. length s.manager.workers + s.holders ≤ n) same
          (subst (λ n. length s.manager.workers + n ≤ s.manager.max_live) counted fits),
    )

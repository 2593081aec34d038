-- ===== src/Router/Queue/Fifo.antt =====
-- The histories of one session, and what keeps them together.
use sr_code.Prelude.{
  ℕ, ◌≤◌, String, ◌≡◌, refl, ◌≢◌, Option, none, some, List, [], ◌∷◌, ◌++◌, arith, ◌==◌, nat_has_eq,
  string_has_eq, if◌then◌else◌,
}
use sr_code.Prelude.Dict.{lookup}
use sr_code.Router.Queue.{
  PendingSend, Outcome, taken, dropped, Executor, Router, queue_of, drop_all,
}

-- What a history says of one session.
abbrev pub of {ℓ} : {A : Type ℓ} → String → List (String × A) → List A
of id [] = []
of id ((j, a) ∷ xs) = let rest = of id xs in if j == id then a ∷ rest else rest

abbrev pub firsts {ℓ κ} : {A : Type ℓ} {B : Type κ} → List (A × B) → List A
firsts [] = []
firsts ((a, b) ∷ xs) = a ∷ firsts xs

-- The sends that a goroutine has taken.
abbrev pub takens : List (PendingSend × Outcome) → List PendingSend
takens [] = []
takens ((p, taken) ∷ xs) = p ∷ takens xs
takens ((p, dropped) ∷ xs) = takens xs

abbrev pub to_list {ℓ} : {A : Type ℓ} → Option A → List A
to_list none = []
to_list (some a) = a ∷ []

-- What the goroutine of a token has still to launch.
unfoldable pub to_launch : ℕ → Router → List PendingSend
to_launch tok r = elim (lookup tok r.executors) [ none ↦ [] | some e ↦ to_list e.launch ]

unfoldable pub launching : String → Router → List PendingSend
unfolding to_launch
launching id r = elim (lookup id r.active_send) [ none ↦ [] | some tok ↦ to_launch tok r ]

pub of-append {ℓ} :
    {A : Type ℓ} (id : String) (xs ys : List (String × A)) → of id (xs ++ ys) ≡ of id xs ++ of id ys
of-append id [] ys = refl
of-append id ((j, a) ∷ xs) ys = ground (arith, of-append id xs ys)

pub firsts-append {ℓ κ} :
    {A : Type ℓ} {B : Type κ} (xs ys : List (A × B)) → firsts (xs ++ ys) ≡ firsts xs ++ firsts ys
firsts-append [] ys = refl
firsts-append ((a, b) ∷ xs) ys = rw (firsts-append xs ys)

pub takens-append :
    (xs ys : List (PendingSend × Outcome)) → takens (xs ++ ys) ≡ takens xs ++ takens ys
takens-append [] ys = refl
takens-append ((p, taken) ∷ xs) ys = rw (takens-append xs ys)
takens-append ((p, dropped) ∷ xs) ys = takens-append xs ys

pub firsts-drop_all :
    (id sid : String) (ps : List PendingSend)
    → firsts (of sid (drop_all id ps)) ≡ (if id == sid then ps else [])
firsts-drop_all id sid [] = ground arith
firsts-drop_all id sid (p ∷ ps) = ground (arith, firsts-drop_all id sid ps)

pub takens-drop_all :
    (id sid : String) (ps : List PendingSend) → takens (of sid (drop_all id ps)) ≡ []
takens-drop_all id sid [] = refl
takens-drop_all id sid (p ∷ ps) = ground (arith, takens-drop_all id sid ps)

-- Goroutines and the running bits: a goroutine that has a turn to launch has the running bit, a
-- running bit is that of a goroutine of the session, and tokens are new.
pub record IsOwned (r : Router) : Type 0 where
  pub owned :
      (tok : ℕ) (e : Executor) (p : PendingSend)
      → lookup tok r.executors ≡ some e
      → e.launch ≡ some p
      → lookup e.session r.active_send ≡ some tok
  pub live :
      (id : String) (tok : ℕ)
      → lookup id r.active_send ≡ some tok
      → (e : Executor) × (lookup tok r.executors ≡ some e) × (e.session ≡ id)
  pub fresh : (tok : ℕ) → r.next_token ≤ tok → lookup tok r.executors ≡ none

-- The sends of a session, in the order in which they were accepted, have left its queue in that
-- order and wait in it in that order; what a goroutine took was launched in the same order.
pub record IsFifo (r : Router) : Type 0 where
  pub queued : (id : String) → of id r.accepted ≡ firsts (of id r.settled) ++ queue_of id r
  pub ordered :
      (id : String) → takens (of id r.settled) ≡ firsts (of id r.launched) ++ launching id r

abbrev pub IsHeld : String → Router → Type 0
IsHeld id r = (tok : ℕ) × (e : Executor) × (lookup tok r.executors ≡ some e) × (e.session ≡ id)

-- A session whose queue is not empty has a goroutine, which will look into the queue when it ends.
pub record IsServed (r : Router) : Type 0 where
  pub served : (id : String) → queue_of id r ≢ [] → IsHeld id r

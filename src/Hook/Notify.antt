-- ===== src/Hook/Notify.antt =====
-- The notification of subscribers (`SubscribePending`, `notifyPending`). A notification takes the
-- channels under the lock and sends after the lock is released, so a cancel function can come in
-- between: the sends are steps of their own here.
use sr_code.Prelude.{
  ℕ, ◌+◌, ◌≡◌, refl, inl, inr, Bool, true, false, ◌||◌, Option, none, some, List, [], ◌∷◌, ◌++◌,
  arith, ltb, nat_eq, nat_has_eq, string_has_eq, if◌then◌else◌, Option-cases, length,
}
use sr_code.Prelude.Dict.{lookup, insert, lookup-insert}
use sr_code.Hook.{Pending}

-- A subscriber is a pointer into the heap of channels; `registered` is `m.pendingSubs`.
pub record Channel : Type 0 where
  pub buffer : List Pending
  pub capacity : ℕ
  pub closed : Bool

pub record Subs : Type 0 where
  pub registered : List ℕ
  pub heap : List (ℕ × Channel)
  pub next : ℕ

unfoldable pub subscribe_pending : Subs → Subs
unfolding insert
subscribe_pending s = record {
  registered = s.next ∷ s.registered;
  heap = insert s.next (record { buffer = []; capacity = 64; closed = false }) s.heap;
  next = s.next + 1;
}

delete_sub : ℕ → List ℕ → List ℕ
delete_sub c [] = []
delete_sub c (x ∷ xs) = let rest = delete_sub c xs in if nat_eq x c then rest else x ∷ rest

-- The body of `once.Do`; the closure runs it once.
unfoldable pub cancel_sub : ℕ → Subs → Subs
unfolding insert lookup delete_sub
cancel_sub c s = elim (lookup c s.heap) [
  | none ↦ s
  | some ch ↦ record s {
    registered = delete_sub c s.registered;
    heap = insert c (record ch { closed = true }) s.heap;
  }
]

-- The first half of `notifyPending`: the channels, copied under the lock.
unfoldable pub snapshot : Subs → List ℕ
snapshot s = s.registered

-- One send of the second half: dropped when the buffer is full, a panic (`none`) when it is closed.
unfoldable pub send_one : Pending → ℕ → Subs → Option Subs
unfolding insert lookup
send_one p c s = elim (lookup c s.heap) [
  | none ↦ none
  | some ch ↦
      if ch.closed
      then none
      else some (
          if ltb (length ch.buffer) ch.capacity
          then record s { heap = insert c (record ch { buffer = ch.buffer ++ p ∷ [] }) s.heap }
          else s)
]

unfoldable pub send_all : Pending → List ℕ → Subs → Option Subs
unfolding send_one
send_all p [] s = some s
send_all p (c ∷ cs) s = elim (send_one p c s) [ none ↦ none | some s' ↦ send_all p cs s' ]

unfoldable pub contains : ℕ → List ℕ → Bool
contains c [] = false
contains c (x ∷ xs) = nat_eq x c || contains c xs

is_closed : ℕ → Subs → Bool
is_closed c s = elim (lookup c s.heap) [ none ↦ false | some ch ↦ ch.closed ]

is_closed-cancel_sub :
    (c : ℕ) (s : Subs) (ch : Channel)
    → lookup c s.heap ≡ some ch
    → is_closed c (cancel_sub c s) ≡ true
unfolding is_closed cancel_sub
is_closed-cancel_sub c s ch e =
    ground (arith, e, lookup-insert c c (record ch { closed = true }) s.heap)

-- A send to one channel opens no other.
send_one-is_closed :
    (p : Pending) (x c : ℕ) (s s' : Subs)
    → is_closed c s ≡ true
    → send_one p x s ≡ some s'
    → is_closed c s' ≡ true
unfolding is_closed send_one
send_one-is_closed p x c s s' h e = elim (Option-cases (lookup x s.heap)) [
  | inl f ↦ ground (arith, e, f)
  | inr (ch, f) ↦
      ground (arith, e, f, lookup-insert x c (record ch { buffer = ch.buffer ++ p ∷ [] }) s.heap)
]

send_one-closed : (p : Pending) (c : ℕ) (s : Subs) → is_closed c s ≡ true → send_one p c s ≡ none
unfolding is_closed send_one
send_one-closed p c s h = ground arith

send_all-closed :
    (p : Pending) (c : ℕ) (cs : List ℕ) (s : Subs)
    → contains c cs ≡ true
    → is_closed c s ≡ true
    → send_all p cs s ≡ none
unfolding send_all contains
send_all-closed p c [] s m h = cc
send_all-closed p c (x ∷ cs) s m h = elim (Option-cases (send_one p x s)) [
  | inl e ↦ rw (e, send_all) refl
  | inr (s', e) ↦
      rw (e, send_all)
        (send_all-closed p c cs s' (ground (arith, e, send_one-closed p c s h))
          (send_one-is_closed p x c s s' h e))
]

-- A registered subscriber that cancels after the channels are copied and before they are sent to
-- makes the notification panic, whatever else is subscribed.
pub cancel_during_notify :
    (p : Pending) (c : ℕ) (s : Subs) (ch : Channel)
    → contains c s.registered ≡ true
    → lookup c s.heap ≡ some ch
    → send_all p (snapshot s) (cancel_sub c s) ≡ none
unfolding snapshot
cancel_during_notify p c s ch m e =
    send_all-closed p c s.registered (cancel_sub c s) m (is_closed-cancel_sub c s ch e)

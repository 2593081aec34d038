-- ===== src/Telegram/Topics/Inverse.antt =====
-- The two maps of the store stay inverse to each other.
use sr_code.Prelude.{
  ℕ, String, ◌≡◌, ◌↔◌, inl, inr, Bool, none, some, arith, eq_iff, nat_eq_iff, ◌==◌, nat_has_eq,
  string_has_eq, Bool-cases, Option-cases,
}
use sr_code.Prelude.Dict.{lookup, lookup-insert, lookup-remove}
use sr_code.Telegram.Topics.{
  TopicStore, World, new_topic_store, thread, session, persist_locked, put, delete,
}

pub record IsInverse (s : TopicStore) : Type 0 where
  pub forth : (id : String) (t : ℕ) → lookup id s.threads ≡ some t → lookup t s.by_thread ≡ some id
  pub back : (id : String) (t : ℕ) → lookup t s.by_thread ≡ some id → lookup id s.threads ≡ some t

put-IsInverse :
    (writable : Bool) (id : String) (t : ℕ) (w : World)
    → lookup id w.store.threads ≡ none
    → lookup t w.store.by_thread ≡ none
    → IsInverse w.store
    → IsInverse (put writable id t w).store
unfolding put persist_locked
put-IsInverse writable id t w no_topic no_session inv = record {
  forth = λ j u e. ground (
    arith,
    e,
    no_topic,
    no_session,
    lookup-insert id j t w.store.threads,
    lookup-insert t u id w.store.by_thread,
    eq_iff id j,
    nat_eq_iff t u,
    inv.forth j u,
  );
  back = λ j u e. ground (
    arith,
    e,
    no_topic,
    no_session,
    lookup-insert id j t w.store.threads,
    lookup-insert t u id w.store.by_thread,
    eq_iff id j,
    nat_eq_iff t u,
    inv.back j u,
  );
}

delete-IsInverse :
    (writable : Bool) (id : String) (w : World)
    → IsInverse w.store
    → IsInverse (delete writable id w).store
unfolding delete persist_locked
delete-IsInverse writable id w inv = elim (Option-cases (lookup id w.store.threads)) [
  | inl e ↦ rw (delete, e) inv
  | inr (t, e) ↦
      rw (delete, e)
        (record {
          forth = λ j u f. ground (
            arith,
            e,
            f,
            lookup-remove id j w.store.threads,
            lookup-remove t u w.store.by_thread,
            eq_iff id j,
            nat_eq_iff t u,
            inv.forth j u,
            inv.forth id t,
          );
          back = λ j u f. ground (
            arith,
            e,
            f,
            lookup-remove id j w.store.threads,
            lookup-remove t u w.store.by_thread,
            eq_iff id j,
            nat_eq_iff t u,
            inv.back j u,
            inv.back id t,
            inv.forth id t,
          );
        })
]

-- What the hub does: a session without a topic gets a new one, and a session's topic is dropped.
pub data Step : World → World → Type 0 where
  binds :
      (w : World) (writable : Bool) (id : String) (t : ℕ)
      → lookup id w.store.threads ≡ none
      → lookup t w.store.by_thread ≡ none
      → Step w (put writable id t w)
  drops : (w : World) (writable : Bool) (id : String) → Step w (delete writable id w)

pub data Reach : World → Type 0 where
  start : (path : String) → Reach (record { store = new_topic_store path none; disk = none })
  next : {v w : World} → Reach v → Step v w → Reach w

new-IsInverse : (path : String) → IsInverse (new_topic_store path none)
unfolding new_topic_store lookup
new-IsInverse path = elim (Bool-cases (path == "")) [
  | inl e ↦
      rw (new_topic_store, e)
        (record {
          forth = λ id t f. absurd (ground (arith, f));
          back = λ id t f. absurd (ground (arith, f));
        })
  | inr e ↦
      rw (new_topic_store, e)
        (record {
          forth = λ id t f. absurd (ground (arith, f));
          back = λ id t f. absurd (ground (arith, f));
        })
]

Step-IsInverse : (v w : World) → Step v w → IsInverse v.store → IsInverse w.store
Step-IsInverse _ _ (binds w writable id t a b) inv = put-IsInverse writable id t w a b inv
Step-IsInverse _ _ (drops w writable id) inv = delete-IsInverse writable id w inv

Reach-IsInverse : (w : World) → Reach w → IsInverse w.store
Reach-IsInverse _ (start path) = new-IsInverse path
Reach-IsInverse _ (next {v} {w} r s) = Step-IsInverse v w s (Reach-IsInverse v r)

-- From a first start, whatever topics are bound to sessions without one and dropped again, and
-- whether the writes succeed or not: a session has a topic exactly if the topic's messages go to
-- that session.
pub thread-session :
    (w : World)
    → Reach w
    → (id : String) (t : ℕ) → (thread id w.store ≡ some t) ↔ (session t w.store ≡ some id)
unfolding thread session
thread-session w r id t = let inv = Reach-IsInverse w r in (inv.forth id t, inv.back id t)

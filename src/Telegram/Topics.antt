-- ===== src/Telegram/Topics.antt =====
-- internal/telegram/store.go: which forum topic belongs to which session. A topic id is a number;
-- the file is the map that it decodes to.
mod Inverse
mod Examples
use sr_code.Prelude.{
  ℕ, String, Bool, Option, none, some, List, [], ◌∷◌, ◌==◌, nat_has_eq, string_has_eq,
  if◌then◌else◌,
}
use sr_code.Prelude.Dict.{lookup, insert, remove}
use mathlib.Core.Option

pub record TopicStore : Type 0 where
  pub path : String
  pub threads : List (String × ℕ)
  pub by_thread : List (ℕ × String)

pub record World : Type 0 where
  pub store : TopicStore
  pub disk : Option (List (String × ℕ))

load_reverse : List (String × ℕ) → List (ℕ × String) → List (ℕ × String)
unfolding insert
load_reverse [] m = m
load_reverse ((sess, thread) ∷ rest) m = load_reverse rest (insert thread sess m)

-- `none` is no file: the first run.
unfoldable pub new_topic_store : String → Option (List (String × ℕ)) → TopicStore
unfolding load_reverse
new_topic_store path disk =
    let empty : TopicStore = record { path = path; threads = []; by_thread = [] } in
    if path == "" then empty else elim disk [
      | none ↦ empty
      | some threads ↦ record {
        path = path;
        threads = threads;
        by_thread = load_reverse threads [];
      }
    ]

unfoldable pub thread : String → TopicStore → Option ℕ
unfolding lookup
thread session_id s = lookup session_id s.threads

unfoldable pub session : ℕ → TopicStore → Option String
unfolding lookup
session thread_id s = lookup thread_id s.by_thread

-- The flag is whether the write and the rename succeed; the memory is changed in any case.
unfoldable pub persist_locked : Bool → TopicStore → Option (List (String × ℕ)) → World
persist_locked writable s disk = record {
  store = s;
  disk = if s.path == "" then disk else if writable then some s.threads else disk;
}

unfoldable pub put : Bool → String → ℕ → World → World
unfolding insert persist_locked
put writable session_id thread_id w =
    persist_locked writable
      (record w.store {
        threads = insert session_id thread_id w.store.threads;
        by_thread = insert thread_id session_id w.store.by_thread;
      })
      w.disk

unfoldable pub delete : Bool → String → World → World
unfolding lookup remove persist_locked
delete writable session_id w = elim (lookup session_id w.store.threads) [
  | none ↦ w
  | some t ↦
      persist_locked writable
        (record w.store {
          threads = remove session_id w.store.threads;
          by_thread = remove t w.store.by_thread;
        })
        w.disk
]

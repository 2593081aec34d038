-- ===== src/Telegram/Asks.antt =====
-- internal/telegram/ask.go: the questions that wait for an answer, found by their id, by which a
-- button names them, and by the topic in which an answer may be typed.
mod Index
mod Examples
use sr_code.Prelude.{ℕ, String, Option, none, some, List, [], nat_has_eq, string_has_eq}
use sr_code.Prelude.Dict.{lookup, insert, remove}
use mathlib.Core.Option

pub record AskEntry : Type 0 where
  pub question : String
  pub labels : List String
  pub thread : ℕ

pub record Asks : Type 0 where
  pub asks : List (String × AskEntry)
  pub asks_by_thread : List (ℕ × String)

abbrev pub no_asks : Asks
no_asks = record { asks = []; asks_by_thread = [] }

-- `askEntry{}`
abbrev pub empty_entry : AskEntry
empty_entry = record { question = ""; labels = []; thread = 0 }

unfoldable pub put_ask : String → AskEntry → Asks → Asks
unfolding insert
put_ask id e a = record {
  asks = insert id e a.asks;
  asks_by_thread = insert e.thread id a.asks_by_thread;
}

unfoldable pub take_ask : String → Asks → Option AskEntry × Asks
unfolding lookup remove
take_ask id a = elim (lookup id a.asks) [
  | none ↦ (none, a)
  | some e ↦ (
    some e,
    record { asks = remove id a.asks; asks_by_thread = remove e.thread a.asks_by_thread },
  )
]

-- An entry of the topics that has no question reads as the empty one.
unfoldable pub take_ask_by_thread : ℕ → Asks → Option (String × AskEntry) × Asks
unfolding lookup remove
take_ask_by_thread thread a = elim (lookup thread a.asks_by_thread) [
  | none ↦ (none, a)
  | some id ↦ (
    some (id, Option.get_or (lookup id a.asks) empty_entry),
    record { asks = remove id a.asks; asks_by_thread = remove thread a.asks_by_thread },
  )
]

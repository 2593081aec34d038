-- ===== src/Telegram/Asks/Examples.antt =====
-- Two questions of one topic.
use sr_code.Prelude.{◌≡◌, refl, none, some, [], ◌∷◌, eq_iff, nat_has_eq, string_has_eq}
use sr_code.Prelude.Dict.{lookup, insert, remove}
use mathlib.Core.Bool.{false≢true}
use sr_code.Telegram.Asks.{AskEntry, Asks, no_asks, put_ask, take_ask, take_ask_by_thread}
use sr_code.Telegram.Asks.Index.{older_ask_unlinks}

abbrev colour : AskEntry
colour = record { question = "Which colour?"; labels = "red" ∷ "blue" ∷ []; thread = 7 }

abbrev size : AskEntry
size = record { question = "Which size?"; labels = []; thread = 7 }

abbrev one_asked : Asks
one_asked = put_ask "p1" colour no_asks

older_ask_unlinks_example :
    (lookup "p2" ((take_ask "p1" (put_ask "p2" size (put_ask "p1" colour no_asks))).1).asks
      ≡ some size)
    × ((take_ask_by_thread 7
          ((take_ask "p1" (put_ask "p2" size (put_ask "p1" colour no_asks))).1)).0
        ≡ none)
older_ask_unlinks_example =
    older_ask_unlinks "p1" "p2" colour size no_asks (λ e. false≢true ((eq_iff "p1" "p2").1 e)) refl

-- The newer of two questions is the one that a typed reply answers.
newest_is_answered :
    (take_ask_by_thread 7 (put_ask "p2" size (put_ask "p1" colour no_asks))).0 ≡ some ("p2", size)
unfolding put_ask take_ask_by_thread lookup insert remove
newest_is_answered = refl

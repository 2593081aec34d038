-- ===== src/Telegram/Topics/Examples.antt =====
-- One session gets a topic.
use sr_code.Prelude.{◌≡◌, refl, ◌↔◌, true, none, some, nat_has_eq, string_has_eq}
use sr_code.Prelude.Dict.{lookup}
use sr_code.Telegram.Topics.{World, new_topic_store, thread, session, put}
use sr_code.Telegram.Topics.Inverse.{binds, start, next, thread-session}

abbrev first : World
first = record { store = new_topic_store "" none; disk = none }

abbrev bound : World
bound = put true "s" 7 first

no_topic : lookup "s" first.store.threads ≡ none
unfolding new_topic_store lookup
no_topic = refl

no_session : lookup 7 first.store.by_thread ≡ none
unfolding new_topic_store lookup
no_session = refl

thread-session_example : (thread "s" bound.store ≡ some 7) ↔ (session 7 bound.store ≡ some "s")
thread-session_example =
    thread-session bound (next (start "") (binds first true "s" 7 no_topic no_session)) "s" 7

-- ===== src/Telegram/Hub/Examples.antt =====
-- A question with two options in topic 7, tapped, and ignored.
use sr_code.Prelude.{◌≡◌, refl, false, none, some, [], ◌∷◌, nat_has_eq, string_has_eq}
use sr_code.Prelude.Dict.{lookup, insert}
use sr_code.Prelude.Strings.{trim_space, atoi}
use sr_code.Telegram.Asks.{no_asks, put_ask, take_ask_by_thread}
use sr_code.Telegram.Hub.{
  User, Message, Hub, send_to_session, react, encode_decision, authorized_chat, authorized_sender,
  authorized, answer, answer_by_text, handle_callback, deliver_prompt, route_message,
  handle_inbound, AskQuestion, post_ask_question,
}
use sr_code.Telegram.Hub.Replies.{
  option_data, asked, posted, tap, tap_answers_question, reply_after_ignore_is_lost,
}
use sr_code.Hook

abbrev colours : AskQuestion
colours = record { question = "Which colour?"; labels = "red" ∷ "blue" ∷ [] }

abbrev someone : User
someone = record { id = 3; is_bot = false }

abbrev entry : Hook.PendingEntry
entry = record {
  prompt = record {
    id = "p1";
    session_id = "s";
    event = "PreToolUse";
    tool_name = "AskUserQuestion";
    tool_input = "";
    cwd = "/";
    allow_always = false;
    created_at = 0;
  };
  response = none;
}

abbrev hub : Hub
hub = record {
  group = 5;
  allowed = [];
  questions = no_asks;
  topics = record { path = ""; threads = ("s", 7) ∷ []; by_thread = (7, "s") ∷ [] };
  hooks = record { pending = ("p1", entry) ∷ []; auto_approve = []; auto_path = "" };
  recent_sent = [];
}

abbrev nothing_pending : Hook.Manager
nothing_pending = record { pending = []; auto_approve = []; auto_path = "" }

abbrev blue_text : Message
blue_text = record { chat_id = 5; message_thread_id = 7; from = some someone; text = " blue " }

tap_answers_question_example :
    ((handle_callback (tap 5 someone (option_data "p1" "1")) (posted 7 "p1" colours hub)).1.hooks
      ≡ (Hook.respond "p1" (answer (asked colours 7) "blue") hub.hooks).1)
    × (lookup "p1"
          (handle_callback
            (tap 5 someone (option_data "p1" "1"))
            (posted 7 "p1" colours hub)).1.questions.asks
        ≡ none)
unfolding atoi authorized_chat authorized_sender
tap_answers_question_example =
    tap_answers_question hub 7 "p1" colours "1" 1 "blue" 5 someone (refl, (refl, tt)) refl refl refl
      refl

reply_after_ignore_is_lost_example :
    ((handle_inbound none blue_text
        (record (handle_callback
          (tap 5 someone (encode_decision "i" "p1"))
          (posted 7 "p1" colours hub)).1 { hooks = nothing_pending })).0
      ≡ react ∷ [])
    × ((handle_inbound none blue_text
          (record (handle_callback
            (tap 5 someone (encode_decision "i" "p1"))
            (posted 7 "p1" colours hub)).1 { hooks = nothing_pending })).1.hooks
        ≡ nothing_pending)
unfolding lookup insert post_ask_question put_ask authorized authorized_chat authorized_sender
    trim_space
reply_after_ignore_is_lost_example =
    reply_after_ignore_is_lost (posted 7 "p1" colours hub) "p1" 5 someone nothing_pending none
      blue_text refl refl refl refl refl refl refl

-- A reply that is typed in time is the answer, without the spaces around it.
typed_in_time :
    (handle_inbound none blue_text (posted 7 "p1" colours hub)).1.hooks
    ≡ (Hook.respond "p1" (answer (asked colours 7) "blue") hub.hooks).1
unfolding lookup insert post_ask_question put_ask authorized authorized_chat authorized_sender
    trim_space handle_inbound route_message answer_by_text take_ask_by_thread
typed_in_time = refl

-- Without a question the text goes to the session of the topic.
sent_on : (handle_inbound none blue_text hub).0 ≡ send_to_session "s" " blue " ∷ react ∷ []
unfolding lookup authorized authorized_chat authorized_sender trim_space handle_inbound
    route_message answer_by_text take_ask_by_thread deliver_prompt
sent_on = refl

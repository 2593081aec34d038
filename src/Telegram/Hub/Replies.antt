-- ===== src/Telegram/Hub/Replies.antt =====
-- What becomes of a tap on an option, and of a reply that is typed after the question is gone.
use sr_code.Prelude.{
  ℕ, String, ◌≡◌, refl, sym, ap, ◌∙◌, inl, inr, true, false, ◌&&◌, Option, none, some, List, [],
  ◌∷◌, arith, nat_eq, ◌==◌, nat_has_eq, string_has_eq, same_refl, Option-cases, get_elem?,
}
use sr_code.Prelude.Dict.{lookup, lookup-insert, lookup-remove}
use sr_code.Prelude.Int.{pos}
use mathlib.Core.Option
use mathlib.Core.Path.{subst}
use sr_code.Prelude.Strings.{cut, trim_space, atoi, IsFree, cut-append}
use sr_code.Telegram.Asks.{AskEntry, empty_entry, put_ask, take_ask, take_ask_by_thread}
use sr_code.Telegram.Hub.{
  User, Message, CallbackQuery, Hub, Call, react, colon, encode_decision, decode_decision,
  authorized_chat, authorized_sender, authorized, answer, answer_by_text, split_three, label_at,
  answer_tap, handle_ask_callback, is_tagged, decide, handle_callback, route_message,
  handle_inbound, AskQuestion, post_ask_question,
}
use sr_code.Hook
use Prim.Native.String.append

-- The data of an option's button.
unfoldable pub option_data : String → String → String
unfolding encode_decision
option_data id index = encode_decision "q" (encode_decision id index)

cut-encode_decision :
    (kind id : String) → IsFree colon kind → cut colon (encode_decision kind id) ≡ some (kind, id)
unfolding encode_decision
cut-encode_decision kind id free =
    rw (append.cons ":" String.[] id, append.nil id) (cut-append kind ":" id free)

q-IsFree : IsFree colon "q"
q-IsFree = (refl, tt)

is_tagged-option_data : (id index : String) → is_tagged "q" (option_data id index) ≡ true
unfolding is_tagged option_data
is_tagged-option_data id index =
    rw (is_tagged, cut-encode_decision "q" (encode_decision id index) q-IsFree) refl

split_three-option_data :
    (id index : String)
    → IsFree colon id
    → split_three (option_data id index) ≡ some ("q", id, index)
unfolding split_three option_data
split_three-option_data id index free =
    rw (split_three, cut-encode_decision "q" (encode_decision id index) q-IsFree)
      (rw (cut-encode_decision id index free) refl)

-- A button of a decision says what was put into it.
decode-encode :
    (id : String)
    → (id == "") ≡ false
    → (decode_decision (encode_decision "a" id) ≡ some ("allow", "", id))
      × (decode_decision (encode_decision "s" id) ≡ some ("allow", "session", id))
      × (decode_decision (encode_decision "d" id) ≡ some ("deny", "", id))
      × (decode_decision (encode_decision "i" id) ≡ some ("deny", "", id))
unfolding decode_decision
decode-encode id some_id = (
  rw (decode_decision, cut-encode_decision "a" id (refl, tt)) (rw some_id refl),
  rw (decode_decision, cut-encode_decision "s" id (refl, tt)) (rw some_id refl),
  rw (decode_decision, cut-encode_decision "d" id (refl, tt)) (rw some_id refl),
  rw (decode_decision, cut-encode_decision "i" id (refl, tt)) (rw some_id refl),
)

abbrev pub asked : AskQuestion → ℕ → AskEntry
asked q thread = record { question = q.question; labels = q.labels; thread = thread }

-- The hub after it has posted a question.
abbrev pub posted : ℕ → String → AskQuestion → Hub → Hub
posted thread id q h = record h {
  questions = post_ask_question true thread id (q ∷ []) h.questions;
}

abbrev pub tap : ℕ → User → String → CallbackQuery
tap chat u callback_data = record {
  message_chat = some chat;
  from = u;
  callback_data = callback_data;
}

answer_tap-answers :
    (id : String) (e : AskEntry) (i : ℕ) (label : String) (h : Hub)
    → lookup id h.questions.asks ≡ some e
    → get_elem? e.labels i ≡ some label
    → ((answer_tap id (some (pos i)) h).1.hooks ≡ (Hook.respond id (answer e label) h.hooks).1)
      × (lookup id (answer_tap id (some (pos i)) h).1.questions.asks ≡ none)
unfolding answer_tap take_ask label_at
answer_tap-answers id e i label h there at =
    rw (answer_tap, take_ask, there)
      (rw (label_at, at) (refl, ground (arith, same_refl id, lookup-remove id id h.questions.asks)))

-- If a question of one choice was posted under an id without a colon, then an authorised user's tap
-- on the button with the number of an option answers the prompt of that id with exactly the text of the
-- question and the label of that option, and the question no longer waits for an answer.
pub tap_answers_question :
    (h : Hub) (thread : ℕ) (id : String) (q : AskQuestion) (index : String) (i : ℕ) (label : String)
    (chat : ℕ) (u : User)
    → IsFree colon id
    → atoi index ≡ some (pos i)
    → get_elem? q.labels i ≡ some label
    → authorized_chat chat h ≡ true
    → authorized_sender (some u) h ≡ true
    → ((handle_callback (tap chat u (option_data id index)) (posted thread id q h)).1.hooks
        ≡ (Hook.respond id (answer (asked q thread) label) h.hooks).1)
      × (lookup id
            (handle_callback
              (tap chat u (option_data id index))
              (posted thread id q h)).1.questions.asks
          ≡ none)
unfolding handle_callback authorized_chat authorized_sender post_ask_question put_ask
    handle_ask_callback
tap_answers_question h thread id q index i label chat u free number at here allowed =
    rw (handle_callback, here, allowed, is_tagged-option_data id index)
      (rw (handle_ask_callback, split_three-option_data id index free, number)
        (answer_tap-answers id (asked q thread) i label (posted thread id q h)
          (ground (arith, same_refl id, lookup-insert id id (asked q thread) h.questions.asks)) at))

-- A tap on a decision's button leaves the questions and the topics, the chat and the users.
decide-questions :
    (cb : CallbackQuery) (h : Hub) → (decide cb h).1 ≡ record h { hooks = (decide cb h).1.hooks }
unfolding decide
decide-questions cb h = elim (Option-cases (decode_decision cb.callback_data)) [
  | inl e ↦ rw (decide, e) refl
  | inr ((behavior, scope, id), e) ↦ rw (decide, e) refl
]

ignore-decides :
    (h : Hub) (id : String) (chat : ℕ) (u : User)
    → authorized_chat chat h ≡ true
    → authorized_sender (some u) h ≡ true
    → handle_callback (tap chat u (encode_decision "i" id)) h
      ≡ decide (tap chat u (encode_decision "i" id)) h
unfolding handle_callback
ignore-decides h id chat u here allowed =
    rw (handle_callback, here, allowed) (rw (is_tagged, cut-encode_decision "i" id (refl, tt)) refl)

respond_gone :
    (id : String) (r : Hook.Response) (m : Hook.Manager)
    → lookup id m.pending ≡ none
    → (Hook.respond id r m).1 ≡ m
unfolding Hook.respond
respond_gone id r m gone = rw (Hook.respond, gone) refl

route-gone :
    (refused : Option String) (id : String) (m : Message) (h : Hub)
    → lookup m.message_thread_id h.questions.asks_by_thread ≡ some id
    → lookup id h.hooks.pending ≡ none
    → ((route_message refused m h).0 ≡ react ∷ []) × ((route_message refused m h).1.hooks ≡ h.hooks)
unfolding route_message answer_by_text take_ask_by_thread
route-gone refused id m h listed gone =
    rw (route_message, answer_by_text, take_ask_by_thread, listed)
      (
        refl,
        respond_gone id
            (answer (Option.get_or (lookup id h.questions.asks) empty_entry) (trim_space m.text))
            h.hooks gone,
      )

sender-hooks :
    (o : Option User) (later : Hook.Manager) (h : Hub)
    → authorized_sender o (record h { hooks = later }) ≡ authorized_sender o h
unfolding authorized_sender
sender-hooks none later h = refl
sender-hooks (some u) later h = refl

authorized-hooks :
    (m : Message) (later : Hook.Manager) (h : Hub)
    → authorized m (record h { hooks = later }) ≡ authorized m h
unfolding authorized authorized_chat
authorized-hooks m later h = ap (λ b. nat_eq m.chat_id h.group && b) (sender-hooks m.from later h)

inbound-gone :
    (refused : Option String) (id : String) (m : Message) (h : Hub)
    → lookup m.message_thread_id h.questions.asks_by_thread ≡ some id
    → lookup id h.hooks.pending ≡ none
    → authorized m h ≡ true
    → nat_eq m.message_thread_id 0 ≡ false
    → (trim_space m.text == "") ≡ false
    → ((handle_inbound refused m h).0 ≡ react ∷ [])
      × ((handle_inbound refused m h).1.hooks ≡ h.hooks)
unfolding handle_inbound
inbound-gone refused id m h listed gone sender thread text =
    rw (handle_inbound, sender, thread, text) (route-gone refused id m h listed gone)

-- If a question waits in a topic and an authorised user taps its button `Ignore`, then the question
-- still claims the topic: once its prompt is gone from the broker, the next text that an authorised
-- user writes there is sent to no session and answers nothing, though it is acknowledged.
pub reply_after_ignore_is_lost :
    (h : Hub) (id : String) (chat : ℕ) (u : User) (later : Hook.Manager) (refused : Option String)
    (m : Message)
    → lookup m.message_thread_id h.questions.asks_by_thread ≡ some id
    → authorized_chat chat h ≡ true
    → authorized_sender (some u) h ≡ true
    → lookup id later.pending ≡ none
    → authorized m h ≡ true
    → nat_eq m.message_thread_id 0 ≡ false
    → (trim_space m.text == "") ≡ false
    → ((handle_inbound refused m
          (record (handle_callback (tap chat u (encode_decision "i" id)) h).1 { hooks = later })).0
        ≡ react ∷ [])
      × ((handle_inbound refused m
            (record (handle_callback (tap chat u (encode_decision "i" id)) h).1 {
              hooks = later;
            })).1.hooks
          ≡ later)
reply_after_ignore_is_lost h id chat u later refused m listed here allowed gone sender thread text =
    let ignore : CallbackQuery = tap chat u (encode_decision "i" id) in
    let same : record (handle_callback ignore h).1 { hooks = later } ≡ record h { hooks = later } =
      ap (λ (g : Hub). record g { hooks = later })
        (ap (λ (c : List Call × Hub). c.1) (ignore-decides h id chat u here allowed)
          ∙ decide-questions ignore h) in
    subst
      (λ g.
        ((handle_inbound refused m g).0 ≡ react ∷ [])
        × ((handle_inbound refused m g).1.hooks ≡ later))
      (sym same)
      (inbound-gone refused id m (record h { hooks = later }) listed gone
        (authorized-hooks m later h ∙ sender) thread text)

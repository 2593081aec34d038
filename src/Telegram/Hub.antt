-- ===== src/Telegram/Hub.antt =====
-- internal/telegram/hub.go, ask.go and format.go: what the hub does with a message and with the tap
-- of a button. Chats, users and topics are numbers; what the hub sends to Telegram and to the router
-- is returned as a list of calls, but for the answers, which it gives to the broker itself.
mod Replies
mod Examples
use sr_code.Prelude.{
  ℕ, String, Bool, true, false, not, ◌&&◌, ◌||◌, Option, none, some, List, [], ◌∷◌, nat_eq, ◌==◌,
  nat_has_eq, string_has_eq, if◌then◌else◌, get_elem?,
}
use sr_code.Prelude.Dict.{lookup, insert}
use sr_code.Prelude.Int.{ℤ, pos, negsuc}
use mathlib.Core.Option
use sr_code.Prelude.Strings.{cut, trim_space, atoi}
use sr_code.Telegram.Asks.{AskEntry, Asks, put_ask, take_ask, take_ask_by_thread}
use sr_code.Telegram.Topics.{TopicStore, session}
use sr_code.Hook
use Prim.Native.String

pub record User : Type 0 where
  pub id : ℕ
  pub is_bot : Bool

pub record Message : Type 0 where
  pub chat_id : ℕ
  pub message_thread_id : ℕ
  pub from : Option User
  pub text : String

-- `message_chat` is the chat of the button's message, if Telegram still knows the message.
pub record CallbackQuery : Type 0 where
  pub message_chat : Option ℕ
  pub from : User
  pub callback_data : String

pub record Hub : Type 0 where
  pub group : ℕ
  pub allowed : List (ℕ × Bool)
  pub questions : Asks
  pub topics : TopicStore
  pub hooks : Hook.Manager
  pub recent_sent : List (String × String)

pub data Call : Type 0 where
  send_to_session : String → String → Call
  notify_topic : ℕ → String → Call
  react : Call
  toast : String → Call
  clear_keyboard : Call

abbrev pub colon : ℕ
colon = b':'

-- `encodeDecision`, with kind a, d, s or i
unfoldable pub encode_decision : String → String → String
encode_decision kind pending_id = String.◌++◌ kind (String.◌++◌ ":" pending_id)

-- The behavior, the scope and the id of a button.
unfoldable pub decode_decision : String → Option (String × String × String)
unfolding cut
decode_decision callback_data = elim (cut colon callback_data) [
  | none ↦ none
  | some (kind, id) ↦
      if id == ""
      then none
      else if kind == "a"
      then some ("allow", "", id)
      else if kind == "s"
      then some ("allow", "session", id)
      else if kind == "d"
      then some ("deny", "", id)
      else if kind == "i"
      then some ("deny", "", id)
      else none
]

abbrev is_empty {ℓ} : {A : Type ℓ} → List A → Bool
is_empty [] = true
is_empty (x ∷ xs) = false

unfoldable pub authorized_chat : ℕ → Hub → Bool
authorized_chat chat_id h = nat_eq chat_id h.group

unfoldable pub authorized_sender : Option User → Hub → Bool
unfolding lookup
authorized_sender none h = false
authorized_sender (some u) h =
    if u.is_bot
    then false
    else if not (is_empty h.allowed) && not (Option.get_or (lookup u.id h.allowed) false)
    then false
    else true

unfoldable pub authorized : Message → Hub → Bool
unfolding authorized_chat authorized_sender
authorized m h = authorized_chat m.chat_id h && authorized_sender m.from h

-- An answer to the question, in the words of the user.
abbrev pub answer : AskEntry → String → Hook.Response
answer e text = record {
  behavior = "allow";
  reason = "via telegram";
  scope = "";
  answers = (e.question, text) ∷ [];
}

unfoldable pub answer_by_text : ℕ → String → Hub → Bool × Hub
unfolding take_ask_by_thread trim_space Hook.respond
answer_by_text thread text h =
    let (found, rest) = take_ask_by_thread thread h.questions in
    elim found [
      | none ↦ (false, h)
      | some (id, e) ↦ (
        true,
        record h {
          questions = rest;
          hooks = (Hook.respond id (answer e (trim_space text)) h.hooks).1;
        },
      )
    ]

-- `strings.SplitN(s, ":", 3)`, of three parts
unfoldable pub split_three : String → Option (String × String × String)
unfolding cut
split_three s = elim (cut colon s) [
  | none ↦ none
  | some (first, rest) ↦ elim (cut colon rest) [
    | none ↦ none
    | some (second, third) ↦ some (first, second, third)
  ]
]

-- The label of an index that may be no number, negative or too large.
unfoldable pub label_at : Option ℤ → List String → Option String
label_at none labels = none
label_at (some (negsuc n)) labels = none
label_at (some (pos n)) labels = get_elem? labels n

-- The question is taken before the index is looked at. (A toast is cut at 200 characters; that is left
-- out.)
unfoldable pub answer_tap : String → Option ℤ → Hub → List Call × Hub
unfolding take_ask label_at Hook.respond
answer_tap id idx h =
    let (found, rest) = take_ask id h.questions in
    elim found [
      | none ↦ (toast "expired" ∷ clear_keyboard ∷ [], h)
      | some e ↦ elim (label_at idx e.labels) [
        | none ↦ (toast "expired" ∷ clear_keyboard ∷ [], record h { questions = rest })
        | some label ↦
            let (error, hooks) = Hook.respond id (answer e label) h.hooks in
            (
              toast (elim error [
                | none ↦ String.◌++◌ "✅ " label
                | some reason ↦ "already resolved"
              ])
                  ∷ clear_keyboard
                  ∷ [],
              record h { questions = rest; hooks = hooks },
            )
      ]
    ]

unfoldable pub handle_ask_callback : CallbackQuery → Hub → List Call × Hub
unfolding split_three answer_tap atoi
handle_ask_callback cb h = elim (split_three cb.callback_data) [
  | none ↦ (toast "" ∷ [], h)
  | some (tag, id, index) ↦ answer_tap id (atoi index) h
]

unfoldable pub is_tagged : String → String → Bool
unfolding cut
is_tagged tag s = elim (cut colon s) [ none ↦ false | some (kind, rest) ↦ kind == tag ]

unfoldable pub decision_toast : String → String → String → String
unfolding is_tagged
decision_toast callback_data behavior scope =
    if is_tagged "i" callback_data
    then "🚫 ignored"
    else if behavior == "deny"
    then "⛔ denied"
    else if scope == "session"
    then "✅ always allowed"
    else "✅ allowed"

unfoldable pub decide : CallbackQuery → Hub → List Call × Hub
unfolding decode_decision decision_toast Hook.respond
decide cb h = elim (decode_decision cb.callback_data) [
  | none ↦ (toast "" ∷ [], h)
  | some (behavior, scope, id) ↦
      let (error, hooks) =
        Hook.respond id
          (record { behavior = behavior; reason = "via telegram"; scope = scope; answers = [] })
          h.hooks in
      (
        toast (elim error [
          | none ↦ decision_toast cb.callback_data behavior scope
          | some reason ↦ "already resolved"
        ])
            ∷ clear_keyboard
            ∷ [],
        record h { hooks = hooks },
      )
]

unfoldable pub handle_callback : CallbackQuery → Hub → List Call × Hub
unfolding authorized_chat authorized_sender is_tagged handle_ask_callback decide
handle_callback cb h = elim cb.message_chat [
  | none ↦ (toast "not authorized" ∷ [], h)
  | some chat ↦
      if not (authorized_chat chat h) || not (authorized_sender (some cb.from) h)
      then (toast "not authorized" ∷ [], h)
      else if is_tagged "q" cb.callback_data
      then handle_ask_callback cb h
      else decide cb h
]

-- `refused` is the error of the router's `SendToSession`.
unfoldable pub deliver_prompt : Option String → String → Message → Hub → List Call × Hub
unfolding insert trim_space
deliver_prompt refused session_id m h = (
  send_to_session session_id m.text ∷ elim refused [
    | none ↦ react ∷ []
    | some error ↦
        notify_topic m.message_thread_id (String.◌++◌ "⚠\u{fe0f} couldn't deliver: " error) ∷ []
  ],
  record h { recent_sent = insert session_id (trim_space m.text) h.recent_sent },
)

unfoldable pub route_message : Option String → Message → Hub → List Call × Hub
unfolding answer_by_text session deliver_prompt
route_message refused m h =
    let (answered, after) = answer_by_text m.message_thread_id m.text h in
    if answered then (react ∷ [], after) else elim (session m.message_thread_id h.topics) [
      | none ↦ ([], h)
      | some session_id ↦ deliver_prompt refused session_id m h
    ]

unfoldable pub handle_inbound : Option String → Message → Hub → List Call × Hub
unfolding authorized route_message trim_space
handle_inbound refused m h =
    if not (authorized m h)
    then ([], h)
    else if nat_eq m.message_thread_id 0 || (trim_space m.text == "")
    then ([], h)
    else route_message refused m h

pub record AskQuestion : Type 0 where
  pub question : String
  pub labels : List String

-- `sent` is whether the message with the question could be sent. Two questions at once are left to the
-- web page.
unfoldable pub post_ask_question : Bool → ℕ → String → List AskQuestion → Asks → Asks
unfolding put_ask take_ask
post_ask_question sent thread id (q ∷ []) a =
    let registered : Asks =
      put_ask id (record { question = q.question; labels = q.labels; thread = thread }) a in
    if sent then registered else (take_ask id registered).1
post_ask_question sent thread id [] a = if sent then a else (take_ask id a).1
post_ask_question sent thread id (q ∷ (q' ∷ qs)) a = if sent then a else (take_ask id a).1

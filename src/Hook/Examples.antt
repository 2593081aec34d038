-- ===== src/Hook/Examples.antt =====
-- One prompt of a session, answered by the user.
use sr_code.Prelude.{◌≡◌, refl, ◌⊎◌, false, none, some, [], ◌∷◌, nat_has_eq, string_has_eq}
use sr_code.Prelude.Dict.{lookup, insert, remove}
use sr_code.Hook.{
  Pending, Response, Event, answered, ctx_error, Manager, session_not_available, quick_decide,
  new_entry, waiting, leaving, submit, wake, deliver, begin_respond, respond,
}
use sr_code.Hook.Calls.{
  System, idle, entered, resumed, cleaned, send_response, sent, enters, resumes, cleans, replies,
  Run, here, further,
}
use sr_code.Hook.Calls.Sound.{IsSound, Reach-IsSound}
use sr_code.Hook.Calls.Ended.{HasEnded}
use sr_code.Hook.Calls.Answers.{answer_reaches, answer_is_lost}
use sr_code.Hook.Notify.{
  Subs, subscribe_pending, cancel_sub, snapshot, send_all, contains, cancel_during_notify,
}

abbrev bash : Event
bash = record {
  session_id = "s";
  tool_use_id = "t1";
  event = "PermissionRequest";
  tool_name = "Bash";
  tool_input = "{}";
  cwd = "/";
  allow_always = false;
}

abbrev allow : Response
allow = record { behavior = "allow"; reason = ""; scope = ""; answers = [] }

abbrev allow_session : Response
allow_session = record { behavior = "allow"; reason = ""; scope = "session"; answers = [] }

abbrev empty : Manager
empty = record { pending = []; auto_approve = []; auto_path = "" }

asks : quick_decide bash empty ≡ none
unfolding quick_decide
asks = refl

accepts : (respond "p1" allow (submit bash "p1" 7 empty).1).0 ≡ none
unfolding submit respond
accepts = refl

refuses_session :
    (respond "p1" allow_session (submit bash "p1" 7 empty).1).0 ≡ some session_not_available
unfolding submit respond
refuses_session = refl

-- Two calls are blocked, and a response to the first is on its way.
abbrev both_asked : System
both_asked = entered 1 bash "p2" 8 (entered 0 bash "p1" 7 idle)

abbrev replied : System
replied = record both_asked { replies = (0, ("p1", allow)) ∷ [] }

Run-replied : Run idle replied
unfolding submit lookup insert begin_respond
Run-replied =
    further
      (further (further here (enters 0 bash "p1" 7 refl refl refl))
        (enters 1 bash "p2" 8 refl refl refl))
      (replies 0 "p1" allow refl)

Reach-IsSound_example : IsSound replied
Reach-IsSound_example = Reach-IsSound replied Run-replied

-- The first call takes its answer.
abbrev taken : System
taken = resumed 0 (waiting "p1") false false (sent 0 "p1" allow replied)

abbrev finished : System
finished = cleaned 0 (leaving "p1" (answered allow)) taken

Run-finished : Run (sent 0 "p1" allow replied) finished
unfolding submit lookup insert remove wake send_response deliver
Run-finished =
    further (further here (resumes 0 (waiting "p1") false false refl))
      (cleans 0 (leaving "p1" (answered allow)) refl)

answer_reaches_example :
    ((lookup 0 finished.calls ≡ some (waiting "p1"))
      × ((wake false false (waiting "p1") finished.manager).0 ≡ leaving "p1" (answered allow)))
    ⊎ (HasEnded 0 "p1" (answered allow) finished ⊎ HasEnded 0 "p1" ctx_error finished)
unfolding submit lookup insert send_response deliver
answer_reaches_example =
    answer_reaches 0 0 "p1" allow replied finished Run-replied refl refl refl Run-finished

-- A second answer comes before the first call has deleted its prompt.
abbrev deny : Response
deny = record { behavior = "deny"; reason = ""; scope = ""; answers = [] }

answer_is_lost_example :
    (begin_respond "p1" deny taken.manager ≡ none)
    × ((send_response "p1" deny taken).0 ≡ none)
    × HasEnded 0 "p1" (answered allow) (sent 1 "p1" deny taken)
unfolding submit lookup insert wake send_response deliver new_entry
answer_is_lost_example =
    answer_is_lost 0 1 "p1" deny (answered allow) (new_entry bash "p1" 7) taken
      (sent 1 "p1" deny taken) refl refl refl refl here

abbrev one_sub : Subs
one_sub = record {
  registered = 0 ∷ [];
  heap = (0, record { buffer = []; capacity = 64; closed = false }) ∷ [];
  next = 1;
}

one_sub_lem : subscribe_pending (record { registered = []; heap = []; next = 0 }) ≡ one_sub
unfolding subscribe_pending
one_sub_lem = refl

abbrev shown_prompt : Pending
shown_prompt = record {
  id = "p1";
  session_id = "s";
  event = "PermissionRequest";
  tool_name = "Bash";
  tool_input = "{}";
  cwd = "/";
  allow_always = false;
  created_at = 7;
}

cancel_during_notify_example :
    send_all shown_prompt (snapshot one_sub) (cancel_sub 0 one_sub) ≡ none
unfolding contains lookup
cancel_during_notify_example =
    cancel_during_notify shown_prompt 0 one_sub
      (record { buffer = []; capacity = 64; closed = false }) refl refl

-- ===== src/Router/Queue/Examples.antt =====
-- Two sends of one session: the first has its turn while the second waits.
use sr_code.Prelude.{
  ◌≤◌, ◌≡◌, refl, ◌↔◌, true, none, some, [], ◌∷◌, ◌++◌, arith, nat_has_eq, string_has_eq, length,
}
use sr_code.Prelude.Dict.{lookup, insert, remove}
use sr_code.Router.Queue.{
  PendingSend, Router, max_queued_sends, new, queue_of, is_busy, refused, activate, enqueue_send,
  start_turn, clear_active, mark_send_idle, promote, release_send,
}
use sr_code.Router.Queue.Fifo.{of, firsts, takens, launching}
use sr_code.Router.Queue.Steps.{sends, starts, idles, releases, Reach, starts_empty, then_step}
use sr_code.Router.Queue.Order.{sends_in_order, no_send_is_stranded}
use sr_code.Router.Queue.Bounds.{full_queue_refuses}

abbrev first : PendingSend
first = record { text = "hello"; model = "" }

abbrev second : PendingSend
second = record { text = "go on"; model = "opus" }

abbrev runs_first : Router
runs_first = (enqueue_send "s" first new).1

abbrev second_waits : Router
second_waits = (enqueue_send "s" second runs_first).1

abbrev first_started : Router
first_started = start_turn 0 (record { session = "s"; launch = some first }) first second_waits

abbrev second_promoted : Router
second_promoted = release_send "s" 0 first_started

abbrev second_started : Router
second_started =
    start_turn 1 (record { session = "s"; launch = some second }) second second_promoted

abbrev second_idle : Router
second_idle = mark_send_idle "s" 1 second_started

abbrev all_ended : Router
all_ended = release_send "s" 1 second_idle

Reach-first_started : Reach first_started
unfolding lookup insert remove enqueue_send activate start_turn release_send clear_active promote
    queue_of is_busy
Reach-first_started =
    then_step (then_step (then_step starts_empty (sends "s" first)) (sends "s" second))
      (starts 0 (record { session = "s"; launch = some first }) first refl refl)

Reach-second_promoted : Reach second_promoted
unfolding lookup insert remove enqueue_send activate start_turn release_send clear_active promote
    queue_of is_busy
Reach-second_promoted =
    then_step Reach-first_started (releases 0 (record { session = "s"; launch = none }) refl refl)

Reach-all_ended : Reach all_ended
unfolding lookup insert remove enqueue_send activate start_turn release_send clear_active promote
    queue_of is_busy mark_send_idle
Reach-all_ended =
    then_step
      (then_step
        (then_step Reach-second_promoted
          (starts 1 (record { session = "s"; launch = some second }) second refl refl))
        (idles 1 (record { session = "s"; launch = none }) refl refl))
      (releases 1 (record { session = "s"; launch = none }) refl refl)

second_waits_in_line : queue_of "s" first_started ≡ second ∷ []
unfolding lookup insert remove enqueue_send activate start_turn release_send clear_active promote
    queue_of is_busy
second_waits_in_line = refl

both_launched : of "s" all_ended.launched ≡ (first, true) ∷ (second, true) ∷ []
unfolding lookup insert remove enqueue_send activate start_turn release_send clear_active promote
    queue_of is_busy mark_send_idle
both_launched = refl

sends_in_order_example :
    (of "s" first_started.accepted
      ≡ firsts (of "s" first_started.settled) ++ queue_of "s" first_started)
    × (takens (of "s" first_started.settled)
        ≡ firsts (of "s" first_started.launched) ++ launching "s" first_started)
sends_in_order_example = sends_in_order first_started Reach-first_started "s"

no_send_is_stranded_example :
    (of "s" all_ended.accepted ≡ firsts (of "s" all_ended.settled))
    × (takens (of "s" all_ended.settled) ≡ firsts (of "s" all_ended.launched))
unfolding lookup insert remove enqueue_send activate start_turn release_send clear_active promote
    queue_of is_busy mark_send_idle
no_send_is_stranded_example =
    no_send_is_stranded all_ended Reach-all_ended "s" (λ tok e at. absurd (ground (arith, at)))

full_queue_refuses_example :
    (((enqueue_send "s" first first_started).0 ≡ refused)
      ↔ (length (queue_of "s" first_started) ≡ max_queued_sends))
    × (length (queue_of "s" first_started) ≤ max_queued_sends)
    × (length (queue_of "s" ((enqueue_send "s" first first_started).1)) ≤ max_queued_sends)
full_queue_refuses_example = full_queue_refuses first_started Reach-first_started "s" first

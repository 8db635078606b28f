-- ===== src/Channel/PointerExamples.antt =====
-- Runs of the channel of src/channel.rs over the event's list in memory.
use unsend.Event.Listener
use unsend.Event.Inner
use unsend.Queue
use unsend.Event.World.{World, load, store, Run, ok, panic, fault}
use unsend.Base.{
  refl, [], ◌∷◌, List, ℕ, Bool, Option, some, none, ◌≡◌, ◌≢◌, ◌==◌, ◌||◌, arith, true,
}
use unsend.Event.Returns.{Returns}
use unsend.Event.Simulation.{Sim}
use unsend.Channel.{
  channel, at_start, at_await, returned, send, recv, recv_turn, recv_try, poll_waiting,
  drop_waiting, notify_tagged,
}
use unsend.Channel.Use.{new_traffic, send_step, recv_step}
use unsend.Channel.PointerEnds.{spec_of}
use unsend.Channel.PointerUse.{
  Action, Sides, send_item, begin_recv, poll_recv, remove_sender, channel_run, traffic_run,
  AllPermitted, traffic_step, channel_step,
}
use unsend.Channel.PointerRuns.{sides, waiting}
use unsend.Channel.PointerChannel.{channel_refines}
use unsend.Channel.Pointers.{
  pointer_send, pointer_send_open, pointer_recv, pointer_recv_turn, pointer_try, pointer_awaited,
  pointer_drop_sender, pointer_close,
}
use unsend.Queue.{take_item}
use unsend.Event.Notification.{single}
use unsend.Event.Inner.{inner_notify, notify_loop, next_tag, wake_state}
use unsend.Event.Program.{tagged}

-- Task 10 waits, 7 is sent to it, 8 is queued, task 10 gets 7, and the sender is dropped.
abbrev sent_two : List (Action ℕ)
sent_two =
    begin_recv 1 ∷ poll_recv 1 10 ∷ send_item 7 ∷ send_item 8 ∷ poll_recv 1 10 ∷ remove_sender ∷ []

at_start≢returned : at_start ≢ returned
at_start≢returned = ground arith

at_await≢returned : at_await ≢ returned
at_await≢returned = ground arith

sent_two-AllPermitted : AllPermitted sent_two new_traffic
unfolding traffic_step send_step recv_step send recv recv_turn recv_try channel poll_waiting
    drop_waiting notify_tagged Queue.poll_result Queue.notify Queue.drop Queue.poll Queue.delivered
sent_two-AllPermitted = (
  (omega arith, refl),
  (at_start≢returned, (omega arith, (omega arith, (at_await≢returned, (omega arith, tt))))),
)

channel_refines_example :
    Returns
      (λ h w.
        (h ≡ sides (traffic_run sent_two new_traffic))
        × Sim w (
            spec_of
              (traffic_run sent_two new_traffic).channel
              (waiting (traffic_run sent_two new_traffic).futures))
        × (h.ends.closed ≡ ((h.ends.senders == 0) || (h.ends.receivers == 0))))
      (channel_run sent_two (sides new_traffic) Listener.new_event)
channel_refines_example = channel_refines sent_two sent_two-AllPermitted

-- What was received, what is queued, whether the channel is closed, and which wakers were called.
abbrev outcome_of : Run (Sides ℕ × World (Option ℕ)) → Option (List ℕ × List ℕ × Bool × List ℕ)
outcome_of (ok (t, w)) = some (t.received, t.ends.queued, t.ends.closed, w.woken)
outcome_of panic = none
outcome_of fault = none

sent_two_run :
    outcome_of (channel_run sent_two (sides new_traffic) Listener.new_event)
    ≡ some (7 ∷ [], 8 ∷ [], true, 10 ∷ [])
unfolding channel_run channel_step pointer_send pointer_send_open pointer_recv pointer_recv_turn
    pointer_try pointer_awaited pointer_drop_sender pointer_close channel take_item
    Listener.new_event Listener.new Listener.listen Listener.poll Listener.drop Listener.insert
    Listener.remove Listener.register Listener.register_state Listener.settle Listener.link_tail
    Listener.unlink_prev Listener.unlink_next Listener.decrement_len Listener.decrement_notified
    Listener.drop_in_list Listener.same_pointer load store single Inner.notify inner_notify
    notify_loop next_tag wake_state tagged
sent_two_run = refl

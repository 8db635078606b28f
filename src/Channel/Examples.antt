-- ===== src/Channel/Examples.antt =====
-- Runs of the channel at concrete values.
use unsend.Queue
use unsend.Base.{refl, some, ◌≢◌, ℕ, ◌==◌, ◌≡◌, ◌∷◌, arith, [], false}
use unsend.Channel.{
  at_start, channel, at_await, send, returned, recv, recv_turn, recv_try, drop_recv, poll_waiting,
  notify_tagged,
}
use unsend.Channel.Use.{
  Traffic, send_step, Used, recv_step, new_traffic, recvs, set_recv, begins_recv, opens, sends,
}
use unsend.Channel.Accounts.{Balanced, Used-Balanced}
use unsend.Channel.Closing.{Consistent, Used-Consistent}
use unsend.Queue.{Waiter}
use unsend.Channel.Waking.{awaited, send-drop_recv}
use unsend.Channel.Fuel.{Ended, recv-Ended}

pub at_start≢returned : at_start ≢ returned
at_start≢returned = ground arith

-- A receiver waits at address 1, an item is sent to it, and it takes the item.
abbrev pub waiting : Traffic ℕ
waiting = recv_step 1 10 (record {
  channel = channel;
  futures = set_recv (λ a. returned) 1 at_start;
  sent = [];
  received = [];
})

abbrev pub sent_seven : Traffic ℕ
sent_seven = send_step 7 waiting

abbrev received_seven : Traffic ℕ
received_seven = recv_step 1 10 sent_seven

waiting-Used : Used waiting
unfolding channel
waiting-Used = recvs _ 1 10 at_start≢returned (begins_recv new_traffic 1 (omega arith) refl opens)

pub at_await≢returned : at_await ≢ returned
at_await≢returned = ground arith

received_seven-Used : Used received_seven
unfolding send_step recv_step recv recv_turn recv_try channel poll_waiting send notify_tagged
    Queue.poll_result
received_seven-Used =
    recvs sent_seven 1 10 at_await≢returned (sends waiting 7 (omega arith) waiting-Used)

received_seven_run : received_seven.received ≡ 7 ∷ []
unfolding send_step recv_step recv recv_turn recv_try channel poll_waiting send notify_tagged
    Queue.poll_result Queue.delivered Queue.quota Queue.poll Queue.notify
received_seven_run = refl

Used-Balanced_example : Balanced (λ x. x == 7) received_seven
Used-Balanced_example = Used-Balanced (λ x. x == 7) received_seven received_seven-Used

Used-Consistent_example :
    Consistent received_seven.channel
    × ((t : ℕ) → (send t received_seven.channel).0 ≡ received_seven.channel.closed)
Used-Consistent_example = Used-Consistent received_seven received_seven-Used

abbrev pub first : Waiter
first = record { id = 1; waker = some 10 }

abbrev pub second : Waiter
second = record { id = 2; waker = some 20 }

send-drop_recv_example :
    let s = send {T = ℕ} 7 (awaited (first ∷ []) 1 1 []) in
    let s' = drop_recv 1 at_await s.1 in
    (s.0 ≡ false) × (s'.queued ≡ []) × (s'.event ≡ Queue.empty) × (s'.lost ≡ 7 ∷ [])
send-drop_recv_example = send-drop_recv 7 1 1 first []

recv-Ended_example : let (r, _, s') = recv 1 10 at_await sent_seven.channel in Ended 1 10 (r, s')
recv-Ended_example = recv-Ended 1 10 at_await sent_seven.channel

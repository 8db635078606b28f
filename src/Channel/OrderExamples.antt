-- ===== src/Channel/OrderExamples.antt =====
-- Runs of the channel of src/channel.rs that show the order of items.
use unsend.Queue
use unsend.Base.{refl, ◌≡◌, ℕ, [], ◌∷◌, ◌++◌}
use unsend.Channel.{
  send, recv, at_await, item, recv_turn, recv_try, channel, poll_waiting, notify_tagged,
}
use unsend.Channel.Use.{Traffic, send_step, new_traffic, recv_step}
use unsend.Channel.Solo.{Solo, starts, calls, polls, passes}
use unsend.Channel.Fifo.{answer, contents}
use unsend.Channel.InOrder.{Solo-in_order, begun}
use unsend.Channel.Overtaking.{send-overtakes}
use unsend.Channel.Waking.{awaited}
use unsend.Channel.Examples.{first, second, waiting, sent_seven, at_start≢returned}

-- The item 7 is on its way to the receiver, and 8 is in the queue.
abbrev two_sent : Traffic ℕ
two_sent = send_step 8 sent_seven

two_sent-Solo : Solo 1 two_sent
two_sent-Solo =
    passes sent_seven 8
      (passes waiting 7 (polls _ 10 at_start≢returned (calls new_traffic refl starts)))

Solo-in_order_example :
    (two_sent.sent ≡ two_sent.received ++ contents two_sent.channel)
    × ((recv 1 10 (begun (two_sent.futures 1)) two_sent.channel).0
        ≡ answer (contents two_sent.channel) two_sent.channel.closed)
Solo-in_order_example = Solo-in_order 1 10 two_sent two_sent-Solo

two_sent-contents : contents two_sent.channel ≡ 7 ∷ 8 ∷ []
unfolding send_step recv_step recv recv_turn recv_try channel poll_waiting send notify_tagged
    Queue.poll_result Queue.delivered Queue.quota Queue.poll Queue.notify
two_sent-contents = refl

send-overtakes_example :
    let s = (send {T = ℕ} 8 (send 7 (awaited (first ∷ second ∷ []) 1 1 [])).1).1 in
    let r = recv 1 10 at_await s in
    let r' = recv 2 20 at_await (send 9 r.2).1 in
    (r.0 ≡ item 7)
    × (r.2.queued ≡ 8 ∷ [])
    × (r.2.event ≡ record { notices = []; waiters = second ∷ [] })
    × (r'.0 ≡ item 9)
    × (r'.2.queued ≡ 8 ∷ [])
send-overtakes_example = send-overtakes 7 8 9 10 20 1 1 first second [] [] refl

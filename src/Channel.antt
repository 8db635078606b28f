-- ===== src/Channel.antt =====
-- The channel. Models src/channel.rs; its event is the queue that Event/Refinement shows it to be.
pub mod Use
pub mod Delivery
pub mod Accounts
pub mod Closing
pub mod Waking
pub mod Fuel
pub mod Alone
pub mod Fifo
pub mod Solo
pub mod InOrder
pub mod Overtaking
pub mod Errors
pub mod Pointers
pub mod PointerEnds
pub mod PointerTurns
pub mod PointerUse
pub mod PointerRuns
pub mod PointerChannel
mod OrderExamples
mod PointerExamples
mod Examples
use unsend.Queue
use unsend.Event.Notification.{usize_max}
use unsend.Base.{
  none, some, List, ℕ, [], Bool, ◌+◌, true, ◌-◌, ◌^◌, false, Option, if◌then◌else◌, ◌++◌, suc, ◌==◌,
  length, ◌∷◌, zero, to_list,
}
use unsend.Queue.{Queue, lost_by, take_item}

-- `lost` collects the items that a listener was notified with and that nobody took over when it was
-- dropped; `woken` collects the wakers that were called.
pub record Channel (T : Type 0) : Type 0 where
  pub queued : List T
  pub closed : Bool
  pub senders : ℕ
  pub receivers : ℕ
  pub event : Queue (Option T)
  pub woken : List ℕ
  pub lost : List T

-- `Result<(), ChannelClosed>` is a `Bool` that is true for an error.
pub data TryRecv (T : Type 0) : Type 0 where
  ok : T → TryRecv T
  closed_error : TryRecv T
  empty_error : TryRecv T

-- What a poll of a `recv` future gives; `out_of_fuel` is for a loop that runs out of fuel.
pub data Recv (T : Type 0) : Type 0 where
  item : T → Recv T
  channel_closed : Recv T
  not_yet : Recv T
  out_of_fuel : Recv T

-- Where a `recv` future stands.
pub data RecvFuture : Type 0 where
  at_start : RecvFuture
  at_await : RecvFuture
  returned : RecvFuture

abbrev pub from_top : RecvFuture → Bool
from_top at_start = true
from_top at_await = false
from_top returned = false

module _ {T : Type 0} where
  -- `channel`.
  unfoldable pub channel : Channel T
  channel = record {
    queued = [];
    closed = false;
    senders = 1;
    receivers = 1;
    event = Queue.empty;
    woken = [];
    lost = [];
  }

  -- `event.notify(count.tag_with(f))`.
  unfoldable pub notify_tagged : ℕ → (ℕ → Option T) → Channel T → Channel T
  notify_tagged count f s = record s {
    event = Queue.notify count false f s.event;
    woken = s.woken ++ Queue.notify_wakes count false s.event;
  }

  -- `Sender::send`: the item is in the queue unless a listener took it.
  unfoldable pub send : T → Channel T → Bool × Channel T
  unfolding notify_tagged
  send t s =
      if s.closed
      then (true, s)
      else let s' = notify_tagged 1 (take_item t) s in
        let taken = Queue.delivered (Queue.quota 1 false s.event) s.event.waiters in
        (false, if taken == 0 then record s' { queued = s'.queued ++ t ∷ [] } else s')

  unfoldable pub clone_sender : Channel T → Channel T
  clone_sender s = record s { senders = s.senders + 1 }

  unfoldable pub clone_receiver : Channel T → Channel T
  clone_receiver s = record s { receivers = s.receivers + 1 }

  -- The channel closes, and everyone who waits is told.
  unfoldable pub close : Channel T → Channel T
  unfolding notify_tagged
  close s = notify_tagged usize_max (λ _. none) (record s { closed = true })

  unfoldable pub drop_sender : Channel T → Channel T
  unfolding close
  drop_sender s =
      let s' = record s { senders = s.senders - 1 } in if s'.senders == 0 then close s' else s'

  unfoldable pub drop_receiver : Channel T → Channel T
  unfolding close
  drop_receiver s =
      let s' = record s { receivers = s.receivers - 1 } in
      if s'.receivers == 0 then close s' else s'

  -- `pop_front`, and the error when there is nothing.
  unfoldable pub pop_front : List T → Channel T → TryRecv T × Channel T
  pop_front [] s = (if s.closed then closed_error else empty_error, s)
  pop_front (t ∷ ts) s = (ok t, record s { queued = ts })

  unfoldable pub try_recv : Channel T → TryRecv T × Channel T
  unfolding pop_front
  try_recv s = pop_front s.queued s

  unfoldable pub drop_waiting : ℕ → Channel T → Channel T
  unfolding lost_by
  drop_waiting a s = record s {
    event = Queue.drop a s.event;
    woken = s.woken ++ Queue.drop_wakes a s.event;
    lost = s.lost ++ lost_by a s.event;
  }

  unfoldable pub poll_waiting : ℕ → ℕ → Channel T → Channel T
  poll_waiting a v s = record s { event = Queue.poll a v s.event }

  -- The top of the loop of `recv`: the item in front, the end of the channel, or else `rest`.
  unfoldable pub recv_try : List T → Bool → ℕ → Channel T → Recv T × Channel T → Recv T × Channel T
  unfolding drop_waiting
  recv_try [] true a s rest = (channel_closed, drop_waiting a s)
  recv_try [] false a s rest = rest
  recv_try (t ∷ ts) closed a s rest = (item t, drop_waiting a (record s { queued = ts }))

  -- The loop of `recv`, from its top (`true`) or from the `.await` of the listener.
  unfoldable pub recv_turn : Bool → ℕ → ℕ → ℕ → Channel T → Recv T × Channel T
  unfolding recv_try drop_waiting poll_waiting
  recv_turn top zero a v s = (out_of_fuel, s)
  recv_turn true (suc fuel) a v s =
      let rest = recv_turn false fuel a v s in recv_try s.queued s.closed a s rest
  recv_turn false (suc fuel) a v s = elim (Queue.poll_result a s.event) [
    | none ↦ (not_yet, poll_waiting a v s)
    | some r ↦ elim r [
      | none ↦ recv_turn true fuel a v (poll_waiting a v s)
      | some t ↦ (item t, drop_waiting a (poll_waiting a v s))
    ]
  ]

  abbrev pub recv_after : Recv T → RecvFuture
  recv_after (item t) = returned
  recv_after channel_closed = returned
  recv_after not_yet = at_await
  recv_after out_of_fuel = at_await

  -- `Receiver::recv`, polled; each turn that goes round consumes a notification.
  unfoldable pub recv : ℕ → ℕ → RecvFuture → Channel T → Recv T × RecvFuture × Channel T
  unfolding recv_turn
  recv a v f s =
      let fuel = suc (suc (length s.event.notices + length s.event.notices)) in
      let (r, s') = recv_turn (from_top f) fuel a v s in (r, recv_after r, s')

  -- The drop of a `recv` future.
  unfoldable pub drop_recv : ℕ → RecvFuture → Channel T → Channel T
  unfolding drop_waiting
  drop_recv a at_start s = s
  drop_recv a at_await s = drop_waiting a s
  drop_recv a returned s = s

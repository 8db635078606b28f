-- ===== src/Channel/Use.antt =====
-- Any use of a channel: its ends, and its `recv` futures at their addresses.
use unsend.Channel
use unsend.Channel.{
  Channel, returned, Recv, TryRecv, send, try_recv, recv, drop_recv, RecvFuture, at_start, item, ok,
  channel_closed, closed_error, clone_sender, not_yet, empty_error, clone_receiver, out_of_fuel,
  drop_sender, drop_receiver,
}
use unsend.Base.{ℕ, ◌≤◌, [], List, ◌≡◌, if◌then◌else◌, ◌++◌, ◌==◌, ◌∷◌, ◌≢◌}

-- `sent` has the items that `send` accepted, and `received` those that receivers got.
pub record Traffic (T : Type 0) : Type 0 where
  pub channel : Channel T
  pub futures : ℕ → RecvFuture
  pub sent : List T
  pub received : List T

abbrev pub set_recv : (ℕ → RecvFuture) → ℕ → RecvFuture → ℕ → RecvFuture
set_recv fs a f b = if b == a then f else fs b

module _ {T : Type 0} where
  abbrev pub new_traffic : Traffic T
  new_traffic = record {
    channel = Channel.channel;
    futures = λ a. returned;
    sent = [];
    received = [];
  }

  abbrev pub got : Recv T → List T
  got (item t) = t ∷ []
  got channel_closed = []
  got not_yet = []
  got out_of_fuel = []

  abbrev pub taken : TryRecv T → List T
  taken (ok t) = t ∷ []
  taken closed_error = []
  taken empty_error = []

  unfoldable pub send_step : T → Traffic T → Traffic T
  unfolding send
  send_step t s =
      let (e, c) = send t s.channel in
      record s { channel = c; sent = if e then s.sent else s.sent ++ t ∷ [] }

  unfoldable pub try_recv_step : Traffic T → Traffic T
  unfolding try_recv
  try_recv_step s =
      let (r, c) = try_recv s.channel in record s { channel = c; received = s.received ++ taken r }

  unfoldable pub recv_step : ℕ → ℕ → Traffic T → Traffic T
  unfolding recv
  recv_step a v s =
      let (r, f, c) = recv a v (s.futures a) s.channel in
      record s { channel = c; futures = set_recv s.futures a f; received = s.received ++ got r }

  unfoldable pub drop_recv_step : ℕ → Traffic T → Traffic T
  unfolding drop_recv
  drop_recv_step a s = record s {
    channel = drop_recv a (s.futures a) s.channel;
    futures = set_recv s.futures a returned;
  }

  -- What ownership allows: an end is cloned or dropped while it is there.
  pub data Used : Traffic T → Type 0 where
    opens : Used new_traffic
    sends : (s : Traffic T) (t : T) → 1 ≤ s.channel.senders → Used s → Used (send_step t s)
    tries_recv : (s : Traffic T) → 1 ≤ s.channel.receivers → Used s → Used (try_recv_step s)
    begins_recv :
        (s : Traffic T) (a : ℕ)
        → 1 ≤ s.channel.receivers
        → s.futures a ≡ returned
        → Used s
        → Used (record s { futures = set_recv s.futures a at_start })
    recvs : (s : Traffic T) (a v : ℕ) → s.futures a ≢ returned → Used s → Used (recv_step a v s)
    drops_recv : (s : Traffic T) (a : ℕ) → Used s → Used (drop_recv_step a s)
    clones_sender :
        (s : Traffic T)
        → 1 ≤ s.channel.senders
        → Used s
        → Used (record s { channel = clone_sender s.channel })
    clones_receiver :
        (s : Traffic T)
        → 1 ≤ s.channel.receivers
        → Used s
        → Used (record s { channel = clone_receiver s.channel })
    drops_sender :
        (s : Traffic T)
        → 1 ≤ s.channel.senders
        → Used s
        → Used (record s { channel = drop_sender s.channel })
    drops_receiver :
        (s : Traffic T)
        → 1 ≤ s.channel.receivers
        → Used s
        → Used (record s { channel = drop_receiver s.channel })

-- ===== src/Channel/PointerUse.antt =====
-- Any use of the channel of src/channel.rs over its event's list in memory, and the same over the
-- queue.
use unsend.Event.World.{Cmd, pure, ◌>>=◌, ◌>>◌}
use unsend.Base.{ℕ, List, [], ◌∷◌, ◌++◌, ◌≡◌, ◌≢◌, ◌≤◌, ◌+◌, if◌then◌else◌, Option}
use unsend.Channel.{
  TryRecv, ok, closed_error, empty_error, RecvFuture, at_start, returned, recv_after, clone_sender,
  clone_receiver, drop_sender, drop_receiver,
}
use unsend.Channel.Use.{
  Traffic, set_recv, got, taken, send_step, try_recv_step, recv_step, drop_recv_step,
}
use unsend.Channel.Pointers.{
  Ends, pointer_send, pointer_drop_sender, pointer_drop_receiver, pointer_recv, pointer_drop_recv,
}

pub data Action (T : Type 0) : Type 0 where
  send_item : T → Action T
  try_receive : Action T
  begin_recv : ℕ → Action T
  poll_recv : ℕ → ℕ → Action T
  cancel_recv : ℕ → Action T
  add_sender : Action T
  add_receiver : Action T
  remove_sender : Action T
  remove_receiver : Action T

-- The channel besides its event, the `recv` futures, and what was sent and received.
pub record Sides (T : Type 0) : Type 0 where
  pub ends : Ends T
  pub futures : ℕ → RecvFuture
  pub sent : List T
  pub received : List T

module _ {T : Type 0} where
  unfoldable pub pointer_pop : List T → Ends T → TryRecv T × Ends T
  pointer_pop [] h = (if h.closed then closed_error else empty_error, h)
  pointer_pop (t ∷ ts) h = (ok t, record h { queued = ts })

  -- `Receiver::try_recv`, which leaves the event alone.
  unfoldable pub pointer_try_recv : Ends T → TryRecv T × Ends T
  unfolding pointer_pop
  pointer_try_recv h = pointer_pop h.queued h

  unfoldable pub channel_step : Action T → Sides T → Cmd (Option T) (Sides T)
  channel_step (send_item t) h = do
    r ← pointer_send t h.ends
    pure (record h { ends = r.1; sent = if r.0 then h.sent else h.sent ++ t ∷ [] })
  channel_step try_receive h =
      let r = pointer_try_recv h.ends in
      pure (record h { ends = r.1; received = h.received ++ taken r.0 })
  channel_step (begin_recv a) h = pure (record h { futures = set_recv h.futures a at_start })
  channel_step (poll_recv a v) h = do
    r ← pointer_recv a v (h.futures a) h.ends
    pure (record h {
      ends = r.1;
      futures = set_recv h.futures a (recv_after r.0);
      received = h.received ++ got r.0;
    })
  channel_step (cancel_recv a) h = do
    pointer_drop_recv a (h.futures a)
    pure (record h { futures = set_recv h.futures a returned })
  channel_step add_sender h =
      pure (record h { ends = record h.ends { senders = h.ends.senders + 1 } })
  channel_step add_receiver h =
      pure (record h { ends = record h.ends { receivers = h.ends.receivers + 1 } })
  channel_step remove_sender h = do e ← pointer_drop_sender h.ends; pure (record h { ends = e })
  channel_step remove_receiver h = do e ← pointer_drop_receiver h.ends; pure (record h { ends = e })

  unfoldable pub channel_run : List (Action T) → Sides T → Cmd (Option T) (Sides T)
  channel_run [] h = pure h
  channel_run (o ∷ os) h = do h' ← channel_step o h; channel_run os h'

  -- The same over the queue.
  unfoldable pub traffic_step : Action T → Traffic T → Traffic T
  traffic_step (send_item t) s = send_step t s
  traffic_step try_receive s = try_recv_step s
  traffic_step (begin_recv a) s = record s { futures = set_recv s.futures a at_start }
  traffic_step (poll_recv a v) s = recv_step a v s
  traffic_step (cancel_recv a) s = drop_recv_step a s
  traffic_step add_sender s = record s { channel = clone_sender s.channel }
  traffic_step add_receiver s = record s { channel = clone_receiver s.channel }
  traffic_step remove_sender s = record s { channel = drop_sender s.channel }
  traffic_step remove_receiver s = record s { channel = drop_receiver s.channel }

  unfoldable pub traffic_run : List (Action T) → Traffic T → Traffic T
  traffic_run [] s = s
  traffic_run (o ∷ os) s = traffic_run os (traffic_step o s)

  -- What ownership allows, as in Channel/Use.
  abbrev pub Permitted : Action T → Traffic T → Type 0
  Permitted (send_item t) s = 1 ≤ s.channel.senders
  Permitted try_receive s = 1 ≤ s.channel.receivers
  Permitted (begin_recv a) s = (1 ≤ s.channel.receivers) × (s.futures a ≡ returned)
  Permitted (poll_recv a v) s = s.futures a ≢ returned
  Permitted (cancel_recv a) s = Unit {0}
  Permitted add_sender s = 1 ≤ s.channel.senders
  Permitted add_receiver s = 1 ≤ s.channel.receivers
  Permitted remove_sender s = 1 ≤ s.channel.senders
  Permitted remove_receiver s = 1 ≤ s.channel.receivers

  abbrev pub AllPermitted : List (Action T) → Traffic T → Type 0
  AllPermitted [] s = Unit {0}
  AllPermitted (o ∷ os) s = Permitted o s × AllPermitted os (traffic_step o s)

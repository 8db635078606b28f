-- ===== src/Channel/Pointers.antt =====
-- The channel of src/channel.rs over the event of src/event.rs itself, with its list in memory, in
-- place of the queue that stands for it.
use unsend.Event.Listener
use unsend.Event.Inner
use unsend.Base.{
  ℕ, Bool, Option, none, some, zero, suc, ◌+◌, ◌-◌, List, [], ◌∷◌, ◌++◌, ◌==◌, true, false,
  if◌then◌else◌,
}
use unsend.Event.World.{Cmd, pure, ◌>>=◌, ◌>>◌, get}
use unsend.Event.Program.{tagged}
use unsend.Event.Notification.{usize_max}
use unsend.Queue.{take_item}
use unsend.Channel.{
  Recv, item, channel_closed, not_yet, out_of_fuel, RecvFuture, at_start, at_await, returned,
}

-- The channel besides its event.
pub record Ends (T : Type 0) : Type 0 where
  pub queued : List T
  pub closed : Bool
  pub senders : ℕ
  pub receivers : ℕ

module _ {T : Type 0} where
  -- `event.notify(count.tag_with(f))`.
  abbrev pub pointer_notify : ℕ → (ℕ → Option T) → Cmd (Option T) (ℕ × (ℕ × ℕ))
  pointer_notify count f = Inner.notify (tagged false f) (count, 0)

  -- `Sender::send` on an open channel.
  unfoldable pub pointer_send_open : T → Ends T → Cmd (Option T) (Bool × Ends T)
  pointer_send_open t h = do
    r ← pointer_notify 1 (take_item t)
    pure (false, if r.0 == 0 then record h { queued = h.queued ++ t ∷ [] } else h)

  unfoldable pub pointer_send : T → Ends T → Cmd (Option T) (Bool × Ends T)
  unfolding pointer_send_open
  pointer_send t h = if h.closed then pure (true, h) else pointer_send_open t h

  unfoldable pub pointer_close : Ends T → Cmd (Option T) (Ends T)
  pointer_close h = do
    let h' = record h { closed = true }
    _ ← pointer_notify usize_max (λ i. none)
    pure h'

  unfoldable pub pointer_drop_sender : Ends T → Cmd (Option T) (Ends T)
  unfolding pointer_close
  pointer_drop_sender h =
      let h' = record h { senders = h.senders - 1 } in
      if h'.senders == 0 then pointer_close h' else pure h'

  unfoldable pub pointer_drop_receiver : Ends T → Cmd (Option T) (Ends T)
  unfolding pointer_close
  pointer_drop_receiver h =
      let h' = record h { receivers = h.receivers - 1 } in
      if h'.receivers == 0 then pointer_close h' else pure h'

  -- The top of the loop of `recv`, which returns or goes on with `rest`.
  unfoldable pub pointer_try :
      List T
      → Bool
      → ℕ
      → Ends T
      → Cmd (Option T) (Recv T × Ends T)
      → Cmd (Option T) (Recv T × Ends T)
  pointer_try [] true a h rest = do Listener.drop a; pure (channel_closed, h)
  pointer_try [] false a h rest = rest
  pointer_try (t ∷ ts) c a h rest = do Listener.drop a; pure (item t, record h { queued = ts })

  -- What the `.await` of the listener gives.
  unfoldable pub pointer_awaited :
      Option (Option T)
      → ℕ
      → Ends T
      → Cmd (Option T) (Recv T × Ends T)
      → Cmd (Option T) (Recv T × Ends T)
  pointer_awaited none a h again = pure (not_yet, h)
  pointer_awaited (some none) a h again = again
  pointer_awaited (some (some t)) a h again = do Listener.drop a; pure (item t, h)

  unfoldable pub pointer_recv_turn : Bool → ℕ → ℕ → ℕ → Ends T → Cmd (Option T) (Recv T × Ends T)
  unfolding pointer_try pointer_awaited
  pointer_recv_turn top zero a v h = pure (out_of_fuel, h)
  pointer_recv_turn true (suc fuel) a v h =
      pointer_try h.queued h.closed a h (pointer_recv_turn false fuel a v h)
  pointer_recv_turn false (suc fuel) a v h = do
    r ← Listener.poll a v
    pointer_awaited r a h (pointer_recv_turn true fuel a v h)

  -- `Receiver::recv`, polled: its first poll makes the listener.
  unfoldable pub pointer_recv : ℕ → ℕ → RecvFuture → Ends T → Cmd (Option T) (Recv T × Ends T)
  unfolding pointer_recv_turn
  pointer_recv a v at_start h = do
    Listener.new a
    inner ← get
    pointer_recv_turn true (suc (suc (inner.notified + inner.notified))) a v h
  pointer_recv a v at_await h = do
    inner ← get
    pointer_recv_turn false (suc (suc (inner.notified + inner.notified))) a v h
  pointer_recv a v returned h = pure (out_of_fuel, h)

unfoldable pub pointer_drop_recv : {T : Type 0} → ℕ → RecvFuture → Cmd (Option T) (Unit {0})
pointer_drop_recv a at_start = pure tt
pointer_drop_recv a at_await = Listener.drop a
pointer_drop_recv a returned = pure tt

-- ===== src/Channel/Closing.antt =====
-- When the channel of src/channel.rs is closed, and what that tells those who wait.
use unsend.Base.{
  refl, none, some, ◌≡◌, List, arith, Bool, ℕ, ◌==◌, ◌∷◌, ◌||◌, [], suc, false, true, Option-cases,
  inl, inr, zero, length, ◌+◌,
}
use unsend.Channel.{
  Channel, recv_try, recv_turn, pop_front, drop_recv, send, channel, drop_waiting, notify_tagged,
  poll_waiting, Recv, RecvFuture, try_recv, at_start, recv, at_await, returned, clone_sender,
  clone_receiver, drop_sender, drop_receiver, close, from_top,
}
use unsend.Channel.Use.{
  opens, Traffic, send_step, Used, try_recv_step, recv_step, drop_recv_step, sends, tries_recv,
  begins_recv, recvs, drops_recv, clones_sender, clones_receiver, drops_sender, drops_receiver,
  opens,
}
use unsend.Queue.{poll_result}

module _ {T : Type 0} where
  -- The channel is closed once all senders or all receivers are gone.
  abbrev pub Consistent : Channel T → Type 0
  Consistent s = s.closed ≡ ((s.senders == 0) || (s.receivers == 0))

  -- What a receiver does leaves the ends of the channel.
  abbrev SameEnds : Channel T → Channel T → Type 0
  SameEnds s s' = (s'.closed ≡ s.closed) × (s'.senders ≡ s.senders) × (s'.receivers ≡ s.receivers)

  recv_try-SameEnds :
      (xs : List T) (c : Bool) (a : ℕ) (s : Channel T) (rest : Recv T × Channel T)
      → SameEnds s rest.1
      → SameEnds s (recv_try xs c a s rest).1
  unfolding recv_try drop_waiting
  recv_try-SameEnds [] true a s rest h = (refl, refl, refl)
  recv_try-SameEnds [] false a s rest h = h
  recv_try-SameEnds (t ∷ ts) c a s rest h = (refl, refl, refl)

  recv_turn-SameEnds :
      (top : Bool) (fuel a v : ℕ) (s : Channel T) → SameEnds s (recv_turn top fuel a v s).1
  unfolding recv_turn drop_waiting poll_waiting
  recv_turn-SameEnds true zero a v s = (refl, refl, refl)
  recv_turn-SameEnds false zero a v s = (refl, refl, refl)
  recv_turn-SameEnds true (suc fuel) a v s =
      recv_try-SameEnds s.queued s.closed a s (recv_turn false fuel a v s)
        (recv_turn-SameEnds false fuel a v s)
  recv_turn-SameEnds false (suc fuel) a v s = elim (Option-cases (poll_result a s.event)) [
    | inl e ↦ rw (e, recv_turn) (refl, refl, refl)
    | inr (none, e) ↦ rw (e, recv_turn) (recv_turn-SameEnds true fuel a v (poll_waiting a v s))
    | inr (some t, e) ↦ rw (e, recv_turn) (refl, refl, refl)
  ]

  pub recv-SameEnds : (a v : ℕ) (f : RecvFuture) (s : Channel T) → SameEnds s (recv a v f s).2
  unfolding recv
  recv-SameEnds a v f s =
      recv_turn-SameEnds (from_top f) (suc (suc (length s.event.notices + length s.event.notices)))
        a v s

  try_recv-SameEnds : (xs : List T) (s : Channel T) → SameEnds s (pop_front xs s).1
  unfolding pop_front
  try_recv-SameEnds [] s = (refl, refl, refl)
  try_recv-SameEnds (t ∷ ts) s = (refl, refl, refl)

  drop_recv-SameEnds : (a : ℕ) (f : RecvFuture) (s : Channel T) → SameEnds s (drop_recv a f s)
  unfolding drop_recv drop_waiting
  drop_recv-SameEnds a at_start s = (refl, refl, refl)
  drop_recv-SameEnds a at_await s = (refl, refl, refl)
  drop_recv-SameEnds a returned s = (refl, refl, refl)

  pub send-SameEnds : (t : T) (s : Channel T) → SameEnds s (send t s).1
  unfolding send notify_tagged
  send-SameEnds t s = ground arith

  same_ends : (s s' : Channel T) → SameEnds s s' → Consistent s → Consistent s'
  same_ends s s' (c, m, n) h = ground arith

  send-closed : (t : T) (s : Channel T) → (send t s).0 ≡ s.closed
  unfolding send
  send-closed t s = ground arith

  ends_lem : (s : Traffic T) → Used s → Consistent s.channel
  unfolding channel send_step try_recv_step try_recv recv_step drop_recv_step clone_sender
      clone_receiver drop_sender drop_receiver close notify_tagged
  ends_lem _ opens = refl
  ends_lem _ (sends s t l u) =
      same_ends s.channel (send t s.channel).1 (send-SameEnds t s.channel) (ends_lem s u)
  ends_lem _ (tries_recv s l u) =
      same_ends s.channel (pop_front s.channel.queued s.channel).1
        (try_recv-SameEnds s.channel.queued s.channel) (ends_lem s u)
  ends_lem _ (begins_recv s a l f u) = ends_lem s u
  ends_lem _ (recvs s a v n u) =
      same_ends s.channel (recv a v (s.futures a) s.channel).2
        (recv-SameEnds a v (s.futures a) s.channel) (ends_lem s u)
  ends_lem _ (drops_recv s a u) =
      same_ends s.channel (drop_recv a (s.futures a) s.channel)
        (drop_recv-SameEnds a (s.futures a) s.channel) (ends_lem s u)
  ends_lem _ (clones_sender s l u) = ground (arith, ends_lem s u)
  ends_lem _ (clones_receiver s l u) = ground (arith, ends_lem s u)
  ends_lem _ (drops_sender s l u) = ground (arith, ends_lem s u)
  ends_lem _ (drops_receiver s l u) = ground (arith, ends_lem s u)

  -- However a channel is used, it is closed exactly when no sender or no receiver is left, and `send`
  -- fails exactly when it is closed.
  pub Used-Consistent :
      (s : Traffic T)
      → Used s
      → Consistent s.channel × ((t : T) → (send t s.channel).0 ≡ s.channel.closed)
  Used-Consistent s u = (ends_lem s u, λ t. send-closed t s.channel)

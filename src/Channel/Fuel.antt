-- ===== src/Channel/Fuel.antt =====
-- How the loop of `Receiver::recv` in src/channel.rs comes to its end.
use unsend.Base.{
  refl, none, some, [], Bool, ℕ, List, true, false, ◌≡◌, length, arith, ◌∷◌, ◌+◌, ◌≤◌, suc,
  Option-cases, inl, inr, ap, zero, ◌⊎◌,
}
use unsend.Channel.{
  Recv, recv_try, recv_turn, recv, poll_waiting, drop_waiting, item, Channel, RecvFuture,
  channel_closed, not_yet, at_start, at_await, returned,
}
use unsend.Queue.{poll_result}
use unsend.Queue.Polled.{poll-some}
use unsend.Queue.Sleeping.{sleeps, poll-sleeps}

abbrev turns : Bool → ℕ
turns true = 2
turns false = 1

module _ {T : Type 0} where
  -- How a poll of the future at `a` with the waker `v` ended: with an item, with an error as the
  -- channel is closed and empty, or with its listener waiting with the waker.
  abbrev pub Ended : ℕ → ℕ → Recv T × Channel T → Type 0
  Ended a v r =
      ((t : T) × (r.0 ≡ item t))
      ⊎ (((r.0 ≡ channel_closed) × (r.1.closed ≡ true) × (r.1.queued ≡ []))
          ⊎ ((r.0 ≡ not_yet) × (sleeps a v r.1.event.waiters ≡ true)))

  recv_try-Ended :
      (xs : List T) (c : Bool) (a v : ℕ) (s : Channel T) (rest : Recv T × Channel T)
      → s.queued ≡ xs
      → s.closed ≡ c
      → Ended a v rest
      → Ended a v (recv_try xs c a s rest)
  unfolding recv_try drop_waiting
  recv_try-Ended [] true a v s rest e f h = inr (inl (refl, f, e))
  recv_try-Ended [] false a v s rest e f h = h
  recv_try-Ended (t ∷ ts) c a v s rest e f h = inl (t, refl)

  recv_turn-Ended :
      (top : Bool) (fuel a v : ℕ) (s : Channel T)
      → length s.event.notices + length s.event.notices + turns top ≤ fuel
      → Ended a v (recv_turn top fuel a v s)
  unfolding recv_turn poll_waiting
  recv_turn-Ended true zero a v s l = absurd (omega arith)
  recv_turn-Ended false zero a v s l = absurd (omega arith)
  recv_turn-Ended true (suc fuel) a v s l =
      recv_try-Ended s.queued s.closed a v s (recv_turn false fuel a v s) refl refl
        (recv_turn-Ended false fuel a v s (omega arith))
  recv_turn-Ended false (suc fuel) a v s l = elim (Option-cases (poll_result a s.event)) [
    | inl e ↦ rw (e, recv_turn) (inr (inr (refl, poll-sleeps a v s.event e)))
    | inr (none, e) ↦
        let (p, q, _) = poll-some a v s.event none e in
        rw (e, recv_turn)
          (recv_turn-Ended true fuel a v (poll_waiting a v s)
            (omega (arith, q, ap (λ x. length x.notices) p)))
    | inr (some t, e) ↦ rw (e, recv_turn) (inl (t, refl))
  ]

  -- A poll of a `recv` future always comes to an end: with an item; with the error of a closed
  -- channel, and then the channel is closed and its queue is empty; or it goes on waiting, and then
  -- its listener waits in the event with the waker of the poll.
  pub recv-Ended :
      (a v : ℕ) (f : RecvFuture) (s : Channel T)
      → let (r, _, s') = recv a v f s in Ended a v (r, s')
  unfolding recv
  recv-Ended a v at_start s =
      recv_turn-Ended true (suc (suc (length s.event.notices + length s.event.notices))) a v s
        (omega arith)
  recv-Ended a v at_await s =
      recv_turn-Ended false (suc (suc (length s.event.notices + length s.event.notices))) a v s
        (omega arith)
  recv-Ended a v returned s =
      recv_turn-Ended false (suc (suc (length s.event.notices + length s.event.notices))) a v s
        (omega arith)

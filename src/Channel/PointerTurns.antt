-- ===== src/Channel/PointerTurns.antt =====
-- A `recv` future of src/channel.rs over the event's list in memory, polled or dropped, does what it
-- does over the queue.
use unsend.Event.Listener
use unsend.Event.Returns
use unsend.Queue
use unsend.Base.{
  refl, ℕ, Bool, Option, none, some, zero, suc, ◌≡◌, true, false, sym, subst, List, [], ◌∷◌, length,
  ◌+◌, ap, ◌≢◌,
}
use unsend.Event.World.{World, Cmd, pure, ◌>>◌}
use unsend.Event.Returns.{Returns, returns}
use unsend.Event.Program.{set_live}
use unsend.Event.Simulation.{
  set_live-kept, Sim, poll-Sim, drop-Sim, new-Sim, set_live-same, set_live-twice,
}
use unsend.Channel.{
  Channel, Recv, item, channel_closed, not_yet, out_of_fuel, recv_after, recv_turn, recv_try,
  drop_waiting, poll_waiting, recv, drop_recv, RecvFuture, at_start, returned, at_await,
}
use unsend.Channel.Fifo.{awaits}
use unsend.Channel.Pointers.{
  Ends, pointer_try, pointer_awaited, pointer_recv_turn, pointer_recv, pointer_drop_recv,
}
use unsend.Channel.PointerEnds.{ends, spec_of, Sim-live}

module _ {T : Type 0} where
  -- A poll of the future at `a` over the list gives what it gives over the queue, and its listener is
  -- there while it waits.
  abbrev pub Same :
      ℕ → (ℕ → Bool) → Recv T × Channel T → Recv T × Ends T → World (Option T) → Type 0
  Same a live p r w =
      (r.0 ≡ p.0)
      × (r.1 ≡ ends p.1)
      × Sim w (spec_of p.1 (set_live live a (awaits (recv_after r.0))))

  module _ (a v : ℕ) (live : ℕ → Bool) (here : live a ≡ true) where
    waits :
        (p : Recv T) (s : Channel T) (w : World (Option T))
        → awaits (recv_after p) ≡ true
        → Sim w (spec_of s live)
        → Same a live (p, s) (p, ends s) w
    waits p s w e m = (
      refl,
      refl,
      subst (λ b. Sim w (spec_of s (set_live live a b))) (sym e)
          (Sim-live w s live (set_live live a true) (set_live-kept live a true here) m),
    )

    dropped :
        (p : Recv T) (s : Channel T) (w : World (Option T))
        → awaits (recv_after p) ≡ false
        → Sim w (spec_of s live)
        → Returns (Same a live (p, drop_waiting a s)) ((do Listener.drop a; pure (p, ends s)) w)
    unfolding drop_waiting
    dropped p s w e m = Returns.bind (drop-Sim a w (spec_of s live) m here) λ _ w' n.
        returns (
          refl,
          refl,
          subst (λ b. Sim w' (spec_of (drop_waiting a s) (set_live live a b))) (sym e) n,
        )

    try_refines :
        (ts : List T) (c : Bool) (s : Channel T) (w : World (Option T)) (p : Recv T × Channel T)
        (rest : Cmd (Option T) (Recv T × Ends T))
        → Sim w (spec_of s live)
        → Returns (Same a live p) (rest w)
        → Returns (Same a live (recv_try ts c a s p)) (pointer_try ts c a (ends s) rest w)
    unfolding recv_try pointer_try
    try_refines [] true s w p rest m next = dropped channel_closed s w refl m
    try_refines [] false s w p rest m next = next
    try_refines (t ∷ ts) c s w p rest m next = dropped (item t) (record s { queued = ts }) w refl m

    awaited_refines :
        (fuel : ℕ) (s : Channel T) (r : Option (Option T)) (w : World (Option T))
        → r ≡ Queue.poll_result a s.event
        → Sim w (spec_of (poll_waiting a v s) live)
        → Returns
            (Same a live (recv_turn true fuel a v (poll_waiting a v s)))
            (pointer_recv_turn true fuel a v (ends s) w)
        → Returns
            (Same a live (recv_turn false (suc fuel) a v s))
            (pointer_awaited r a (ends s) (pointer_recv_turn true fuel a v (ends s)) w)
    unfolding recv_turn poll_waiting pointer_awaited
    awaited_refines fuel s none w e m next =
        rw (sym e, recv_turn) (returns (waits not_yet (poll_waiting a v s) w refl m))
    awaited_refines fuel s (some none) w e m next = rw (sym e, recv_turn) next
    awaited_refines fuel s (some (some t)) w e m next =
        rw (sym e, recv_turn) (dropped (item t) (poll_waiting a v s) w refl m)

    -- The loop, whose fuel counts the same turns.
    pub turn_refines :
        (top : Bool) (fuel : ℕ) (s : Channel T) (w : World (Option T))
        → Sim w (spec_of s live)
        → Returns
            (Same a live (recv_turn top fuel a v s))
            (pointer_recv_turn top fuel a v (ends s) w)
    unfolding recv_turn pointer_recv_turn poll_waiting
    turn_refines true zero s w m = returns (waits out_of_fuel s w refl m)
    turn_refines false zero s w m = returns (waits out_of_fuel s w refl m)
    turn_refines true (suc fuel) s w m =
        try_refines s.queued s.closed s w (recv_turn false fuel a v s)
          (pointer_recv_turn false fuel a v (ends s)) m (turn_refines false fuel s w m)
    turn_refines false (suc fuel) s w m =
        Returns.bind (poll-Sim a v w (spec_of s live) m here) λ r w' (e, n).
          awaited_refines fuel s r w' e n (turn_refines true fuel (poll_waiting a v s) w' n)

  fuelled :
      (a v : ℕ) (live : ℕ → Bool) (top : Bool) (s : Channel T) (w : World (Option T))
      → live a ≡ true
      → Sim w (spec_of s live)
      → Returns
          (Same a live
            (recv_turn top (suc (suc (length s.event.notices + length s.event.notices))) a v s))
          (pointer_recv_turn top (suc (suc (w.inner.notified + w.inner.notified))) a v (ends s) w)
  fuelled a v live top s w h m =
      let n = length s.event.notices in
      rw (ap (λ k. suc (suc (k + k))) m.rep.notified)
        (turn_refines a v live h top (suc (suc (n + n))) s w m)

  pub recv_refines :
      (a v : ℕ) (live : ℕ → Bool) (f : RecvFuture) (s : Channel T) (w : World (Option T))
      → f ≢ returned
      → live a ≡ awaits f
      → Sim w (spec_of s live)
      → let (r, _, s') = recv a v f s in
        Returns (Same a live (r, s')) (pointer_recv a v f (ends s) w)
  unfolding recv pointer_recv
  recv_refines a v live at_start s w n h m =
      Returns.bind (new-Sim a w (spec_of s live) m h) λ _ w' m'.
        Returns.mono (fuelled a v (set_live live a true) true s w' (set_live-same live a true) m')
          λ r w'' (e, i, k). (
            e,
            i,
            Sim-live w'' (recv a v at_start s).2 _ _
                (set_live-twice live a true (awaits (recv_after r.0))) k,
          )
  recv_refines a v live at_await s w n h m = fuelled a v live false s w h m
  recv_refines a v live returned s w n h m = absurd (n refl)

  pub drop_recv_refines :
      (a : ℕ) (live : ℕ → Bool) (f : RecvFuture) (s : Channel T) (w : World (Option T))
      → live a ≡ awaits f
      → Sim w (spec_of s live)
      → Returns
          (λ _ w'. Sim w' (spec_of (drop_recv a f s) (set_live live a false)))
          (pointer_drop_recv a f w)
  unfolding drop_recv pointer_drop_recv drop_waiting
  drop_recv_refines a live at_start s w h m =
      returns (Sim-live w s live (set_live live a false) (set_live-kept live a false h) m)
  drop_recv_refines a live at_await s w h m = drop-Sim a w (spec_of s live) m h
  drop_recv_refines a live returned s w h m =
      returns (Sim-live w s live (set_live live a false) (set_live-kept live a false h) m)

  pub drop_recv-ends : (a : ℕ) (f : RecvFuture) (s : Channel T) → ends s ≡ ends (drop_recv a f s)
  unfolding drop_recv drop_waiting
  drop_recv-ends a at_start s = refl
  drop_recv-ends a at_await s = refl
  drop_recv-ends a returned s = refl

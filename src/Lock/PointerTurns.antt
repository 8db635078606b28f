-- ===== src/Lock/PointerTurns.antt =====
-- A future of a lock of src/lock/ over the event's list in memory, polled or dropped, does what it
-- does over the queue.
use unsend.Event.Returns
use unsend.Queue
use unsend.Base.{
  refl, ℕ, Bool, Option, none, some, zero, suc, ◌≡◌, true, false, ◌∙◌, sym, Option-cases, inl, inr,
  ◌+◌, ap, ◌≢◌,
}
use unsend.Event.World.{World}
use unsend.Event.Returns.{Returns, returns}
use unsend.Event.Program.{Spec, set_live}
use unsend.Event.Simulation.{
  set_live-kept, Sim, poll-Sim, drop-Sim, new-Sim, set_live-same, set_live-twice,
}
use unsend.Lock.Wait.{
  Shared, Progress, Future, start, awaiting, finished, after, turn, poll_listener, drop_listener,
  enough, poll_future, drop_future,
}
use unsend.Lock.Pointers.{pointer_turn, after_await, pointer_poll, pointer_drop}

abbrev pub lives : Future → Bool
lives start = false
lives awaiting = true
lives finished = false

module _ {S : Type 0} where
  -- The specification of the event of a lock.
  abbrev pub spec_of : Shared S → (ℕ → Bool) → Spec (Unit {0})
  spec_of s live = record { queue = s.event; woken = s.woken; live = live }

  pub Sim-live :
      (w : World (Unit {0})) (s : Shared S) (live live' : ℕ → Bool)
      → ((b : ℕ) → live b ≡ live' b)
      → Sim w (spec_of s live)
      → Sim w (spec_of s live')
  Sim-live w s live live' h m = record { rep = m.rep; woken = m.woken; live = λ b. m.live b ∙ h b }

  -- A poll over the list made the same progress as one over the queue, and ends in a world that stands
  -- for its queue; the listener is there while the future waits.
  abbrev pub Same : ℕ → (ℕ → Bool) → Progress × Shared S → Progress × S → World (Unit {0}) → Type 0
  Same a live p r w =
      (r.0 ≡ p.0) × (r.1 ≡ p.1.inner) × Sim w (spec_of p.1 (set_live live a (lives (after r.0))))

  module _ (try : S → Option S) (a v : ℕ) (live : ℕ → Bool) (here : live a ≡ true) where
    polled_turn :
        (fuel : ℕ) (s : Shared S) (r : Option (Unit {0})) (w : World (Unit {0}))
        → r ≡ Queue.poll_result a s.event
        → Sim w (spec_of (poll_listener a v s) live)
        → Returns
            (Same a live (turn true fuel try a v (poll_listener a v s)))
            (pointer_turn true fuel try a v s.inner w)
        → Returns
            (Same a live (turn false (suc fuel) try a v s))
            (after_await r s.inner (pointer_turn true fuel try a v s.inner) w)
    unfolding turn poll_listener
    polled_turn fuel s none w e m next =
        rw (sym e, turn)
          (returns (
            refl,
            refl,
            Sim-live w (poll_listener a v s) live (set_live live a true)
                (set_live-kept live a true here) m,
          ))
    polled_turn fuel s (some t) w e m next = rw (sym e, turn) next

    -- The loop, whose fuel counts the same turns.
    pub turn_refines :
        (top : Bool) (fuel : ℕ) (s : Shared S) (w : World (Unit {0}))
        → Sim w (spec_of s live)
        → Returns (Same a live (turn top fuel try a v s)) (pointer_turn top fuel try a v s.inner w)
    unfolding turn pointer_turn poll_listener drop_listener
    turn_refines true zero s w m =
        returns
          (refl, refl, Sim-live w s live (set_live live a true) (set_live-kept live a true here) m)
    turn_refines false zero s w m =
        returns
          (refl, refl, Sim-live w s live (set_live live a true) (set_live-kept live a true here) m)
    turn_refines true (suc fuel) s w m = elim (Option-cases (try s.inner)) [
      | inl e ↦ rw (e, turn, pointer_turn) (turn_refines false fuel s w m)
      | inr (i, e) ↦
          rw (e, turn, pointer_turn)
            (Returns.bind (drop-Sim a w (spec_of s live) m here) λ r w' n. returns (refl, refl, n))
    ]
    turn_refines false (suc fuel) s w m =
        Returns.bind (poll-Sim a v w (spec_of s live) m here) λ r w' (e, n).
          polled_turn fuel s r w' e n (turn_refines true fuel (poll_listener a v s) w' n)

  fuel-enough :
      (w : World (Unit {0})) (s : Shared S) (live : ℕ → Bool)
      → Sim w (spec_of s live)
      → suc (suc (w.inner.notified + w.inner.notified)) ≡ enough s
  fuel-enough w s live m = ap (λ n. suc (suc (n + n))) m.rep.notified

  fuelled :
      (try : S → Option S) (a v : ℕ) (live : ℕ → Bool) (top : Bool) (s : Shared S)
      (w : World (Unit {0}))
      → live a ≡ true
      → Sim w (spec_of s live)
      → Returns
          (Same a live (turn top (enough s) try a v s))
          (pointer_turn top (suc (suc (w.inner.notified + w.inner.notified))) try a v s.inner w)
  fuelled try a v live top s w h m =
      rw (fuel-enough w s live m) (turn_refines try a v live h top (enough s) s w m)

  pub poll_refines :
      (try : S → Option S) (a v : ℕ) (live : ℕ → Bool) (f : Future) (s : Shared S)
      (w : World (Unit {0}))
      → f ≢ finished
      → live a ≡ lives f
      → Sim w (spec_of s live)
      → let (r, _, s') = poll_future try a v f s in
        Returns (Same a live (r, s')) (pointer_poll try a v f s.inner w)
  unfolding poll_future pointer_poll
  poll_refines try a v live start s w n h m =
      Returns.bind (new-Sim a w (spec_of s live) m h) λ _ w' m'.
        Returns.mono
          (fuelled try a v (set_live live a true) true s w' (set_live-same live a true) m')
          λ r w'' (e, i, k). (
            e,
            i,
            Sim-live w'' (turn true (enough s) try a v s).1 _ _
                (set_live-twice live a true (lives (after r.0))) k,
          )
  poll_refines try a v live awaiting s w n h m = fuelled try a v live false s w h m
  poll_refines try a v live finished s w n h m = absurd (n refl)

  pub drop_refines :
      (a : ℕ) (live : ℕ → Bool) (f : Future) (s : Shared S) (w : World (Unit {0}))
      → live a ≡ lives f
      → Sim w (spec_of s live)
      → Returns
          (λ _ w'. Sim w' (spec_of (drop_future a f s) (set_live live a false)))
          (pointer_drop a f w)
  unfolding drop_future pointer_drop drop_listener
  drop_refines a live start s w h m =
      returns (Sim-live w s live (set_live live a false) (set_live-kept live a false h) m)
  drop_refines a live awaiting s w h m = drop-Sim a w (spec_of s live) m h
  drop_refines a live finished s w h m =
      returns (Sim-live w s live (set_live live a false) (set_live-kept live a false h) m)

-- ===== src/Channel/PointerEnds.antt =====
-- The two ends of src/channel.rs over the event's list in memory do what they do over the queue.
use unsend.Event.Returns
use unsend.Queue
use unsend.Base.{
  refl, ℕ, Bool, Option, none, ◌-◌, ◌≡◌, true, false, ap, ◌∙◌, sym, subst, Bool-cases, inl, inr,
  ◌==◌, if◌then◌else◌, [], ◌∷◌, ◌++◌,
}
use unsend.Event.World.{World, pure}
use unsend.Event.Returns.{Returns, returns}
use unsend.Event.Program.{Spec}
use unsend.Event.Notification.{usize_max}
use unsend.Event.Simulation.{Sim, notify-Sim}
use unsend.Queue.{take_item, poll_result}
use unsend.Channel.{Channel, send, notify_tagged, close, drop_sender, drop_receiver}
use unsend.Channel.Pointers.{
  Ends, pointer_notify, pointer_send, pointer_send_open, pointer_close, pointer_drop_sender,
  pointer_drop_receiver,
}

module _ {T : Type 0} where
  abbrev pub ends : Channel T → Ends T
  ends s = record {
    queued = s.queued;
    closed = s.closed;
    senders = s.senders;
    receivers = s.receivers;
  }

  -- The specification of the event of a channel.
  abbrev pub spec_of : Channel T → (ℕ → Bool) → Spec (Option T)
  spec_of s live = record { queue = s.event; woken = s.woken; live = live }

  pub Sim-live :
      (w : World (Option T)) (s : Channel T) (live live' : ℕ → Bool)
      → ((b : ℕ) → live b ≡ live' b)
      → Sim w (spec_of s live)
      → Sim w (spec_of s live')
  Sim-live w s live live' h m = record { rep = m.rep; woken = m.woken; live = λ b. m.live b ∙ h b }

  module _ (live : ℕ → Bool) where
    -- An operation of the ends had the same result as over the queue.
    abbrev pub Done : {A : Type 0} → A × Channel T → A × Ends T → World (Option T) → Type 0
    Done p r w = (r.0 ≡ p.0) × (r.1 ≡ ends p.1) × Sim w (spec_of p.1 live)

    notify_one_refines :
        (count : ℕ) (f : ℕ → Option T) (s : Channel T) (w : World (Option T))
        → Sim w (spec_of s live)
        → Returns
            (λ r w'.
              (r.0 ≡ Queue.delivered (Queue.quota count false s.event) s.event.waiters)
              × Sim w' (spec_of (notify_tagged count f s) live))
            (pointer_notify count f w)
    unfolding notify_tagged
    notify_one_refines count f s w m = notify-Sim count false f w (spec_of s live) m

    -- Whether the item is queued.
    queued_if :
        (b : Bool) (t : T) (u : Channel T) (w : World (Option T))
        → Sim w (spec_of u live)
        → Done
            (false, if b then record u { queued = u.queued ++ t ∷ [] } else u)
            (false, if b then record (ends u) { queued = u.queued ++ t ∷ [] } else ends u)
            w
    queued_if true t u w m = (refl, refl, m)
    queued_if false t u w m = (refl, refl, m)

    abbrev sent_open : T → Channel T → Bool × Channel T
    sent_open t s =
        let u = notify_tagged 1 (take_item t) s in
        let taken = Queue.delivered (Queue.quota 1 false s.event) s.event.waiters in
        (false, if taken == 0 then record u { queued = u.queued ++ t ∷ [] } else u)

    send_if :
        (b : Bool) (t : T) (s : Channel T)
        → s.closed ≡ b
        → send t s ≡ (if b then (true, s) else sent_open t s)
    unfolding send
    send_if b t s c = ap (λ b'. if b' then (true, s) else sent_open t s) c

    send_open_refines :
        (t : T) (s : Channel T) (w : World (Option T))
        → Sim w (spec_of s live)
        → Returns (Done (sent_open t s)) (pointer_send_open t (ends s) w)
    unfolding pointer_send_open notify_tagged
    send_open_refines t s w m =
        let u = notify_tagged 1 (take_item t) s in
        let taken = Queue.delivered (Queue.quota 1 false s.event) s.event.waiters in
        Returns.bind (notify_one_refines 1 (take_item t) s w m) λ r w' (e, n). returns (
          subst
            (λ k.
              Done (sent_open t s)
                (false, if k == 0 then record (ends s) { queued = s.queued ++ t ∷ [] } else ends s)
                w')
            (sym e) (queued_if (taken == 0) t u w' n))

    pointer_send_if :
        (b : Bool) (t : T) (h : Ends T)
        → h.closed ≡ b
        → pointer_send t h ≡ (if b then pure (true, h) else pointer_send_open t h)
    unfolding pointer_send
    pointer_send_if b t h c = ap (λ b'. if b' then pure (true, h) else pointer_send_open t h) c

    pub send_refines :
        (t : T) (s : Channel T) (w : World (Option T))
        → Sim w (spec_of s live)
        → Returns (Done (send t s)) (pointer_send t (ends s) w)
    send_refines t s w m = elim (Bool-cases s.closed) [
      | inl c ↦ rw (send_if true t s c, pointer_send_if true t (ends s) c) (returns (refl, refl, m))
      | inr c ↦
          rw (send_if false t s c, pointer_send_if false t (ends s) c) (send_open_refines t s w m)
    ]

    pub close_refines :
        (s : Channel T) (w : World (Option T))
        → Sim w (spec_of s live)
        → Returns
            (λ h w'. (h ≡ ends (close s)) × Sim w' (spec_of (close s) live))
            (pointer_close (ends s) w)
    unfolding pointer_close close
    close_refines s w m =
        Returns.bind (notify_one_refines usize_max (λ i. none) (record s { closed = true }) w m)
          λ r w' (_, n). returns (refl, n)

    -- The last sender or receiver closes the channel.
    close_if :
        (b : Bool) (s : Channel T) (w : World (Option T))
        → Sim w (spec_of s live)
        → let u = if b then close s else s in
          Returns
            (λ h w'. (h ≡ ends u) × Sim w' (spec_of u live))
            ((if b then pointer_close (ends s) else pure (ends s)) w)
    close_if true s w m = close_refines s w m
    close_if false s w m = returns (refl, m)

    pub drop_sender_refines :
        (s : Channel T) (w : World (Option T))
        → Sim w (spec_of s live)
        → Returns
            (λ h w'. (h ≡ ends (drop_sender s)) × Sim w' (spec_of (drop_sender s) live))
            (pointer_drop_sender (ends s) w)
    unfolding drop_sender pointer_drop_sender
    drop_sender_refines s w m =
        let u = record s { senders = s.senders - 1 } in close_if (u.senders == 0) u w m

    pub drop_receiver_refines :
        (s : Channel T) (w : World (Option T))
        → Sim w (spec_of s live)
        → Returns
            (λ h w'. (h ≡ ends (drop_receiver s)) × Sim w' (spec_of (drop_receiver s) live))
            (pointer_drop_receiver (ends s) w)
    unfolding drop_receiver pointer_drop_receiver
    drop_receiver_refines s w m =
        let u = record s { receivers = s.receivers - 1 } in close_if (u.receivers == 0) u w m

-- ===== src/Channel/PointerRuns.antt =====
-- Any use of the channel of src/channel.rs over its event's list in memory does what it does over the
-- queue.
use unsend.Event.Returns
use unsend.Base.{
  refl, ℕ, Bool, Option, ◌≡◌, false, ap, ap₂, ◌∙◌, sym, subst, Bool-cases, inl, inr, ◌==◌,
  if◌then◌else◌, List, [], ◌∷◌, ◌++◌,
}
use unsend.Event.World.{World}
use unsend.Event.Returns.{Returns, returns}
use unsend.Event.Program.{set_live}
use unsend.Event.Simulation.{set_live-kept, Sim}
use unsend.Channel.{
  Channel, RecvFuture, at_start, returned, recv_after, recv, drop_recv, pop_front, try_recv,
  clone_sender, clone_receiver,
}
use unsend.Channel.Fifo.{awaits}
use unsend.Channel.Use.{
  Traffic, set_recv, got, taken, send_step, try_recv_step, recv_step, drop_recv_step,
}
use unsend.Channel.PointerEnds.{
  ends, spec_of, Sim-live, send_refines, drop_sender_refines, drop_receiver_refines,
}
use unsend.Channel.PointerTurns.{recv_refines, drop_recv_refines, drop_recv-ends}
use unsend.Channel.PointerUse.{
  Action, send_item, try_receive, begin_recv, poll_recv, cancel_recv, add_sender, add_receiver,
  remove_sender, remove_receiver, Sides, pointer_pop, pointer_try_recv, channel_step, channel_run,
  traffic_step, traffic_run, Permitted, AllPermitted,
}

abbrev pub waiting : (ℕ → RecvFuture) → ℕ → Bool
waiting fs b = awaits (fs b)

waiting-set :
    (fs : ℕ → RecvFuture) (a : ℕ) (f : RecvFuture) (b : ℕ)
    → set_live (waiting fs) a (awaits f) b ≡ waiting (set_recv fs a f) b
waiting-set fs a f b = elim (Bool-cases (b == a)) [
  | inl e ↦ rw (e, if◌then◌else◌) refl
  | inr e ↦ rw (e, if◌then◌else◌) refl
]

waiting-begun :
    (fs : ℕ → RecvFuture) (a : ℕ)
    → fs a ≡ returned
    → (b : ℕ) → waiting fs b ≡ waiting (set_recv fs a at_start) b
waiting-begun fs a h b =
    set_live-kept (waiting fs) a false (ap awaits h) b ∙ waiting-set fs a at_start b

module _ {T : Type 0} where
  abbrev pub sides : Traffic T → Sides T
  sides s = record {
    ends = ends s.channel;
    futures = s.futures;
    sent = s.sent;
    received = s.received;
  }

  -- The ends and the futures, and a world whose event stands for the queue and has a listener for each
  -- future that awaits.
  abbrev pub Matches : Sides T → World (Option T) → Traffic T → Type 0
  Matches h w s = (h ≡ sides s) × Sim w (spec_of s.channel (waiting s.futures))

  popped :
      (ts : List T) (s : Channel T)
      → let p = pop_front ts s in
        let r = pointer_pop ts (ends s) in
        (r ≡ (p.0, ends p.1))
        × ((w : World (Option T))
            → (live : ℕ → Bool) → Sim w (spec_of s live)
            → Sim w (spec_of p.1 live))
  unfolding pop_front pointer_pop
  popped [] s = (refl, λ w live m. m)
  popped (t ∷ ts) s = (refl, λ w live m. m)

  try_recv_refines :
      (s : Traffic T) (w : World (Option T))
      → Sim w (spec_of s.channel (waiting s.futures))
      → Returns
          (λ h w'. Matches h w' (traffic_step try_receive s))
          (channel_step try_receive (sides s) w)
  unfolding traffic_step channel_step try_recv_step try_recv pointer_try_recv
  try_recv_refines s w m =
      let (e, k) = popped s.channel.queued s.channel in
      returns (
        ap (λ r. record (sides s) { ends = r.1; received = s.received ++ taken r.0 }) e,
        k w (waiting s.futures) m,
      )

  step_refines :
      (o : Action T) (s : Traffic T) (w : World (Option T))
      → Permitted o s
      → Sim w (spec_of s.channel (waiting s.futures))
      → Returns (λ h w'. Matches h w' (traffic_step o s)) (channel_step o (sides s) w)
  unfolding traffic_step channel_step send_step recv_step drop_recv_step clone_sender clone_receiver
      recv
  step_refines (send_item t) s w h m =
      Returns.bind (send_refines (waiting s.futures) t s.channel w m) λ r w' (e, i, k). returns (
        ap₂ (λ x y. record (sides s) { ends = y; sent = if x then s.sent else s.sent ++ t ∷ [] }) e
            i,
        k,
      )
  step_refines try_receive s w h m = try_recv_refines s w m
  step_refines (begin_recv a) s w (l, h) m =
      returns (refl, Sim-live w s.channel _ _ (waiting-begun s.futures a h) m)
  step_refines (poll_recv a v) s w h m =
      let fs = s.futures in
      let p = recv a v (fs a) s.channel in
      Returns.bind (recv_refines a v (waiting fs) (fs a) s.channel w h refl m) λ r w' (e, i, k).
        returns (
          ap₂
              (λ x y. record (sides s) {
                ends = y;
                futures = set_recv fs a (recv_after x);
                received = s.received ++ got x;
              })
              e i,
          Sim-live w' p.2 _ _
              (λ b.
                ap (λ x. set_live (waiting fs) a (awaits (recv_after x)) b) e
                ∙ waiting-set fs a (recv_after p.0) b)
              k,
        )
  step_refines (cancel_recv a) s w h m =
      let fs = s.futures in
      let u = drop_recv a (fs a) s.channel in
      Returns.bind (drop_recv_refines a (waiting fs) (fs a) s.channel w refl m) λ _ w' k. returns (
        ap (λ x. record (sides s) { ends = x; futures = set_recv fs a returned })
            (drop_recv-ends a (fs a) s.channel),
        Sim-live w' u _ _ (waiting-set fs a returned) k,
      )
  step_refines add_sender s w h m = returns (refl, m)
  step_refines add_receiver s w h m = returns (refl, m)
  step_refines remove_sender s w h m =
      Returns.bind (drop_sender_refines (waiting s.futures) s.channel w m)
        λ r w' (e, k). returns (ap (λ y. record (sides s) { ends = y }) e, k)
  step_refines remove_receiver s w h m =
      Returns.bind (drop_receiver_refines (waiting s.futures) s.channel w m)
        λ r w' (e, k). returns (ap (λ y. record (sides s) { ends = y }) e, k)

  pub run_refines :
      (os : List (Action T)) (s : Traffic T) (w : World (Option T))
      → AllPermitted os s
      → Sim w (spec_of s.channel (waiting s.futures))
      → Returns (λ h w'. Matches h w' (traffic_run os s)) (channel_run os (sides s) w)
  unfolding channel_run traffic_run
  run_refines [] s w h m = returns (refl, m)
  run_refines (o ∷ os) s w (h, hs) m = Returns.bind (step_refines o s w h m) λ t w' (e, n).
      subst
        (λ t'.
          Returns (λ u w''. Matches u w'' (traffic_run os (traffic_step o s)))
            (channel_run os t' w'))
        (sym e) (run_refines os (traffic_step o s) w' hs n)

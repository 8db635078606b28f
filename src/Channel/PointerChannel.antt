-- ===== src/Channel/PointerChannel.antt =====
-- What the users of the channel of src/channel.rs get from it over the event's list in memory.
use unsend.Event.Listener
use unsend.Event.Returns
use unsend.Base.{[], ◌∷◌, List, ◌≡◌, ◌∙◌, ◌||◌, ◌==◌, ap, sym}
use unsend.Event.Returns.{Returns}
use unsend.Event.Simulation.{Sim}
use unsend.Event.Refinement.{empty-Sim}
use unsend.Channel.{channel}
use unsend.Channel.Use.{
  Traffic, new_traffic, Used, opens, sends, tries_recv, begins_recv, recvs, drops_recv,
  clones_sender, clones_receiver, drops_sender, drops_receiver,
}
use unsend.Channel.Closing.{Used-Consistent}
use unsend.Channel.PointerEnds.{spec_of}
use unsend.Channel.PointerUse.{
  Action, send_item, try_receive, begin_recv, poll_recv, cancel_recv, add_sender, add_receiver,
  remove_sender, remove_receiver, channel_run, traffic_step, traffic_run, Permitted, AllPermitted,
}
use unsend.Channel.PointerRuns.{sides, waiting, run_refines}

module _ {T : Type 0} where
  step-Used : (o : Action T) (s : Traffic T) → Permitted o s → Used s → Used (traffic_step o s)
  unfolding traffic_step
  step-Used (send_item t) s h u = sends s t h u
  step-Used try_receive s h u = tries_recv s h u
  step-Used (begin_recv a) s (l, h) u = begins_recv s a l h u
  step-Used (poll_recv a v) s h u = recvs s a v h u
  step-Used (cancel_recv a) s h u = drops_recv s a u
  step-Used add_sender s h u = clones_sender s h u
  step-Used add_receiver s h u = clones_receiver s h u
  step-Used remove_sender s h u = drops_sender s h u
  step-Used remove_receiver s h u = drops_receiver s h u

  run-Used :
      (os : List (Action T)) (s : Traffic T) → AllPermitted os s → Used s → Used (traffic_run os s)
  unfolding traffic_run
  run-Used [] s h u = u
  run-Used (o ∷ os) s (h, hs) u = run-Used os (traffic_step o s) hs (step-Used o s h u)

  unused-Sim :
      Sim Listener.new_event
        (spec_of (new_traffic {T = T}).channel (waiting (new_traffic {T = T}).futures))
  unfolding channel
  unused-Sim = empty-Sim

  -- A channel over the list of its event in memory: whatever its users send, receive, poll, cancel,
  -- clone and drop, as far as ownership allows, it runs with no fault and no panic; the items in its
  -- queue, its ends, the futures, and what was sent and received are those that it has over the queue
  -- that specifies the event; the world stands for that queue, with the same wakers called and a
  -- listener in memory for exactly the futures that await; and the channel is closed exactly when no
  -- sender or no receiver is left.
  pub channel_refines :
      (os : List (Action T))
      → AllPermitted os new_traffic
      → Returns
          (λ h w.
            (h ≡ sides (traffic_run os new_traffic))
            × Sim w (
                spec_of
                  (traffic_run os new_traffic).channel
                  (waiting (traffic_run os new_traffic).futures))
            × (h.ends.closed ≡ ((h.ends.senders == 0) || (h.ends.receivers == 0))))
          (channel_run os (sides new_traffic) Listener.new_event)
  channel_refines os h =
      let u = traffic_run os new_traffic in
      let c = (Used-Consistent u (run-Used os new_traffic h opens)).0 in
      Returns.mono (run_refines os new_traffic Listener.new_event h unused-Sim) λ t w (e, m). (
        e,
        m,
        ap (λ x. x.ends.closed) e
            ∙ c
            ∙ sym (ap (λ x. (x.ends.senders == 0) || (x.ends.receivers == 0)) e),
      )

-- ===== src/Channel/Accounts.antt =====
-- The account of the items of the channel of src/channel.rs.
use unsend.Base.{refl, Bool, arith, ℕ, ◌+◌, ◌≡◌, ◌∷◌, [], suc, length}
use unsend.Channel.Use.{
  Traffic, send_step, recv_step, try_recv_step, drop_recv_step, Used, sends, tries_recv, taken,
  begins_recv, recvs, drops_recv, clones_sender, clones_receiver, drops_sender, drops_receiver,
  opens, got,
}
use unsend.Channel.{
  drop_recv, recv, RecvFuture, Channel, try_recv, clone_sender, clone_receiver, at_start, channel,
  at_await, returned, from_top,
}
use unsend.Channel.Delivery.{
  held, held-send, held-drop_waiting, held-pop_front, held-drop_sender, held-drop_receiver,
  held-recv_turn,
}
use unsend.Queue.Flying.{hits, hits-append}

module _ {T : Type 0} (p : T → Bool) where
  abbrev pub Balanced : Traffic T → Type 0
  Balanced s = held p s.channel + hits p s.received ≡ hits p s.sent

  send_step-Balanced : (t : T) (s : Traffic T) → Balanced s → Balanced (send_step t s)
  unfolding send_step
  send_step-Balanced t s h =
      ground (arith, h, held-send p t s.channel, hits-append p s.sent (t ∷ []))

  drop_recv-held : (a : ℕ) (f : RecvFuture) (s : Channel T) → held p (drop_recv a f s) ≡ held p s
  unfolding drop_recv
  drop_recv-held a at_start s = refl
  drop_recv-held a at_await s = held-drop_waiting p a s
  drop_recv-held a returned s = refl

  recv-held :
      (a v : ℕ) (f : RecvFuture) (s : Channel T)
      → held p (recv a v f s).2 + hits p (got (recv a v f s).0) ≡ held p s
  unfolding recv
  recv-held a v f s =
      held-recv_turn p (from_top f) (suc (suc (length s.event.notices + length s.event.notices))) a
        v s

  -- However a channel is used, for any test on items: of the items that pass it, as many were accepted
  -- by `send` as were received, wait in the queue, are on their way to a listener that was notified,
  -- or were lost with a listener that was dropped with nobody to take its place.
  pub Used-Balanced : (s : Traffic T) → Used s → Balanced s
  unfolding recv_step try_recv_step try_recv drop_recv_step clone_sender clone_receiver held channel
  Used-Balanced _ opens = refl
  Used-Balanced _ (sends s t l u) = send_step-Balanced t s (Used-Balanced s u)
  Used-Balanced _ (tries_recv s l u) = omega (
    arith,
    Used-Balanced s u,
    held-pop_front p s.channel.queued s.channel refl,
    hits-append p s.received (taken (try_recv s.channel).0),
  )
  Used-Balanced _ (begins_recv s a l f u) = Used-Balanced s u
  Used-Balanced _ (recvs s a v n u) = omega (
    arith,
    Used-Balanced s u,
    recv-held a v (s.futures a) s.channel,
    hits-append p s.received (got (recv a v (s.futures a) s.channel).0),
  )
  Used-Balanced _ (drops_recv s a u) =
      omega (arith, Used-Balanced s u, drop_recv-held a (s.futures a) s.channel)
  Used-Balanced _ (clones_sender s l u) = Used-Balanced s u
  Used-Balanced _ (clones_receiver s l u) = Used-Balanced s u
  Used-Balanced _ (drops_sender s l u) =
      omega (arith, Used-Balanced s u, held-drop_sender p s.channel)
  Used-Balanced _ (drops_receiver s l u) =
      omega (arith, Used-Balanced s u, held-drop_receiver p s.channel)

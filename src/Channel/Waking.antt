-- ===== src/Channel/Waking.antt =====
-- Whom the channel of src/channel.rs wakes, and what a dropped `recv` future does to an item.
use unsend.Queue
use unsend.Base.{refl, some, List, ℕ, [], false, ◌∷◌, ◌≡◌, ap, ◌∙◌, if◌then◌else◌, ◌==◌}
use unsend.Channel.{
  recv, drop_recv, recv_turn, send, notify_tagged, Channel, poll_waiting, drop_waiting, at_await,
  item, returned,
}
use unsend.Queue.{Waiter, in_waiters, poll_result, delivered, lost_by}
use unsend.Queue.Front.{
  front, front-result, front-poll, drop-unnoticed, drop-front, front-find, without_notice-front,
}

module _ {T : Type 0} where
  -- An open channel with nothing in it, for which these listeners wait.
  abbrev pub awaited : List Waiter → ℕ → ℕ → List ℕ → Channel T
  awaited ws senders receivers woken = record {
    queued = [];
    closed = false;
    senders = senders;
    receivers = receivers;
    event = record { notices = []; waiters = ws };
    woken = woken;
    lost = [];
  }

  pub recv-item :
      (a v : ℕ) (s : Channel T) (t : T)
      → poll_result a s.event ≡ some (some t)
      → recv a v at_await s ≡ (item t, returned, drop_waiting a (poll_waiting a v s))
  unfolding recv recv_turn
  recv-item a v s t e = rw (e, recv_turn) refl

  sends-event :
      (t u : T) (n m : ℕ) (x y : Waiter) (ws : List Waiter) (woken : List ℕ)
      → (send u (send t (awaited (x ∷ y ∷ ws) n m woken)).1).1.event ≡ front x (some t) (y ∷ ws)
  unfolding send notify_tagged Queue.notify Queue.deliver Queue.quota Queue.delivered
  sends-event t u n m x y ws woken = refl

  -- When an open channel is empty and several receivers wait, two sends in a row notify the first one
  -- only: it gets the first item, the second item stays in the queue, nobody is notified, and the
  -- other receivers still wait.
  pub send-send :
      (t u : T) (v n m : ℕ) (x y : Waiter) (ws : List Waiter) (woken : List ℕ)
      → in_waiters x.id (y ∷ ws) ≡ false
      → let s = (send u (send t (awaited (x ∷ y ∷ ws) n m woken)).1).1 in
        let r = recv x.id v at_await s in
        (r.0 ≡ item t)
        × (r.2.queued ≡ u ∷ [])
        × (r.2.event ≡ record { notices = []; waiters = y ∷ ws })
  unfolding send notify_tagged poll_waiting drop_waiting Queue.quota Queue.delivered Queue.notify
  send-send t u v n m x y ws woken d =
      let s = (send u (send t (awaited (x ∷ y ∷ ws) n m woken)).1).1 in
      let ev = sends-event t u n m x y ws woken in
      rw (recv-item x.id v s t (ap (poll_result x.id) ev ∙ front-result x (some t) (y ∷ ws))) (
        refl,
        refl,
        ap (λ q. Queue.drop x.id (Queue.poll x.id v q)) ev
            ∙ ap (Queue.drop x.id) (front-poll x (some t) (y ∷ ws) v)
            ∙ drop-unnoticed x (y ∷ ws) d,
      )

  lost_by-front :
      (t : T) (x : Waiter) (ws : List Waiter)
      → lost_by x.id (front x (some t) ws) ≡ (if delivered 1 ws == 0 then t ∷ [] else [])
  unfolding lost_by Queue.quota
  lost_by-front t x ws =
      rw (front-find x (some t) ws, lost_by)
        (ap (λ q. if delivered (Queue.quota 1 false q) q.waiters == 0 then t ∷ [] else [])
          (without_notice-front x (some t) ws))

  -- When an open channel is empty and one receiver waits, an item that is sent is gone after the
  -- receiver's future is dropped: `send` succeeded, and the item is neither in the queue nor on its way.
  pub send-drop_recv :
      (t : T) (n m : ℕ) (x : Waiter) (woken : List ℕ)
      → let s = send t (awaited (x ∷ []) n m woken) in
        let s' = drop_recv x.id at_await s.1 in
        (s.0 ≡ false) × (s'.queued ≡ []) × (s'.event ≡ Queue.empty) × (s'.lost ≡ t ∷ [])
  unfolding drop_recv send notify_tagged drop_waiting Queue.notify Queue.deliver Queue.quota
      Queue.delivered
  send-drop_recv t n m x woken =
      (refl, refl, drop-front x (some t) [] ∙ refl, lost_by-front t x [] ∙ refl)

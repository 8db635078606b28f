-- ===== src/Channel/Overtaking.antt =====
-- Items of the channel of src/channel.rs that overtake each other, with two receivers.
use unsend.Base.{refl, some, [], ◌∷◌, ap, sym, subst, List, ℕ, ◌≡◌, ◌∙◌, false}
use unsend.Queue.{Waiter, in_waiters, poll_result}
use unsend.Queue.Front.{front, front-result, unnoticed}
use unsend.Channel.{Channel, send, recv, at_await, item, poll_waiting, drop_waiting}
use unsend.Channel.Waking.{awaited, send-send, recv-item}
use unsend.Channel.Alone.{Becomes, as_with, send-awaited}
use unsend.Channel.Closing.{recv-SameEnds, send-SameEnds}

module _ {T : Type 0} where
  sent_to_first :
      (w : T) (s : Channel T) (y : Waiter) (ws : List Waiter)
      → s.closed ≡ false
      → s.event ≡ unnoticed (y ∷ ws)
      → Becomes (send w s) false s.queued (front y (some w) ws)
  sent_to_first w s y ws c e =
      subst (λ u. Becomes (send w u) false s.queued (front y (some w) ws))
        (sym (as_with s false (unnoticed (y ∷ ws)) c e)) (send-awaited w s y ws)

  recv-front :
      (v : ℕ) (s : Channel T) (w : T) (y : Waiter) (ws : List Waiter)
      → s.event ≡ front y (some w) ws
      → ((recv y.id v at_await s).0 ≡ item w) × ((recv y.id v at_await s).2.queued ≡ s.queued)
  unfolding poll_waiting drop_waiting
  recv-front v s w y ws e =
      rw (recv-item y.id v s w (ap (poll_result y.id) e ∙ front-result y (some w) ws)) (refl, refl)

  -- When an open channel is empty and two receivers or more wait, and two items are sent, the poll of
  -- the first receiver gives the first item, the second item stays in the queue, and the other
  -- receivers wait, none of them notified; when a third item is sent then, the poll of the second
  -- receiver gives that item, and the second one is still in the queue.
  pub send-overtakes :
      (t u w : T) (v v' n m : ℕ) (x y : Waiter) (ws : List Waiter) (woken : List ℕ)
      → in_waiters x.id (y ∷ ws) ≡ false
      → let s = (send u (send t (awaited (x ∷ y ∷ ws) n m woken)).1).1 in
        let r = recv x.id v at_await s in
        let r' = recv y.id v' at_await (send w r.2).1 in
        (r.0 ≡ item t)
        × (r.2.queued ≡ u ∷ [])
        × (r.2.event ≡ unnoticed (y ∷ ws))
        × (r'.0 ≡ item w)
        × (r'.2.queued ≡ u ∷ [])
  send-overtakes t u w v v' n m x y ws woken d =
      let s = (send u (send t (awaited (x ∷ y ∷ ws) n m woken)).1).1 in
      let r = recv x.id v at_await s in
      let (i, q, e) = send-send t u v n m x y ws woken d in
      let a = awaited (x ∷ y ∷ ws) n m woken in
      let (c, _, _) = recv-SameEnds x.id v at_await s in
      let (_, _, q', e') =
        sent_to_first w r.2 y ws (c ∙ (send-SameEnds u (send t a).1).0 ∙ (send-SameEnds t a).0) e in
      let (i', p) = recv-front v' (send w r.2).1 w y ws e' in (i, q, e, i', p ∙ q' ∙ q)

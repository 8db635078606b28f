-- ===== src/Channel/InOrder.antt =====
-- The order of the items of the channel of src/channel.rs, when one `recv` future at a time waits.
use unsend.Queue
use unsend.Channel
use unsend.Base.{
  refl, some, [], ◌∷◌, ap, sym, subst, List, ℕ, ◌≡◌, ◌∙◌, Bool, true, false, arith, ==_iff, ◌++◌,
  Option, if◌then◌else◌, append_assoc, ◌-◌, ◌==◌,
}
use unsend.Queue.{Queue}
use unsend.Queue.Alone.{only}
use unsend.Channel.{
  Channel, closed_error, empty_error, send, close, pop_front, drop_recv, RecvFuture, at_start,
  at_await, returned, clone_sender, clone_receiver, drop_sender, drop_receiver, recv,
}
use unsend.Channel.Alone.{told_of, Becomes, as_with, send-closed, send-unawaited, send-awaited}
use unsend.Channel.Use.{
  Traffic, set_recv, send_step, try_recv_step, recv_step, drop_recv_step, got, taken,
}
use unsend.Channel.Fifo.{
  Shape, rests, parks, told, ended, awaits, contents, contents_at, in_flight, answer, recv-Answers,
}
use unsend.Channel.Solo.{
  Solo, starts, passes, tries, calls, polls, cancels, adds_sender, adds_receiver, loses_sender,
  loses_receiver, at_rest, close_kept, cancel_kept, pop_kept, Shape_same,
}

-- A future that has returned is called anew.
abbrev fresh : RecvFuture → ℕ
fresh at_start = 0
fresh at_await = 1
fresh returned = 2

abbrev pub begun : RecvFuture → RecvFuture
begun at_start = at_start
begun at_await = at_await
begun returned = at_start

set_recv-same : (a : ℕ) (fs : ℕ → RecvFuture) (f : RecvFuture) → set_recv fs a f a ≡ f
set_recv-same a fs f = ground (arith, ==_iff a a)

module _ {T : Type 0} (a : ℕ) where
  -- The future and the channel, and every item that was sent either received or in the channel, in
  -- the order in which it was sent.
  abbrev pub InOrder : Traffic T → Type 0
  InOrder s = Shape a (s.futures a) s.channel × (s.sent ≡ s.received ++ contents s.channel)

  sent_by :
      (s : Traffic T) (t : T) (r : Bool × Channel T) (q : Queue (Option T)) (xs : List T)
      → s.sent ≡ s.received ++ contents s.channel
      → Becomes r false xs q
      → in_flight q.notices ++ xs ≡ contents s.channel ++ t ∷ []
      → (if r.0 then s.sent else s.sent ++ t ∷ []) ≡ s.received ++ contents r.1
  sent_by s t r q xs o (i, c, j, e) k =
      ap (λ b. if b then s.sent else s.sent ++ t ∷ []) i
      ∙ ap (λ ys. ys ++ t ∷ []) o
      ∙ append_assoc s.received (contents s.channel) (t ∷ [])
      ∙ ap (λ ys. s.received ++ ys) (sym k ∙ sym (contents_at r.1 q xs e j))

  send_kept :
      (b : Bool) (s : Traffic T) (t : T)
      → s.channel.closed ≡ b
      → InOrder s
      → Shape a (s.futures a) (send t s.channel).1
        × ((if (send t s.channel).0 then s.sent else s.sent ++ t ∷ [])
            ≡ s.received ++ contents (send t s.channel).1)
  send_kept true s t c (h, o) = rw (send-closed t s.channel c) (h, o)
  send_kept false s t c (rests h e, o) =
      let k =
        subst (λ u. Becomes (send t u) false (s.channel.queued ++ t ∷ []) Queue.empty)
          (sym (as_with s.channel false Queue.empty c e)) (send-unawaited t s.channel []) in
      (
        rests h k.3,
        sent_by s t (send t s.channel) Queue.empty (s.channel.queued ++ t ∷ []) o k (
            ap (λ ys. ys ++ t ∷ [])
              (sym (contents_at s.channel Queue.empty s.channel.queued e refl))),
      )
  send_kept false s t c (parks v h e q d, o) =
      let k =
        subst (λ u. Becomes (send t u) false s.channel.queued (told_of a (some t)))
          (sym (as_with s.channel false (only a v) c e))
          (send-awaited t s.channel (record { id = a; waker = some v }) []) in
      (
        told t h k.3,
        sent_by s t (send t s.channel) (told_of a (some t)) s.channel.queued o k (
            ap (λ xs. t ∷ xs) q
            ∙ ap (λ ys. ys ++ t ∷ []) (sym (contents_at s.channel (only a v) [] e q))),
      )
  send_kept false s t c (told u h e, o) =
      let k =
        subst (λ z. Becomes (send t z) false (s.channel.queued ++ t ∷ []) (told_of a (some u)))
          (sym (as_with s.channel false (told_of a (some u)) c e))
          (send-unawaited t s.channel (told_of a (some u)).notices) in
      (
        told u h k.3,
        sent_by s t (send t s.channel) (told_of a (some u)) (s.channel.queued ++ t ∷ []) o k (
            ap (λ ys. ys ++ t ∷ [])
              (sym (contents_at s.channel (told_of a (some u)) s.channel.queued e refl))),
      )
  send_kept false s t c (ended h e q d, o) = absurd (ground (arith, c, d))

  -- To close the channel when the last sender or receiver is dropped.
  close_if :
      (b : Bool) (f : RecvFuture) (s : Channel T)
      → Shape a f s
      → let u = if b then close s else s in Shape a f u × (contents u ≡ contents s)
  close_if true f s h = close_kept a f s h
  close_if false f s h = (h, refl)

  becomes :
      (fs : ℕ → RecvFuture) (f : RecvFuture) (u : Channel T)
      → Shape a f u
      → Shape a (set_recv fs a f a) u
  becomes fs f u h = subst (λ g. Shape a g u) (sym (set_recv-same a fs f)) h

  -- What is received is the front of what was in the channel.
  takes :
      (s : Traffic T) (xs : List T) (u : Channel T)
      → s.sent ≡ s.received ++ contents s.channel
      → contents s.channel ≡ xs ++ contents u
      → s.sent ≡ (s.received ++ xs) ++ contents u
  takes s xs u o e =
      o ∙ ap (λ ys. s.received ++ ys) e ∙ sym (append_assoc s.received xs (contents u))

  pub Solo-InOrder : (s : Traffic T) → Solo a s → InOrder s
  unfolding send_step try_recv_step recv_step drop_recv_step Channel.try_recv clone_sender
      clone_receiver drop_sender drop_receiver Channel.channel
  Solo-InOrder _ starts = (rests refl refl, refl)
  Solo-InOrder _ (passes s t u) = send_kept s.channel.closed s t refl (Solo-InOrder s u)
  Solo-InOrder _ (tries s n u) =
      let (h, o) = Solo-InOrder s u in
      let (k, e) = pop_kept a s.channel.queued (s.futures a) s.channel refl n h in
      let (r, c) = pop_front s.channel.queued s.channel in (k, takes s (taken r) c o e)
  Solo-InOrder _ (calls s f u) =
      let (h, o) = Solo-InOrder s u in
      (
        rests (ap awaits (set_recv-same a s.futures at_start))
            (at_rest a (s.futures a) s.channel (ap awaits f) h),
        o,
      )
  Solo-InOrder _ (polls s v n u) =
      let (h, o) = Solo-InOrder s u in
      let (r, f, c) = recv a v (s.futures a) s.channel in
      let (_, e, k) = recv-Answers a (s.futures a) v s.channel n h in
      (becomes s.futures f c k, takes s (got r) c o e)
  Solo-InOrder _ (cancels s n u) =
      let (h, o) = Solo-InOrder s u in
      let c = drop_recv a (s.futures a) s.channel in
      let (e, q) = cancel_kept a (s.futures a) s.channel n h in
      (
        becomes s.futures returned c (rests refl e),
        o
            ∙ ap (λ ys. s.received ++ ys)
                (ap (λ ys. ys ++ s.channel.queued) n
                  ∙ sym (contents_at c Queue.empty s.channel.queued e q)),
      )
  Solo-InOrder _ (adds_sender s u) =
      let (h, o) = Solo-InOrder s u in
      (Shape_same a (s.futures a) s.channel (clone_sender s.channel) refl refl refl h, o)
  Solo-InOrder _ (adds_receiver s u) =
      let (h, o) = Solo-InOrder s u in
      (Shape_same a (s.futures a) s.channel (clone_receiver s.channel) refl refl refl h, o)
  Solo-InOrder _ (loses_sender s u) =
      let (h, o) = Solo-InOrder s u in
      let c = record s.channel { senders = s.channel.senders - 1 } in
      let (k, e) =
        close_if (c.senders == 0) (s.futures a) c
          (Shape_same a (s.futures a) s.channel c refl refl refl h) in
      (k, o ∙ ap (λ ys. s.received ++ ys) (sym e))
  Solo-InOrder _ (loses_receiver s u) =
      let (h, o) = Solo-InOrder s u in
      let c = record s.channel { receivers = s.channel.receivers - 1 } in
      let (k, e) =
        close_if (c.receivers == 0) (s.futures a) c
          (Shape_same a (s.futures a) s.channel c refl refl refl h) in
      (k, o ∙ ap (λ ys. s.received ++ ys) (sym e))

  answer-begun :
      (f : RecvFuture) (v : ℕ) (s : Channel T)
      → Shape a f s
      → (recv a v (begun f) s).0 ≡ answer (contents s) s.closed
  answer-begun at_start v s h =
      (recv-Answers a at_start v s (λ e. absurd (ground (arith, ap fresh e))) h).0
  answer-begun at_await v s h =
      (recv-Answers a at_await v s (λ e. absurd (ground (arith, ap fresh e))) h).0
  answer-begun returned v s h =
      (recv-Answers a at_start v s (λ e. absurd (ground (arith, ap fresh e)))
        (rests refl (at_rest a returned s refl h))).0

  -- When one `recv` future at a time waits, which is not dropped while an item is on its way to it, and
  -- `try_recv` is not called then, the channel is a queue of items: what was received and then what is
  -- in the channel is what was sent, in order, and the next poll of the future, called anew if it has
  -- returned, gives the item in front, or says that the channel is closed when there is none, or
  -- waits.
  pub Solo-in_order :
      (v : ℕ) (s : Traffic T)
      → Solo a s
      → (s.sent ≡ s.received ++ contents s.channel)
        × ((recv a v (begun (s.futures a)) s.channel).0
            ≡ answer (contents s.channel) s.channel.closed)
  Solo-in_order v s u =
      let (h, o) = Solo-InOrder s u in (o, answer-begun (s.futures a) v s.channel h)

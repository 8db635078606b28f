-- ===== src/Channel/Solo.antt =====
-- Any use of the channel of src/channel.rs in which one `recv` future at a time waits for items.
use unsend.Queue
use unsend.Channel
use unsend.Base.{
  refl, none, some, [], ◌∷◌, ap, ap₂, sym, List, ℕ, ◌≡◌, ◌≢◌, ◌∙◌, Bool, true, false, arith, ◌++◌,
  if◌then◌else◌,
}
use unsend.Queue.{Queue}
use unsend.Queue.Alone.{only, drop-only, notify-nil}
use unsend.Queue.Front.{drop-front}
use unsend.Channel.{
  Channel, closed_error, empty_error, send, close, pop_front, drop_recv, RecvFuture, at_start,
  at_await, returned, clone_sender, clone_receiver, drop_sender, drop_receiver, recv,
}
use unsend.Channel.Alone.{told_of, close-unawaited, close-awaited}
use unsend.Channel.Use.{
  Traffic, new_traffic, set_recv, send_step, try_recv_step, recv_step, drop_recv_step, taken,
}
use unsend.Channel.Fifo.{Shape, rests, parks, told, ended, awaits, contents, contents_at, in_flight}

-- The uses in which one future at a time, at the address `a`, awaits. While an item is on its way
-- to it, it is not dropped and `try_recv` is not called.
pub data Solo {T : Type 0} (a : ℕ) : Traffic T → Type 0 where
  starts : Solo a new_traffic
  passes : (s : Traffic T) (t : T) → Solo a s → Solo a (send_step t s)
  tries :
      (s : Traffic T) → in_flight s.channel.event.notices ≡ [] → Solo a s → Solo a (try_recv_step s)
  calls :
      (s : Traffic T)
      → s.futures a ≡ returned
      → Solo a s
      → Solo a (record s { futures = set_recv s.futures a at_start })
  polls : (s : Traffic T) (v : ℕ) → s.futures a ≢ returned → Solo a s → Solo a (recv_step a v s)
  cancels :
      (s : Traffic T)
      → in_flight s.channel.event.notices ≡ []
      → Solo a s
      → Solo a (drop_recv_step a s)
  adds_sender : (s : Traffic T) → Solo a s → Solo a (record s { channel = clone_sender s.channel })
  adds_receiver :
      (s : Traffic T) → Solo a s → Solo a (record s { channel = clone_receiver s.channel })
  loses_sender : (s : Traffic T) → Solo a s → Solo a (record s { channel = drop_sender s.channel })
  loses_receiver :
      (s : Traffic T) → Solo a s → Solo a (record s { channel = drop_receiver s.channel })

module _ {T : Type 0} (a : ℕ) where
  pub at_rest :
      (f : RecvFuture) (s : Channel T) → awaits f ≡ false → Shape a f s → s.event ≡ Queue.empty
  at_rest f s n (rests h e) = e
  at_rest f s n (parks v h e q c) = absurd (ground (arith, n, ap awaits h))
  at_rest f s n (told t h e) = absurd (ground (arith, n, ap awaits h))
  at_rest f s n (ended h e q c) = absurd (ground (arith, n, ap awaits h))

  pub Shape_same :
      (f : RecvFuture) (s u : Channel T)
      → u.event ≡ s.event
      → u.queued ≡ s.queued
      → u.closed ≡ s.closed
      → Shape a f s
      → Shape a f u
  Shape_same f s u i j k (rests h e) = rests h (i ∙ e)
  Shape_same f s u i j k (parks v h e q c) = parks v h (i ∙ e) (j ∙ q) (k ∙ c)
  Shape_same f s u i j k (told t h e) = told t h (i ∙ e)
  Shape_same f s u i j k (ended h e q c) = ended h (i ∙ e) (j ∙ q) (k ∙ c)

  -- To close the channel tells the receiver that waits, and keeps the items.
  pub close_kept :
      (f : RecvFuture) (s : Channel T)
      → Shape a f s
      → Shape a f (close s) × (contents (close s) ≡ contents s)
  unfolding close
  close_kept f s (rests h e) =
      let d = close-unawaited s [] e in
      (
        rests h d,
        contents_at (close s) Queue.empty s.queued d refl
            ∙ sym (contents_at s Queue.empty s.queued e refl),
      )
  close_kept f s (parks v h e q c) =
      let d = close-awaited a v s e in
      (
        ended h d q refl,
        contents_at (close s) (told_of a none) [] d q ∙ sym (contents_at s (only a v) [] e q),
      )
  close_kept f s (told t h e) =
      let d = close-unawaited s (told_of a (some t)).notices e in
      (
        told t h d,
        contents_at (close s) (told_of a (some t)) s.queued d refl
            ∙ sym (contents_at s (told_of a (some t)) s.queued e refl),
      )
  close_kept f s (ended h e q c) =
      let d = close-unawaited s (told_of {T = T} a none).notices e in
      (
        ended h d q refl,
        contents_at (close s) (told_of a none) [] d q ∙ sym (contents_at s (told_of a none) [] e q),
      )

  -- With no item on its way to the future, its drop leaves nothing behind.
  pub cancel_kept :
      (f : RecvFuture) (s : Channel T)
      → in_flight s.event.notices ≡ []
      → Shape a f s
      → ((drop_recv a f s).event ≡ Queue.empty) × ((drop_recv a f s).queued ≡ s.queued)
  unfolding drop_recv Channel.drop_waiting
  cancel_kept at_start s n h = (at_rest at_start s refl h, refl)
  cancel_kept returned s n h = (at_rest returned s refl h, refl)
  cancel_kept at_await s n (rests h e) = absurd (ground (arith, h))
  cancel_kept at_await s n (parks v h e q c) = (ap (Queue.drop a) e ∙ drop-only a v, refl)
  cancel_kept at_await s n (told t h e) =
      absurd (ground (arith, sym (ap (λ q. in_flight q.notices) e) ∙ n))
  cancel_kept at_await s n (ended h e q c) = (
    ap (Queue.drop a) e
        ∙ drop-front (record { id = a; waker = none }) none []
        ∙ notify-nil 1 false (λ _. none) [],
    refl,
  )

  taken_nothing : (c : Bool) → taken {T = T} (if c then closed_error else empty_error) ≡ []
  taken_nothing true = refl
  taken_nothing false = refl

  front_out :
      (t : T) (ts : List T) (s : Channel T)
      → s.queued ≡ t ∷ ts
      → in_flight s.event.notices ≡ []
      → contents s ≡ t ∷ in_flight s.event.notices ++ ts
  front_out t ts s e n = ap₂ (λ xs ys. xs ++ ys) n e ∙ ap (λ xs. t ∷ xs ++ ts) (sym n)

  pub pop_kept :
      (xs : List T) (f : RecvFuture) (s : Channel T)
      → s.queued ≡ xs
      → in_flight s.event.notices ≡ []
      → Shape a f s
      → let (r, u) = pop_front xs s in Shape a f u × (contents s ≡ taken r ++ contents u)
  unfolding pop_front
  pop_kept [] f s e n h = (h, ap (λ xs. xs ++ contents s) (sym (taken_nothing s.closed)))
  pop_kept (t ∷ ts) f s e n (rests h d) = (rests h d, front_out t ts s e n)
  pop_kept (t ∷ ts) f s e n (parks v h d q c) = absurd (ground (arith, sym e ∙ q))
  pop_kept (t ∷ ts) f s e n (told u h d) = (told u h d, front_out t ts s e n)
  pop_kept (t ∷ ts) f s e n (ended h d q c) = absurd (ground (arith, sym e ∙ q))

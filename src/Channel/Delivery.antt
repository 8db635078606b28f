-- ===== src/Channel/Delivery.antt =====
-- Where the items of the channel of src/channel.rs are, before and after each operation.
use unsend.Event.Notification.{usize_max}
use unsend.Base.{
  refl, Bool, List, ℕ, Option, ◌∷◌, to_list, ◌≡◌, some, none, ◌+◌, if◌then◌else◌, arith, ◌==◌, [],
  suc, Bool-cases, zero, inl, refl, inr, ◌∙◌, Option-cases, true, ap, false, ◌-◌,
}
use unsend.Queue.{quota, poll_result, lost_by, take_item}
use unsend.Queue.Occurs.{one_if}
use unsend.Channel.Use.{got, taken}
use unsend.Channel.{
  Channel, drop_waiting, poll_waiting, recv_try, recv_turn, pop_front, notify_tagged, send,
  drop_sender, drop_receiver, Recv, close,
}
use unsend.Queue.Flying.{
  hits, flying-drop, flying-poll-none, flying-notify, flying-notify-one, flying, hits-append,
  flying-poll-some, flying-none,
}

module _ {T : Type 0} (p : T → Bool) where
  -- The items that are in the channel: in its queue, on their way to a listener, or lost.
  unfoldable pub held : Channel T → ℕ
  held s = hits p s.queued + flying p s.event.notices + hits p s.lost

  pub held-drop_waiting : (a : ℕ) (s : Channel T) → held (drop_waiting a s) ≡ held s
  unfolding held drop_waiting
  held-drop_waiting a s =
      omega (arith, flying-drop p a s.event, hits-append p s.lost (lost_by a s.event))

  pub held-pop :
      (a : ℕ) (s : Channel T) (t : T) (ts : List T)
      → s.queued ≡ t ∷ ts
      → held (drop_waiting a (record s { queued = ts })) + one_if (p t) ≡ held s
  unfolding held
  held-pop a s t ts e =
      ap (λ n. n + one_if (p t)) (held-drop_waiting a (record s { queued = ts }))
      ∙ omega (arith, ap (hits p) e)

  held-poll-none :
      (a v : ℕ) (s : Channel T) → poll_result a s.event ≡ none → held (poll_waiting a v s) ≡ held s
  unfolding held poll_waiting
  held-poll-none a v s e = omega (arith, flying-poll-none p a v s.event e)

  held-poll-some :
      (a v : ℕ) (s : Channel T) (r : Option T)
      → poll_result a s.event ≡ some r
      → held (poll_waiting a v s) + hits p (to_list r) ≡ held s
  unfolding held poll_waiting
  held-poll-some a v s r e = omega (arith, flying-poll-some p a v s.event r e)

  pub held-recv_try :
      (xs : List T) (c : Bool) (a : ℕ) (s : Channel T) (rest : Recv T × Channel T)
      → s.queued ≡ xs
      → held rest.1 + hits p (got rest.0) ≡ held s
      → held (recv_try xs c a s rest).1 + hits p (got (recv_try xs c a s rest).0) ≡ held s
  unfolding recv_try
  held-recv_try [] true a s rest e h = omega (arith, held-drop_waiting a s)
  held-recv_try [] false a s rest e h = h
  held-recv_try (t ∷ ts) c a s rest e h = omega (arith, held-pop a s t ts e)

  -- What a receiver gets leaves the channel.
  pub held-recv_turn :
      (top : Bool) (fuel a v : ℕ) (s : Channel T)
      → held (recv_turn top fuel a v s).1 + hits p (got (recv_turn top fuel a v s).0) ≡ held s
  unfolding recv_turn
  held-recv_turn true zero a v s = omega arith
  held-recv_turn false zero a v s = omega arith
  held-recv_turn true (suc fuel) a v s =
      held-recv_try s.queued s.closed a s (recv_turn false fuel a v s) refl
        (held-recv_turn false fuel a v s)
  held-recv_turn false (suc fuel) a v s = elim (Option-cases (poll_result a s.event)) [
    | inl e ↦ rw (e, recv_turn) (omega (arith, held-poll-none a v s e))
    | inr (none, e) ↦
        rw (e, recv_turn)
          (omega
            (arith, held-recv_turn true fuel a v (poll_waiting a v s), held-poll-some a v s none e))
    | inr (some t, e) ↦
        rw (e, recv_turn)
          (omega (arith, held-drop_waiting a (poll_waiting a v s), held-poll-some a v s (some t) e))
  ]

  pub held-pop_front :
      (xs : List T) (s : Channel T)
      → s.queued ≡ xs
      → held (pop_front xs s).1 + hits p (taken (pop_front xs s).0) ≡ held s
  unfolding pop_front held
  held-pop_front [] s e = ground arith
  held-pop_front (t ∷ ts) s e = omega (arith, ap (hits p) e)

  pub held-notify_none :
      (count : ℕ) (s : Channel T) → held (notify_tagged count (λ _. none) s) ≡ held s
  unfolding held notify_tagged
  held-notify_none count s = omega (
    arith,
    flying-notify p count false (λ _. none) s.event,
    flying-none p (quota count false s.event) false s.event.waiters,
  )

  pub held-send :
      (t : T) (s : Channel T)
      → held (send t s).1 ≡ held s + (if (send t s).0 then 0 else one_if (p t))
  unfolding held send notify_tagged
  held-send t s = elim (Bool-cases s.closed) [
    | inl c ↦ rw (c, if◌then◌else◌) (omega arith)
    | inr c ↦
        rw (c, if◌then◌else◌)
          (ground (
            arith,
            flying-notify-one p false (take_item t) s.event,
            hits-append p s.queued (t ∷ []),
          ))
  ]

  pub held-drop_sender : (s : Channel T) → held (drop_sender s) ≡ held s
  unfolding drop_sender close held
  held-drop_sender s = elim (Bool-cases (s.senders - 1 == 0)) [
    | inl z ↦
        rw (z, if◌then◌else◌)
          (held-notify_none usize_max (record s { senders = s.senders - 1; closed = true }))
    | inr z ↦ rw (z, if◌then◌else◌) refl
  ]

  pub held-drop_receiver : (s : Channel T) → held (drop_receiver s) ≡ held s
  unfolding drop_receiver close held
  held-drop_receiver s = elim (Bool-cases (s.receivers - 1 == 0)) [
    | inl z ↦
        rw (z, if◌then◌else◌)
          (held-notify_none usize_max (record s { receivers = s.receivers - 1; closed = true }))
    | inr z ↦ rw (z, if◌then◌else◌) refl
  ]

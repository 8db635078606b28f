-- ===== src/Event/Inner.antt =====
-- event.rs, `Inner::notify` and `Event::notify`.
use unsend.Base.{
  ℕ, zero, suc, ◌+◌, ◌-◌, Bool, true, false, none, some, ltb, leb, ◌==◌, if◌then◌else◌,
}
use unsend.Event.World.{
  State, created, waiting, notified, Cmd, pure, panics, ◌>>=◌, ◌>>◌, get, modify, load, set_state,
  wake,
}
use unsend.Event.Notification.{Notification}

-- The waker of the state that a notification replaces.
unfoldable pub wake_state : {T : Type 0} → State T → Cmd T (Unit {0})
wake_state created = pure tt
wake_state (waiting v) = wake v
wake_state (notified t a) = pure tt

module _ {N T : Type 0} (n : Notification N T) where
  unfoldable pub next_tag : N → Cmd T (T × N)
  next_tag s = elim (n.next_tag s) [ none ↦ panics | some r ↦ pure r ]

  -- The `while count > 0` loop, with `done` for its local `notified`.
  unfoldable pub notify_loop : Bool → ℕ → N → ℕ → Cmd T (ℕ × N)
  notify_loop extra zero s done = pure (done, s)
  notify_loop extra (suc count) s done = do
    inner ← get
    elim inner.first [
      | none ↦ pure (done, s)
      | some e ↦ do
        l ← load e
        modify λ i. record i { first = l.entry.next }
        (t, s') ← next_tag s
        set_state e (notified t extra)
        wake_state l.entry.state
        modify λ i. record i { notified = i.notified + 1 }
        notify_loop extra count s' (done + 1)
    ]

  -- `Inner::notify`
  unfoldable pub inner_notify : N → Cmd T (ℕ × N)
  inner_notify s = do
    inner ← get
    if n.is_additional s
        then notify_loop true (n.count s) s 0
        else if leb (n.count s) inner.notified
        then pure (0, s)
        else notify_loop false (n.count s - inner.notified) s 0

  -- `Event::notify`
  unfoldable pub notify : N → Cmd T (ℕ × N)
  notify s = do
    inner ← get
    if n.is_additional s
        then (if inner.len == 0 then pure (0, s) else inner_notify s)
        else if ltb (n.count s) inner.notified
        then pure (0, s)
        else inner_notify s

-- ===== src/Channel/Alone.antt =====
-- The channel of src/channel.rs when at most one `recv` future waits for it.
use unsend.Queue
use unsend.Event.Notification.{usize_max}
use unsend.Base.{
  ap₂, ◌==◌, refl, none, some, [], ◌∷◌, ap, List, ℕ, ◌≡◌, ◌∙◌, Bool, true, false, suc, zero, ◌++◌,
  Option, if◌then◌else◌,
}
use unsend.Queue.{Queue, Waiter, Notice, poll_result, delivered, take_item}
use unsend.Queue.Alone.{only, notify-nil}
use unsend.Queue.Front.{unnoticed, front, front-poll, drop-unnoticed}
use unsend.Channel.{Channel, send, notify_tagged, close}

delivered-nil : (k : ℕ) → delivered k [] ≡ 0
unfolding delivered
delivered-nil zero = refl
delivered-nil (suc k) = refl

module _ {T : Type 0} (a : ℕ) where
  -- The listener `a` was notified, and nobody waits.
  abbrev pub told_of : Option T → Queue (Option T)
  told_of x = front (record { id = a; waker = none }) x []

  pub told_of-drop :
      (v : ℕ) (x : Option T) → Queue.drop a (Queue.poll a v (told_of x)) ≡ Queue.empty
  told_of-drop v x =
      ap (Queue.drop a) (front-poll (record { id = a; waker = none }) x [] v)
      ∙ drop-unnoticed (record { id = a; waker = none }) [] refl

module _ {T : Type 0} where
  -- The channel `s` with another state of these parts.
  abbrev pub with : Bool → List T → Queue (Option T) → Channel T → Channel T
  with c xs q s = record s { closed = c; queued = xs; event = q }

  pub as_with :
      (s : Channel T) (c : Bool) (q : Queue (Option T))
      → s.closed ≡ c
      → s.event ≡ q
      → s ≡ with c s.queued q s
  as_with s c q i j = ap₂ (λ b e. with b s.queued e s) i j

  pub send-closed : (t : T) (s : Channel T) → s.closed ≡ true → send t s ≡ (true, s)
  unfolding send
  send-closed t s c = rw (c, send) refl

  -- What `send` does to the parts: whether it fails, and what is then in the queue and the event.
  abbrev pub Becomes : Bool × Channel T → Bool → List T → Queue (Option T) → Type 0
  Becomes r e xs q = (r.0 ≡ e) × (r.1.closed ≡ false) × (r.1.queued ≡ xs) × (r.1.event ≡ q)

  -- With nobody waiting, an item goes to the queue.
  pub send-unawaited :
      (t : T) (s : Channel T) (ns : List (Notice (Option T)))
      → Becomes
          (send t (with false s.queued (record { notices = ns; waiters = [] }) s))
          false
          (s.queued ++ t ∷ [])
          (record { notices = ns; waiters = [] })
  unfolding send notify_tagged
  send-unawaited t s ns =
      rw
        (
          delivered-nil (Queue.quota 1 false (record { notices = ns; waiters = [] })),
          send,
          if◌then◌else◌,
          ◌==◌,
        )
        (refl, refl, refl, notify-nil 1 false (take_item t) ns)

  -- An item goes to the first of the receivers that wait.
  pub send-awaited :
      (t : T) (s : Channel T) (y : Waiter) (ws : List Waiter)
      → Becomes
          (send t (with false s.queued (unnoticed (y ∷ ws)) s))
          false
          s.queued
          (front y (some t) ws)
  unfolding send notify_tagged Queue.notify Queue.deliver Queue.quota Queue.delivered
  send-awaited t s y ws = (refl, refl, refl, refl)

  pub close-unawaited :
      (s : Channel T) (ns : List (Notice (Option T)))
      → s.event ≡ record { notices = ns; waiters = [] }
      → (close s).event ≡ record { notices = ns; waiters = [] }
  unfolding close notify_tagged
  close-unawaited s ns e =
      ap (Queue.notify usize_max false (λ _. none)) e ∙ notify-nil usize_max false (λ _. none) ns

  pub close-awaited :
      (a v : ℕ) (s : Channel T) → s.event ≡ only a v → (close s).event ≡ told_of a none
  unfolding close notify_tagged Queue.notify Queue.deliver Queue.quota
  close-awaited a v s e = ap (Queue.notify usize_max false (λ _. none)) e ∙ refl

-- ===== src/Event/Listener.antt =====
-- event.rs, `Listener`: insert, remove, register, poll and drop.
use unsend.Base.{◌+◌, ◌-◌, Bool, true, false, Option, none, some, ◌==◌, if◌then◌else◌, is_none, []}
use unsend.Event.World.{
  Waker, will_wake, Pointer, World, Inner, Entry, State, created, waiting, notified, Cmd, pure,
  panics, ◌>>=◌, ◌>>◌, get, modify, load, store, put, set_next, set_prev, set_state,
}
use unsend.Event.Notification.{single}
use unsend.Event.Inner.{inner_notify}

unfoldable pub same_pointer : Option Pointer → Pointer → Bool
same_pointer none p = false
same_pointer (some q) p = q == p

module _ {T : Type 0} where
  abbrev pub empty_entry : Entry T
  empty_entry = record { next = none; prev = none; state = created }

  abbrev pub set_in_list : Pointer → Bool → Cmd T (Unit {0})
  set_in_list p b = store p λ l. record l { in_list = b }

  abbrev pub set_entry : Pointer → Entry T → Cmd T (Unit {0})
  set_entry p e = store p λ l. record l { entry = e }

  -- `Event::new`, before any listener is made.
  unfoldable pub new_event : World T
  new_event = record {
    inner = record { head = none; tail = none; first = none; notified = 0; len = 0 };
    memory = λ p. none;
    woken = [];
  }

  -- `Listener::new`, at the address where the listener is pinned.
  unfoldable pub new : Pointer → Cmd T (Unit {0})
  new p = put p (some (record { in_list = false; entry = empty_entry }))

  -- The successor of the old tail, or the head.
  unfoldable pub link_tail : Option Pointer → Pointer → Cmd T (Unit {0})
  link_tail none self = modify λ i. record i { head = some self }
  link_tail (some t) self = set_next t (some self)

  -- `Listener::insert`
  unfoldable pub insert : Pointer → Cmd T (Unit {0})
  insert self = do
    inner ← get
    set_entry self (record { next = none; prev = inner.tail; state = created })
    modify λ i. record i { tail = some self }
    link_tail inner.tail self
    modify λ i. if is_none i.first then record i { first = i.tail } else i
    modify λ i. record i { len = i.len + 1 }
    set_in_list self true

  unfoldable pub unlink_prev : Option Pointer → Option Pointer → Cmd T (Unit {0})
  unlink_prev none next = modify λ i. record i { head = next }
  unlink_prev (some p) next = set_next p next

  unfoldable pub unlink_next : Option Pointer → Option Pointer → Cmd T (Unit {0})
  unlink_next none prev = modify λ i. record i { tail = prev }
  unlink_next (some n) prev = set_prev n prev

  -- `usize -= 1`, which panics at zero.
  unfoldable pub decrement_len : Inner → Cmd T (Unit {0})
  decrement_len i = if i.len == 0 then panics else modify λ i. record i { len = i.len - 1 }

  unfoldable pub decrement_notified : Inner → Cmd T (Unit {0})
  decrement_notified i =
      if i.notified == 0 then panics else modify λ i. record i { notified = i.notified - 1 }

  -- What `remove` does with the state that the entry was in.
  unfoldable pub settle : Bool → State T → Cmd T (Option T)
  settle propagate created = pure none
  settle propagate (waiting v) = pure none
  settle propagate (notified t extra) = do
    decrement_notified (← get)
    if propagate
        then (do _ ← inner_notify single (record { additional = extra; tag = some t }); pure none)
        else pure (some t)

  -- `Listener::remove`
  unfoldable pub remove : Pointer → Bool → Cmd T (Option T)
  remove self propagate = do
    l ← load self
    unlink_prev l.entry.prev l.entry.next
    unlink_next l.entry.next l.entry.prev
    modify λ i. if same_pointer i.first self then record i { first = l.entry.next } else i
    l' ← load self
    set_entry self empty_entry
    decrement_len (← get)
    set_in_list self false
    settle propagate l'.entry.state

  -- `Listener::register`, which gives `Notified(tag)` as `some` and `Registered` as `none`.
  unfoldable pub register_state : Pointer → Waker → State T → Cmd T (Option T)
  register_state self waker created = do set_state self (waiting waker); pure none
  register_state self waker (waiting task) = do
    set_state self (waiting (if will_wake task waker then task else waker))
    pure none
  register_state self waker (notified t extra) = do
    set_state self (notified t extra)
    tag ← remove self false
    elim tag [ none ↦ panics | some u ↦ pure (some u) ]

  unfoldable pub register : Pointer → Waker → Cmd T (Option T)
  register self waker = do
    l ← load self
    set_state self created
    register_state self waker l.entry.state

  -- `EventListener::listen`, and the first lines of `Listener::poll`.
  unfoldable pub listen : Pointer → Cmd T (Unit {0})
  listen self = do l ← load self; if l.in_list then pure tt else insert self

  -- `Listener::poll`: `some` is `Poll::Ready` and `none` is `Poll::Pending`.
  unfoldable pub poll : Pointer → Waker → Cmd T (Option T)
  poll self waker = do listen self; register self waker

  -- `Drop` of a listener, and the end of its memory.
  unfoldable pub drop_in_list : Pointer → Bool → Cmd T (Unit {0})
  drop_in_list self false = pure tt
  drop_in_list self true = do _ ← remove self true; pure tt

  unfoldable pub drop : Pointer → Cmd T (Unit {0})
  drop self = do l ← load self; drop_in_list self l.in_list; put self none

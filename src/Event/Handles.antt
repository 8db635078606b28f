-- ===== src/Event/Handles.antt =====
-- event.rs, the public listeners over `Listener`: `EventListener`, which borrows the event, the boxed
-- one of `Event::listen`, and `EventListenerRc`, which shares the event by an `Rc`.
use unsend.Event.Listener
use unsend.Event.World.{Pointer, Waker, Cmd, ◌>>=◌, pure, load}
use unsend.Event.Listener.{insert, register}
use unsend.Base.{refl, Option, ◌≡◌, if◌then◌else◌}

pub data Handle : Type 0 where
  borrowed : Handle
  boxed : Handle
  counted : Handle

module _ {T : Type 0} where
  -- `EventListener::new`, `EventListener::listen` and `EventListener::poll`.
  unfoldable pub new_listener : Pointer → Cmd T (Unit {0})
  unfolding Listener.new
  new_listener p = Listener.new p

  unfoldable pub listen_listener : Pointer → Cmd T (Unit {0})
  unfolding insert
  listen_listener p = do l ← load p; if l.in_list then pure tt else insert p

  unfoldable pub poll_event_listener : Pointer → Waker → Cmd T (Option T)
  unfolding Listener.poll
  poll_event_listener p v = Listener.poll p v

  -- `Event::listen`, whose box is at the given address.
  unfoldable pub listen_boxed : Pointer → Cmd T (Unit {0})
  unfolding new_listener
  listen_boxed p = new_listener p

  -- `EventListenerRc::new`, `EventListenerRc::listen` and `EventListenerRc::poll`.
  unfoldable pub new_rc : Pointer → Cmd T (Unit {0})
  unfolding Listener.new
  new_rc p = Listener.new p

  unfoldable pub listen_rc : Pointer → Cmd T (Unit {0})
  unfolding insert
  listen_rc p = do l ← load p; if l.in_list then pure tt else insert p

  unfoldable pub poll_rc : Pointer → Waker → Cmd T (Option T)
  unfolding Listener.poll
  poll_rc p v = Listener.poll p v

  -- The calls by the kind of the listener.
  unfoldable pub create_with : Handle → Pointer → Cmd T (Unit {0})
  unfolding new_listener listen_boxed new_rc
  create_with borrowed p = new_listener p
  create_with boxed p = listen_boxed p
  create_with counted p = new_rc p

  unfoldable pub listen_with : Handle → Pointer → Cmd T (Unit {0})
  unfolding listen_listener listen_rc
  listen_with borrowed p = listen_listener p
  listen_with boxed p = listen_listener p
  listen_with counted p = listen_rc p

  unfoldable pub poll_with : Handle → Pointer → Waker → Cmd T (Option T)
  unfolding poll_event_listener poll_rc
  poll_with borrowed p v = poll_event_listener p v
  poll_with boxed p v = poll_event_listener p v
  poll_with counted p v = poll_rc p v

  pub create_with-new : (h : Handle) (p : Pointer) → create_with h p ≡ Listener.new p
  unfolding create_with
  create_with-new borrowed p = refl
  create_with-new boxed p = refl
  create_with-new counted p = refl

  pub listen_with-listen : (h : Handle) (p : Pointer) → listen_with h p ≡ Listener.listen p
  unfolding listen_with Listener.listen
  listen_with-listen borrowed p = refl
  listen_with-listen boxed p = refl
  listen_with-listen counted p = refl

  pub poll_with-poll : (h : Handle) (p : Pointer) (v : Waker) → poll_with h p v ≡ Listener.poll p v
  unfolding poll_with
  poll_with-poll borrowed p v = refl
  poll_with-poll boxed p v = refl
  poll_with-poll counted p v = refl

-- ===== src/Event/Program.antt =====
-- Programs over one event: any sequence of calls that the owners of the listeners can make.
use unsend.Event.Listener
use unsend.Event.Inner
use unsend.Queue
use unsend.Base.{
  ℕ, Option, List, Bool, some, if◌then◌else◌, ◌∷◌, none, ◌==◌, suc, true, ◌++◌, ◌≡◌, false, [],
}
use unsend.Event.Handles.{Handle, create_with, listen_with, poll_with}
use unsend.Queue.{Queue, delivered, drop_wakes, quota, notify_wakes}
use unsend.Event.World.{Pointer, Cmd, Waker, pure, ◌>>◌, ◌>>=◌}
use unsend.Event.Notification.{tag_with, additional, notify_count, Notification}

pub data Call (T : Type 0) : Type 0 where
  create : Handle → Pointer → Call T
  listen : Handle → Pointer → Call T
  poll : Handle → Pointer → Waker → Call T
  release : Pointer → Call T
  notify : ℕ → Bool → (ℕ → T) → Call T

pub data Reply (T : Type 0) : Type 0 where
  done : Reply T
  pending : Reply T
  ready : T → Reply T
  reached : ℕ → Reply T

module _ {T : Type 0} where
  abbrev pub polled : Option T → Reply T
  polled none = pending
  polled (some t) = ready t

  -- `notify` with the count `count`, plain or additional, tagged by a closure that gives `f 0`, `f 1`
  -- and so on.
  unfoldable pub tagged : Bool → (ℕ → T) → Notification (ℕ × ℕ) T
  unfolding tag_with additional notify_count
  tagged true f = tag_with (additional notify_count) λ i. (f i, suc i)
  tagged false f = tag_with notify_count λ i. (f i, suc i)

  unfoldable pub step : Call T → Cmd T (Reply T)
  step (create h a) = do create_with h a; pure done
  step (listen h a) = do listen_with h a; pure done
  step (poll h a v) = do r ← poll_with h a v; pure (polled r)
  step (release a) = do Listener.drop a; pure done
  step (notify count extra f) = do r ← Inner.notify (tagged extra f) (count, 0); pure (reached r.0)

  unfoldable pub run : List (Call T) → Cmd T (List (Reply T))
  run [] = pure []
  run (c ∷ cs) = do r ← step c; rs ← run cs; pure (r ∷ rs)

-- The specification: the queue, the wakers called so far, and which addresses hold listeners.
pub record Spec (T : Type 0) : Type 0 where
  pub queue : Queue T
  pub woken : List Waker
  pub live : Pointer → Bool

abbrev pub set_live : (Pointer → Bool) → Pointer → Bool → Pointer → Bool
set_live f a b c = if c == a then b else f c

module _ {T : Type 0} where
  unfoldable pub spec_step : Call T → Spec T → Spec T
  spec_step (create h a) s = record s { live = set_live s.live a true }
  spec_step (listen h a) s = record s { queue = Queue.listen a s.queue }
  spec_step (poll h a v) s = record s { queue = Queue.poll a v s.queue }
  spec_step (release a) s = record {
    queue = Queue.drop a s.queue;
    woken = s.woken ++ drop_wakes a s.queue;
    live = set_live s.live a false;
  }
  spec_step (notify count extra f) s = record s {
    queue = Queue.notify count extra f s.queue;
    woken = s.woken ++ notify_wakes count extra s.queue;
  }

  unfoldable pub spec_reply : Call T → Spec T → Reply T
  spec_reply (create h a) s = done
  spec_reply (listen h a) s = done
  spec_reply (poll h a v) s = polled (Queue.poll_result a s.queue)
  spec_reply (release a) s = done
  spec_reply (notify count extra f) s =
      reached (delivered (quota count extra s.queue) s.queue.waiters)

  unfoldable pub spec_run : List (Call T) → Spec T → Spec T
  spec_run [] s = s
  spec_run (c ∷ cs) s = spec_run cs (spec_step c s)

  unfoldable pub spec_replies : List (Call T) → Spec T → List (Reply T)
  spec_replies [] s = []
  spec_replies (c ∷ cs) s = spec_reply c s ∷ spec_replies cs (spec_step c s)

  -- What ownership guarantees: a listener is made where there is none, and used while it lives.
  abbrev pub Allowed : Call T → (Pointer → Bool) → Type 0
  Allowed (create h a) live = live a ≡ false
  Allowed (listen h a) live = live a ≡ true
  Allowed (poll h a v) live = live a ≡ true
  Allowed (release a) live = live a ≡ true
  Allowed (notify count extra f) live = Unit {0}

  abbrev pub AllAllowed : List (Call T) → Spec T → Type 0
  AllAllowed [] s = Unit {0}
  AllAllowed (c ∷ cs) s = Allowed c s.live × AllAllowed cs (spec_step c s)

  abbrev pub empty_spec : Spec T
  empty_spec = record { queue = Queue.empty; woken = []; live = λ a. false }

-- ===== src/Lock/Pointers.antt =====
-- A lock of src/lock/ over the event of src/event.rs itself, with its list in memory, in place of the
-- queue that stands for it.
use unsend.Event.Listener
use unsend.Event.Inner
use unsend.Base.{
  ℕ, Bool, Option, none, some, zero, suc, ◌+◌, ◌-◌, List, [], ◌∷◌, ◌≡◌, ◌≢◌, ◌≤◌, true, false,
}
use unsend.Event.World.{Cmd, pure, ◌>>=◌, ◌>>◌, get}
use unsend.Event.Program.{tagged}
use unsend.Lock.Wait.{
  Progress, acquired, pending, looping, Future, start, awaiting, finished, after,
}
use unsend.Lock.System.{
  Lock, System, set_future, granted, try_step, begin_step, poll_step, cancel_step, release_step,
}

module _ {S : Type 0} where
  -- The poll of the listener waits, or the loop goes round.
  abbrev pub after_await :
      Option (Unit {0}) → S → Cmd (Unit {0}) (Progress × S) → Cmd (Unit {0}) (Progress × S)
  after_await none i again = pure (pending, i)
  after_await (some t) i again = again

  -- The loop, from its top or from the `.await` of the listener, which is dropped with the future.
  unfoldable pub pointer_turn :
      Bool → ℕ → (S → Option S) → ℕ → ℕ → S → Cmd (Unit {0}) (Progress × S)
  pointer_turn top zero try a v i = pure (looping, i)
  pointer_turn true (suc fuel) try a v i = elim (try i) [
    | none ↦ pointer_turn false fuel try a v i
    | some j ↦ do Listener.drop a; pure (acquired, j)
  ]
  pointer_turn false (suc fuel) try a v i = do
    r ← Listener.poll a v
    after_await r i (pointer_turn true fuel try a v i)

  -- A poll of the future: its first one makes the listener.
  unfoldable pub pointer_poll : (S → Option S) → ℕ → ℕ → Future → S → Cmd (Unit {0}) (Progress × S)
  unfolding pointer_turn
  pointer_poll try a v start i = do
    Listener.new a
    inner ← get
    pointer_turn true (suc (suc (inner.notified + inner.notified))) try a v i
  pointer_poll try a v awaiting i = do
    inner ← get
    pointer_turn false (suc (suc (inner.notified + inner.notified))) try a v i
  pointer_poll try a v finished i = pure (looping, i)

-- The drop of the future.
unfoldable pub pointer_drop : ℕ → Future → Cmd (Unit {0}) (Unit {0})
pointer_drop a start = pure tt
pointer_drop a awaiting = Listener.drop a
pointer_drop a finished = pure tt

-- What the users of a lock do.
pub data Op : Type 0 where
  tries : Op
  begins : ℕ → Op
  polls : ℕ → ℕ → Op
  cancels : ℕ → Op
  releases : Op

-- The lock besides its event, its futures, and how many guards are out.
pub record Held (S : Type 0) : Type 0 where
  pub inner : S
  pub futures : ℕ → Future
  pub guards : ℕ

module _ {S : Type 0} (l : Lock S) where
  unfoldable pub pointer_step : Op → Held S → Cmd (Unit {0}) (Held S)
  unfolding pointer_poll pointer_drop
  pointer_step tries h = elim (l.try h.inner) [
    | none ↦ pure h
    | some i ↦ pure (record h { inner = i; guards = suc h.guards })
  ]
  pointer_step (begins a) h = pure (record h { futures = set_future h.futures a start })
  pointer_step (polls a v) h = do
    r ← pointer_poll l.try a v (h.futures a) h.inner
    pure (record {
      inner = r.1;
      futures = set_future h.futures a (after r.0);
      guards = granted r.0 + h.guards;
    })
  pointer_step (cancels a) h = do
    pointer_drop a (h.futures a)
    pure (record h { futures = set_future h.futures a finished })
  pointer_step releases h = do
    _ ← Inner.notify (tagged false (λ i. tt)) (1, 0)
    pure (record h { inner = l.put h.inner; guards = h.guards - 1 })

  unfoldable pub pointer_run : List Op → Held S → Cmd (Unit {0}) (Held S)
  unfolding pointer_step
  pointer_run [] h = pure h
  pointer_run (o ∷ os) h = do h' ← pointer_step o h; pointer_run os h'

  -- The same over the queue.
  unfoldable pub system_step : Op → System S → System S
  unfolding try_step begin_step poll_step cancel_step release_step
  system_step tries s = try_step l s
  system_step (begins a) s = begin_step a s
  system_step (polls a v) s = poll_step l a v s
  system_step (cancels a) s = cancel_step a s
  system_step releases s = release_step l s

  unfoldable pub system_run : List Op → System S → System S
  unfolding system_step
  system_run [] s = s
  system_run (o ∷ os) s = system_run os (system_step o s)

  -- What ownership allows, as in Lock/System.
  abbrev pub Owned : Op → System S → Type 0
  Owned tries s = Unit {0}
  Owned (begins a) s = s.futures a ≡ finished
  Owned (polls a v) s = s.futures a ≢ finished
  Owned (cancels a) s = Unit {0}
  Owned releases s = 1 ≤ s.guards

  abbrev pub AllOwned : List Op → System S → Type 0
  AllOwned [] s = Unit {0}
  AllOwned (o ∷ os) s = Owned o s × AllOwned os (system_step o s)

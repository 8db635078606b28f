-- ===== src/Lock/System.antt =====
-- Any use of a lock that one event serves: futures that wait for it, at their addresses, and the
-- guards that are out. The interface `Lock` is what src/lock/mutex.rs and src/lock/semaphore.rs give.
use unsend.Queue
use unsend.Lock.Wait.{
  Shared, Progress, poll_future, drop_future, Future, finished, start, acquired, pending, looping,
  notify_one,
}
use unsend.Base.{ℕ, Option, ◌-◌, ◌≡◌, some, ◌+◌, suc, if◌then◌else◌, ◌≢◌, none, ◌==◌, ◌≤◌, ◌<◌}

-- How often the lock can be taken is `free`; `put` gives one back.
pub record Lock (S : Type 0) : Type 0 where
  pub try : S → Option S
  pub release : Shared S → Shared S
  pub put : S → S
  pub free : S → ℕ
  pub capacity : ℕ
  pub try-some : (i j : S) → try i ≡ some j → free i ≡ suc (free j)
  pub try-none : (i : S) → try i ≡ none → free i ≡ 0
  pub free-put : (i : S) → free i < capacity → free (put i) ≡ suc (free i)
  pub release_lem : (s : Shared S) → release s ≡ record (notify_one s) { inner = put s.inner }

pub record System (S : Type 0) : Type 0 where
  pub shared : Shared S
  pub futures : ℕ → Future
  pub guards : ℕ

abbrev pub set_future : (ℕ → Future) → ℕ → Future → ℕ → Future
set_future fs a f b = if b == a then f else fs b

abbrev pub granted : Progress → ℕ
granted acquired = 1
granted pending = 0
granted looping = 0

module _ {S : Type 0} where
  -- A lock that no future waits for and no guard holds.
  abbrev pub unused : Shared S → System S
  unused s = record { shared = s; futures = λ a. finished; guards = 0 }

  unfoldable pub try_step : Lock S → System S → System S
  try_step l s = elim (l.try s.shared.inner) [
    | none ↦ s
    | some i ↦ record s { shared = record s.shared { inner = i }; guards = suc s.guards }
  ]

  unfoldable pub begin_step : ℕ → System S → System S
  begin_step a s = record s { futures = set_future s.futures a start }

  unfoldable pub poll_step : Lock S → ℕ → ℕ → System S → System S
  unfolding poll_future
  poll_step l a v s =
      let (r, f, sh) = poll_future l.try a v (s.futures a) s.shared in
      record { shared = sh; futures = set_future s.futures a f; guards = granted r + s.guards }

  unfoldable pub cancel_step : ℕ → System S → System S
  unfolding drop_future
  cancel_step a s = record s {
    shared = drop_future a (s.futures a) s.shared;
    futures = set_future s.futures a finished;
  }

  unfoldable pub release_step : Lock S → System S → System S
  release_step l s = record s { shared = l.release s.shared; guards = s.guards - 1 }

  -- A holder changes what the lock protects.
  unfoldable pub edit_step : S → System S → System S
  edit_step i s = record s { shared = record s.shared { inner = i } }

-- What ownership allows: a future is polled until it returns, and a guard is dropped once.
pub data Reachable {S : Type 0} (l : Lock S) : System S → Type 0 where
  starts :
      (s : Shared S) → s.event ≡ Queue.empty → l.free s.inner ≡ l.capacity → Reachable l (unused s)
  tries : (s : System S) → Reachable l s → Reachable l (try_step l s)
  begins :
      (s : System S) (a : ℕ) → s.futures a ≡ finished → Reachable l s → Reachable l (begin_step a s)
  polls :
      (s : System S) (a v : ℕ)
      → s.futures a ≢ finished
      → Reachable l s
      → Reachable l (poll_step l a v s)
  cancels : (s : System S) (a : ℕ) → Reachable l s → Reachable l (cancel_step a s)
  releases : (s : System S) → 1 ≤ s.guards → Reachable l s → Reachable l (release_step l s)
  edits :
      (s : System S) (i : S)
      → 1 ≤ s.guards
      → l.free i ≡ l.free s.shared.inner
      → Reachable l s
      → Reachable l (edit_step i s)

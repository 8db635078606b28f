-- ===== src/Lock/Barrier.antt =====
-- The barrier. Models src/lock/barrier.rs; the `while` loop is the loop of Lock/Wait.
use unsend.Queue
use unsend.Event.Notification.{usize_max}
use unsend.Base.{
  none, some, ℕ, [], Option, false, ◌+◌, if◌then◌else◌, ◌==◌, ◌++◌, ltb, ◌&&◌, ◌%◌, ◌^◌,
}
use unsend.Lock.Wait.{
  Progress, poll_future, Shared, drop_listener, Future, acquired, pending, start, looping, awaiting,
}

pub record Arrivals : Type 0 where
  pub n : ℕ
  pub count : ℕ
  pub generation : ℕ

-- Where a `wait` future stands; `arrived` keeps its `local_gen`.
pub data WaitFuture : Type 0 where
  unstarted : WaitFuture
  arrived : ℕ → WaitFuture
  left : WaitFuture

-- `BarrierWaitResult`, or that the future waits; `no_fuel` is for a loop that runs out of fuel.
pub data WaitResult : Type 0 where
  leader : WaitResult
  follower : WaitResult
  still_waiting : WaitResult
  no_fuel : WaitResult

-- `Barrier::new`.
unfoldable pub new : ℕ → Shared Arrivals
new n = record {
  event = Queue.empty;
  woken = [];
  inner = record { n = n; count = 0; generation = 0 };
}

-- The end of the `while` loop: another generation, or enough tasks.
unfoldable pub passed : ℕ → Arrivals → Option Arrivals
passed local_gen i = if (local_gen == i.generation) && ltb i.count i.n then none else some i

abbrev pub to_result : Progress → WaitResult
to_result acquired = follower
to_result pending = still_waiting
to_result looping = no_fuel

abbrev pub wait_after : ℕ → Progress → WaitFuture
wait_after g acquired = left
wait_after g pending = arrived g
wait_after g looping = arrived g

-- The `while` loop, as a future that is new or at its `.await`.
unfoldable pub follow :
    ℕ → ℕ → ℕ → Future → Shared Arrivals → WaitResult × WaitFuture × Shared Arrivals
unfolding poll_future
follow g a v f s =
    let (r, _, s') = poll_future (passed g) a v f s in (to_result r, wait_after g r, s')

-- The leader resets the count, starts a generation (a `u64` that wraps, as without overflow checks)
-- and notifies everyone.
unfoldable pub lead : Shared Arrivals → Shared Arrivals
lead s = record s {
  event = Queue.notify usize_max false (λ _. tt) s.event;
  woken = s.woken ++ Queue.notify_wakes usize_max false s.event;
  inner = record s.inner { count = 0; generation = (s.inner.generation + 1) % 2 ^ 64 };
}

abbrev pub arrive : Shared Arrivals → Shared Arrivals
arrive s = record s { inner = record s.inner { count = s.inner.count + 1 } }

-- A poll of a `wait` future whose listener is `a`, by the task `v`.
unfoldable pub wait :
    ℕ → ℕ → WaitFuture → Shared Arrivals → WaitResult × WaitFuture × Shared Arrivals
unfolding follow lead
wait a v unstarted s =
    let s' = arrive s in
    if ltb s'.inner.count s'.inner.n
    then follow s.inner.generation a v start s'
    else (leader, left, lead s')
wait a v (arrived g) s = follow g a v awaiting s
wait a v left s = (no_fuel, left, s)

-- The drop of a `wait` future; the count stays.
unfoldable pub drop_wait : ℕ → WaitFuture → Shared Arrivals → Shared Arrivals
unfolding drop_listener
drop_wait a unstarted s = s
drop_wait a (arrived g) s = drop_listener a s
drop_wait a left s = s

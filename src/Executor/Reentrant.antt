-- ===== src/Executor/Reentrant.antt =====
-- The scheduler function of src/executor.rs, which wakes a ticker while the thread state is borrowed.
use unsend.Queue
use unsend.Executor.Crates.{Crates}
use unsend.Base.{
  ◌∷◌, [], ◌++◌, List, ℕ, Option, Bool, false, if◌then◌else◌, ◌==◌, ◌&&◌, ◌||◌, is_some,
}
use unsend.Executor.{State, set_local, notify_waker, schedule_there, same_thread}
use unsend.Executor.Shutdown.{Closing, closed, and_then, under_borrow, scheduling}

-- `task_of` gives the runnable that a waker schedules when it is called, if it is the waker of a task
-- of this executor that is neither scheduled nor run.
module _ {Q A S W R : Type 0} (c : Crates Q A S W R) (task_of : ℕ → Option R) where
  -- The wakers that are called while the thread state is borrowed.
  unfoldable pub wake_all : List ℕ → State Q A S R → Closing (State Q A S R)
  unfolding under_borrow
  wake_all [] s = closed s
  wake_all (v ∷ vs) s = and_then (under_borrow c (scheduling c (task_of v) s) s) (wake_all vs)

  -- The scheduler function on the owning thread: the borrow lasts until it returns.
  unfoldable pub schedule_borrowing : R → State Q A S R → Closing (State Q A S R)
  unfolding wake_all notify_waker
  schedule_borrowing r s =
      let q = s.thread_state.thread_waker in
      let t = notify_waker c (Queue.take_item r) s in
      let taken = Queue.delivered (Queue.quota 1 false q) q.waiters in
      and_then (wake_all (Queue.notify_wakes 1 false q) t) (λ u.
        closed (if taken == 0 then set_local c (u.thread_state.local_queue ++ r ∷ []) u else u))

  -- `Executor::schedule` with its borrow.
  unfoldable pub schedule_checked : Option ℕ → R → State Q A S R → Closing (State Q A S R)
  unfolding schedule_borrowing schedule_there
  schedule_checked current r s =
      let t = record s { scheduled = s.scheduled ++ r ∷ [] } in
      if same_thread s.origin_thread current
      then schedule_borrowing r t
      else closed (schedule_there c r t)

  abbrev pub wakes_own : List ℕ → Bool
  wakes_own [] = false
  wakes_own (v ∷ vs) = is_some (task_of v) || wakes_own vs

  -- Whether the scheduler function calls the waker of a task of this executor.
  abbrev pub reenters : Option ℕ → State Q A S R → Bool
  reenters current s =
      same_thread s.origin_thread current
      && wakes_own (Queue.notify_wakes 1 false s.thread_state.thread_waker)

-- ===== src/Executor/ReentrantExamples.antt =====
-- A scheduler function that wakes a ticker of a task of its own executor.
use unsend.Queue
use unsend.Base.{refl, some, none, ℕ, Option, ◌≡◌, if◌then◌else◌, ◌==◌}
use unsend.Executor.{notify_waker, with_thread_id}
use unsend.Executor.Shutdown.{panicked, under_borrow}
use unsend.Executor.Sample.{idle_crates}
use unsend.Executor.Runs.{asleep}
use unsend.Executor.Reentrant.{schedule_checked, schedule_borrowing, wake_all}
use unsend.Executor.Ticker.{
  tick, tick_turn, tick_local, poll_mainstream, register_mainstream, push_all, poll_tick_listener,
}
use unsend.Executor.Use.{tick_step}

-- The waker 10 is that of the task 8, which awaits a tick of the executor.
abbrev task_of_ten : ℕ → Option ℕ
task_of_ten v = if v == 10 then some 8 else none

schedule_checked_run : schedule_checked idle_crates task_of_ten (some 1) 7 asleep.state ≡ panicked
unfolding tick_step tick tick_turn tick_local poll_mainstream register_mainstream push_all
    with_thread_id poll_tick_listener Queue.poll_result schedule_checked schedule_borrowing wake_all
    under_borrow notify_waker Queue.poll Queue.registered Queue.listen Queue.insert
    Queue.notify_wakes Queue.quota Queue.wakers
schedule_checked_run = refl

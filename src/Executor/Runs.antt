-- ===== src/Executor/Runs.antt =====
-- An executor in use: a ticker waits, other threads and its own schedule tasks.
use unsend.Queue
use unsend.Base.{refl, some, [], ℕ, Option, arith, List}
use unsend.Executor.Use.{
  Driven, creates, wakes_task, makes_ticker, begins_tick, polls_tick, ExecSystem, begin_tick,
  tick_step, new_ticker, new_executor,
}
use unsend.Executor.Ticker.{
  Racing, tick, tick_turn, tick_local, poll_mainstream, register_mainstream, push_all,
  poll_tick_listener,
}
use unsend.Executor.{schedule, with_thread_id, State}
use unsend.Executor.Sample.{idle_crates}
use unsend.Queue.{Notice, Queue, Waiter}

abbrev pub quiet : Racing ℕ
quiet = record { before = []; behind = [] }

-- A ticker waits at the address 0 as the mainstream, for the task 10.
abbrev pub Idle : Type 0
Idle = ExecSystem (List ℕ) (Option ℕ) (List (Option ℕ)) ℕ

abbrev pub begun : Idle
begun = begin_tick idle_crates 0 (new_ticker idle_crates 0 (new_executor idle_crates (some 1)))

abbrev pub asleep : Idle
asleep = tick_step idle_crates 0 10 quiet begun

-- Another thread schedules the task 7, and the ticker runs it.
abbrev pub called : Idle
called = record asleep { state = schedule idle_crates (some 2) 7 asleep.state }

abbrev pub ran_seven : Idle
ran_seven = tick_step idle_crates 0 10 quiet called

begun-Driven : Driven idle_crates begun
unfolding with_thread_id
begun-Driven =
    begins_tick (new_ticker idle_crates 0 (new_executor idle_crates (some 1))) 0 refl refl
      (makes_ticker (new_executor idle_crates (some 1)) 0 refl (creates (some 1)))

pub asleep-Driven : Driven idle_crates asleep
asleep-Driven = polls_tick begun 0 10 quiet refl (ground arith) begun-Driven

pub ran_seven-Driven : Driven idle_crates ran_seven
unfolding tick_step tick tick_turn tick_local poll_mainstream register_mainstream push_all
    with_thread_id poll_tick_listener Queue.poll_result
ran_seven-Driven =
    polls_tick called 0 10 quiet refl (ground arith) (wakes_task asleep (some 2) 7 asleep-Driven)

-- The thread of the executor schedules the task 7 for the ticker that waits.
abbrev pub handed : Idle
handed = record asleep { state = schedule idle_crates (some 1) 7 asleep.state }

abbrev pub fresh : State (List ℕ) (Option ℕ) (List (Option ℕ)) ℕ
fresh = with_thread_id idle_crates (some 1)

abbrev pub waker_of : Idle → Queue (Option ℕ)
waker_of s = s.state.thread_state.thread_waker

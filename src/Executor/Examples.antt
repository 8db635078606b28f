-- ===== src/Executor/Examples.antt =====
-- Runs of the executor at concrete values.
use unsend.Queue
use unsend.Executor.Threads.{id}
use unsend.Executor.Ticker.{ticked, tick_pending, tick_once}
use unsend.Base.{
  refl, none, some, [], ◌∷◌, ℕ, ◌≡◌, Option, arith, true, false, ◌≢◌, ◌==◌, List, not, ◌++◌, ◌⊎◌,
  to_list,
}
use unsend.Executor.Use.{begin_tick, tick_step, new_ticker}
use unsend.Executor.Ticker.{
  tick_start, tick_await, tick_done, tick, tick_turn, tick_local, poll_mainstream,
  register_mainstream, push_all, poll_tick_listener, run_direct, drop_tick_listener, drop_tick,
  run_turns, tick_fuel,
}
use unsend.Executor.{
  schedule, with_thread_id, schedule_there, wake_mainstream, run_task, perform, same_thread,
  try_tick, State, is_empty, schedule_here, notify_waker, set_local,
}
use unsend.Executor.Sample.{idle_crates, busy_crates}
use unsend.Executor.Ticking.{Accounted}
use unsend.Executor.Awake.{IsAwake}
use unsend.Executor.Mainstream.{Driven-Accounted}
use unsend.Executor.Waking.{Driven-IsAwake}
use unsend.Queue.{Notice, Queue}
use unsend.Executor.Starving.{IsBusy, run_turns-starving}
use unsend.Executor.Scheduling.{ToTicker, ToLocal, ToMainstream, ToNowhere, schedule-routes}
use unsend.Executor.Trying.{try_tick-schedule, waiting, try_tick-is_empty, next_of}
use unsend.Executor.Waits.{Asleep, tick-outcome}
use unsend.Executor.Sole.{Sole, flag, Driven-Sole}
use unsend.Executor.Few.{Few, Driven-Few}
use unsend.Executor.Ticks.{tick-try_tick}
use unsend.Executor.Runs.{
  ran_seven, asleep, called, fresh, waker_of, handed, quiet, Idle, ran_seven-Driven, asleep-Driven,
  begun,
}

ran_seven_run : ran_seven.state.ran ≡ 7 ∷ []
unfolding tick_step tick tick_turn tick_local poll_mainstream register_mainstream push_all
    with_thread_id poll_tick_listener Queue.poll_result schedule schedule_there wake_mainstream
    run_direct run_task perform drop_tick_listener Queue.poll Queue.registered Queue.listen
    Queue.insert Queue.drop
ran_seven_run = refl

Driven-Accounted_example : Accounted idle_crates (λ x. x == 7) ran_seven.state
Driven-Accounted_example = Driven-Accounted idle_crates (λ x. x == 7) ran_seven ran_seven-Driven

Driven-IsAwake_example : IsAwake idle_crates asleep.state
Driven-IsAwake_example = Driven-IsAwake idle_crates asleep asleep-Driven

schedule-routes_example :
    ((same_thread asleep.state.origin_thread (some 1) ≡ true)
      × (ToTicker idle_crates 7 asleep.state handed.state
          ⊎ ToLocal idle_crates 7 asleep.state handed.state))
    ⊎ ((same_thread asleep.state.origin_thread (some 1) ≡ false)
        × (ToMainstream idle_crates 7 asleep.state handed.state
            ⊎ ToNowhere idle_crates 7 asleep.state handed.state))
schedule-routes_example = schedule-routes idle_crates (some 1) 7 asleep.state

try_tick-is_empty_example :
    ((try_tick idle_crates called.state).0 ≡ not (is_empty idle_crates called.state))
    × ((try_tick idle_crates called.state).1.ran
        ≡ called.state.ran ++ to_list (next_of (waiting idle_crates called.state)))
try_tick-is_empty_example = try_tick-is_empty idle_crates called.state

fresh-is_empty : is_empty idle_crates fresh ≡ true
unfolding is_empty with_thread_id
fresh-is_empty = refl

fresh-waiters : fresh.thread_state.thread_waker.waiters ≡ []
unfolding with_thread_id
fresh-waiters = refl

fresh-push : idle_crates.queue.push 7 fresh.task_queue ≢ none
fresh-push = ground arith

try_tick-schedule_example :
    ((try_tick idle_crates (schedule idle_crates (some 2) 7 fresh)).0 ≡ true)
    × ((try_tick idle_crates (schedule idle_crates (some 2) 7 fresh)).1.ran ≡ fresh.ran ++ 7 ∷ [])
try_tick-schedule_example =
    try_tick-schedule idle_crates (some 2) 7 fresh fresh-is_empty fresh-waiters fresh-push

-- The ticker at the address 0 was notified with the task 7.
abbrev notified : Notice (Option ℕ)
notified = record { id = 0; tag = some 7; extra = false }

-- A ticker that is dropped when it was notified and no other waits: the runnable is lost.
handed_lost : (drop_tick idle_crates 0 tick_await handed.state).lost ≡ 7 ∷ []
unfolding tick_step tick tick_turn tick_local poll_mainstream register_mainstream push_all
    with_thread_id poll_tick_listener Queue.poll_result schedule schedule_here notify_waker
    Queue.poll Queue.registered Queue.listen Queue.insert Queue.notify Queue.deliver Queue.quota
    drop_tick drop_tick_listener Queue.lost_by Queue.delivered
handed_lost = refl

-- A task that schedules itself is in the thread-local queue.
abbrev busy : State (List ℕ) (Option ℕ) (List (Option ℕ)) ℕ
busy = set_local busy_crates (7 ∷ []) (with_thread_id busy_crates (some 1))

busy-IsBusy : IsBusy busy_crates 1 (7 ∷ []) busy
unfolding IsBusy with_thread_id
busy-IsBusy = (refl, refl, refl)

run_turns-starving_example :
    (run_turns busy_crates 200 0 10 quiet tick_start false busy).0 ≡ tick_fuel
run_turns-starving_example =
    run_turns-starving busy_crates 1 200 7 [] 0 10 quiet false busy (λ xs r. refl) busy-IsBusy

-- Two tickers wait and two tasks are scheduled: the first ticker is notified and runs its task, the
-- second task stays in the thread-local queue, and the second ticker sleeps.
abbrev two_asleep : Idle
two_asleep =
    tick_step idle_crates 1 11 quiet (begin_tick idle_crates 1 (new_ticker idle_crates 1 asleep))

abbrev two_scheduled : Idle
two_scheduled = record two_asleep {
  state = schedule idle_crates (some 1) 8 (schedule idle_crates (some 1) 7 two_asleep.state);
}

abbrev one_ran : Idle
one_ran = tick_step idle_crates 0 10 quiet two_scheduled

one_ran_sleeps :
    (one_ran.state.ran ≡ 7 ∷ [])
    × (one_ran.state.thread_state.local_queue ≡ 8 ∷ [])
    × ((one_ran.tickers 0).future ≡ tick_done)
    × (waker_of one_ran
        ≡ record { notices = []; waiters = record { id = 1; waker = some 11 } ∷ [] })
unfolding tick_step tick tick_turn tick_local poll_mainstream register_mainstream push_all
    with_thread_id poll_tick_listener Queue.poll_result schedule schedule_here notify_waker
    run_direct run_task perform drop_tick_listener Queue.drop Queue.poll Queue.registered
    Queue.listen Queue.insert Queue.notify Queue.deliver Queue.quota Queue.delivered
one_ran_sleeps = (refl, refl, refl, refl)

begun_waits : (tick idle_crates 0 10 quiet tick_start false begun.state).0 ≡ tick_pending
unfolding tick tick_turn tick_local poll_mainstream register_mainstream push_all with_thread_id
    poll_tick_listener Queue.poll_result
begun_waits = refl

tick-outcome_example :
    let p = tick idle_crates 0 10 quiet tick_start false begun.state in
    (p.0 ≡ ticked) ⊎ ((p.0 ≡ tick_pending) × Asleep idle_crates 0 10 p)
tick-outcome_example = tick-outcome idle_crates 0 10 quiet tick_start false begun.state

Driven-Sole_example : Sole asleep.tickers (flag asleep.state)
Driven-Sole_example = Driven-Sole idle_crates asleep asleep-Driven

Driven-Few_example : Few ran_seven.state.thread_state.thread_waker
Driven-Few_example = Driven-Few idle_crates ran_seven ran_seven-Driven

busy-local : busy.thread_state.local_queue ≡ 7 ∷ []
busy-local = refl

busy-out : Queue.in_queue 0 busy.thread_state.thread_waker ≡ false
unfolding with_thread_id
busy-out = refl

tick-try_tick_example :
    (tick busy_crates 0 10 quiet tick_start false busy
      ≡ (ticked, false, (try_tick busy_crates busy).1))
    × (tick_once busy_crates 0 10 quiet tick_start false busy
        ≡ (ticked, false, (try_tick busy_crates busy).1))
tick-try_tick_example = tick-try_tick busy_crates 7 [] 0 10 quiet false busy busy-local busy-out

-- ===== src/Executor/Shutdown/Examples.antt =====
-- Drops of an executor at concrete values.
use unsend.Queue
use unsend.Base.{refl, none, some, [], ◌∷◌, ℕ, ◌≡◌, Option, suc, length, List, ◌++◌, to_list}
use unsend.Executor.Shutdown.{
  Closing, drop_fuel, forget_all, under_borrow, drain_queues, drain_local, destroy, destroy_local,
  closed, panicked, wake_tasks, drop_executor,
}
use unsend.Executor.{
  State, with_thread_id, set_local, spawn, schedule, schedule_here, schedule_there, notify_waker,
  wake_mainstream, try_tick, try_local, run_task, perform, end_task,
}
use unsend.Executor.Sample.{scheduled_crates, idle_crates, polled_crates}
use unsend.Executor.Shutdown.Drained.{IsDrained, wake_tasks-one}
use unsend.Executor.Shutdown.Aborts.{drop_executor-panicked}
use unsend.Executor.Shutdown.Leftover.{Inert, rest_of, drop_executor-rest}

abbrev Quiet : Type 0
Quiet = State (List ℕ) (Option ℕ) (List (Option ℕ)) ℕ

-- Two tasks were spawned and wait for something.
abbrev two_active : Quiet
two_active =
    let s = with_thread_id idle_crates (some 1) in
    record s { thread_state = record s.thread_state { active = some 3 ∷ none ∷ some 4 ∷ [] } }

wake_tasks-one_example :
    (t : Quiet) × (wake_tasks idle_crates 2 two_active ≡ closed t)
    × IsDrained idle_crates t
    × (t.scheduled ≡ two_active.scheduled ++ to_list (some 3))
wake_tasks-one_example = wake_tasks-one idle_crates 0 two_active 3 (λ w. refl) refl

-- A task that was polled is in the thread-local queue.
abbrev polled : Quiet
polled = set_local polled_crates (7 ∷ []) (with_thread_id polled_crates (some 1))

drop_executor-panicked_example : drop_executor polled_crates 9 polled ≡ panicked
drop_executor-panicked_example = drop_executor-panicked polled_crates 8 7 [] 7 [] polled refl refl

-- Three tasks are spawned, each is polled once and waits, and another thread wakes all of them: they
-- are in the mainstream queue, with their wakers in the slab.
abbrev three_spawned : Quiet
three_spawned =
    let c = scheduled_crates in spawn c 2 (spawn c 1 (spawn c 0 (with_thread_id c (some 1))))

abbrev ticked_once : Quiet → Quiet
ticked_once s = (try_tick scheduled_crates s).1

abbrev three_waiting : Quiet
three_waiting = ticked_once (ticked_once (ticked_once three_spawned))

abbrev three_woken : Quiet
three_woken =
    let c = scheduled_crates in
    schedule c (some 2) 2 (schedule c (some 2) 1 (schedule c (some 2) 0 three_waiting))

three_woken-Inert : Inert scheduled_crates three_woken.thread_state.local_queue
unfolding spawn schedule schedule_here schedule_there with_thread_id notify_waker wake_mainstream
    try_tick try_local run_task perform Queue.delivered Queue.quota Queue.notify
three_woken-Inert = tt

drop_executor-rest_example :
    let n = suc (length three_woken.thread_state.local_queue) in
    (t : Quiet) × (drop_executor scheduled_crates n three_woken ≡ closed t)
    × (t.task_queue ≡ rest_of n three_woken.task_queue)
    × (t.thread_state.local_queue ≡ [])
    × IsDrained scheduled_crates t
drop_executor-rest_example =
    drop_executor-rest scheduled_crates three_woken (λ w. refl) (λ w. refl) (λ r. refl)
      three_woken-Inert

-- Two of the three are never dropped.
abbrev queued_after : Closing Quiet → Option (List ℕ)
queued_after (closed t) = some t.task_queue
queued_after panicked = none
queued_after drop_fuel = none

three_woken_run : queued_after (drop_executor scheduled_crates 1 three_woken) ≡ some (1 ∷ 2 ∷ [])
unfolding spawn schedule schedule_here schedule_there with_thread_id notify_waker wake_mainstream
    try_tick try_local run_task perform Queue.delivered Queue.quota Queue.notify drop_executor
    wake_tasks forget_all under_borrow drain_queues drain_local destroy destroy_local end_task
three_woken_run = refl

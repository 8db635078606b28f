-- ===== src/Executor/Walk.antt =====
-- What running a task of src/executor.rs keeps of the event of the tickers, and of the flag of the
-- mainstream.
use unsend.Queue
use unsend.Executor.Crates.{Crates, Call, schedules, spawns, ends}
use unsend.Base.{
  none, [], ◌∷◌, ◌++◌, inl, inr, ℕ, Option, false, ◌≡◌, Bool, List, Option-cases, Bool-cases, ◌==◌,
}
use unsend.Queue.{Queue}
use unsend.Executor.{
  State, notify_waker, schedule_here, schedule_there, schedule, spawn, perform, run_task,
  try_mainstream, try_local, try_tick, wake_mainstream, same_thread, end_task, set_local,
}
use unsend.Executor.Ticker.{push_all}
use unsend.Executor.Scheduling.{logged}

-- A property of the event that a notification for one listener keeps, and a value of the flag.
module _ {Q A S W R : Type 0} (c : Crates Q A S W R) (P : Queue (Option R) → Type 0) (l : Bool)
    (notifies : (f : ℕ → Option R) (q : Queue (Option R))
      → P q
      → P (Queue.notify 1 false f q)) where
  unfoldable pub Keeps : State Q A S R → Type 0
  Keeps s = P s.thread_state.thread_waker × (s.thread_state.is_mainstream_listening ≡ l)

  pub notify_waker-Keeps :
      (f : ℕ → Option R) (s : State Q A S R) → Keeps s → Keeps (notify_waker c f s)
  unfolding Keeps notify_waker
  notify_waker-Keeps f s (h, e) = (notifies f s.thread_state.thread_waker h, e)

  schedule_here-Keeps : (r : R) (s : State Q A S R) → Keeps s → Keeps (schedule_here c r s)
  unfolding Keeps schedule_here
  schedule_here-Keeps r s h =
      let q = s.thread_state.thread_waker in
      let g = notify_waker-Keeps (Queue.take_item r) s h in
      elim (Bool-cases (Queue.delivered (Queue.quota 1 false q) q.waiters == 0)) [
        | inl f ↦ rw (f, schedule_here) g
        | inr f ↦ rw (f, schedule_here) g
      ]

  pub schedule_there-Keeps : (r : R) (s : State Q A S R) → Keeps s → Keeps (schedule_there c r s)
  unfolding Keeps schedule_there wake_mainstream
  schedule_there-Keeps r s h = elim (Option-cases (c.queue.push r s.task_queue)) [
    | inl e ↦ rw (e, schedule_there) h
    | inr (q, e) ↦ rw (e, schedule_there) h
  ]

  pub schedule-Keeps :
      (current : Option ℕ) (r : R) (s : State Q A S R) → Keeps s → Keeps (schedule c current r s)
  unfolding Keeps schedule
  schedule-Keeps current r s h = elim (Bool-cases (same_thread s.origin_thread current)) [
    | inl e ↦ rw (e, schedule) (schedule_here-Keeps r (logged c r s) h)
    | inr e ↦ rw (e, schedule) (schedule_there-Keeps r (logged c r s) h)
  ]

  pub spawn-Keeps : (r : R) (s : State Q A S R) → Keeps s → Keeps (spawn c r s)
  unfolding Keeps spawn
  spawn-Keeps r s h =
      schedule-Keeps s.origin_thread r
        (record s {
          thread_state = record s.thread_state {
            active = c.slab.insert (c.waker r) s.thread_state.active;
          };
        })
        h

  perform-Keeps : (cs : List (Call R)) (s : State Q A S R) → Keeps s → Keeps (perform c cs s)
  unfolding Keeps perform end_task
  perform-Keeps [] s h = h
  perform-Keeps (schedules current x ∷ cs) s h =
      perform-Keeps cs (schedule c current x s) (schedule-Keeps current x s h)
  perform-Keeps (spawns x ∷ cs) s h = perform-Keeps cs (spawn c x s) (spawn-Keeps x s h)
  perform-Keeps (ends index ∷ cs) s h = perform-Keeps cs (end_task c index s) h

  pub run_task-Keeps : (r : R) (s : State Q A S R) → Keeps s → Keeps (run_task c r s)
  unfolding Keeps run_task
  run_task-Keeps r s h = perform-Keeps (c.runs s.ran r) (record s { ran = s.ran ++ r ∷ [] }) h

  pub push_all-Keeps : (rs : List R) (s : State Q A S R) → Keeps s → Keeps (push_all c rs s)
  unfolding Keeps push_all
  push_all-Keeps [] s h = h
  push_all-Keeps (r ∷ rs) s h =
      push_all-Keeps rs (schedule_there c r (logged c r s))
        (schedule_there-Keeps r (logged c r s) h)

  try_mainstream-Keeps : (s : State Q A S R) → Keeps s → Keeps (try_mainstream c s).1
  unfolding Keeps try_mainstream wake_mainstream
  try_mainstream-Keeps s h = elim (Option-cases (c.queue.pop s.task_queue)) [
    | inl e ↦ rw (e, try_mainstream) h
    | inr ((r, q), e) ↦
        rw (e, try_mainstream)
          (run_task-Keeps r (wake_mainstream c (record s { task_queue = q })) h)
  ]

  try_local-Keeps : (rs : List R) (s : State Q A S R) → Keeps s → Keeps (try_local c rs s).1
  unfolding Keeps try_local
  try_local-Keeps [] s h = try_mainstream-Keeps s h
  try_local-Keeps (r ∷ rs) s h =
      let t = set_local c rs s in
      run_task-Keeps r (notify_waker c (λ _. none) t) (notify_waker-Keeps (λ _. none) t h)

  pub try_tick-Keeps : (s : State Q A S R) → Keeps s → Keeps (try_tick c s).1
  unfolding try_tick
  try_tick-Keeps s h = try_local-Keeps s.thread_state.local_queue s h

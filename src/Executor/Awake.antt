-- ===== src/Executor/Awake.antt =====
-- The waker of the mainstream in src/executor.rs and the queue that it is for.
use unsend.Queue
use unsend.Executor.Crates.{Crates, Call, schedules, spawns, ends, pop-none}
use unsend.Base.{
  none, some, [], ◌∷◌, inl, inr, List, ℕ, ◌≡◌, Option, ◌++◌, Option-cases, arith, false, Bool-cases,
  ◌==◌,
}
use unsend.Executor.Ticker.{
  run_direct, poll_mainstream, drop_tick_listener, Racing, poll_tick_listener, register_mainstream,
}
use unsend.Executor.{
  State, schedule_there, schedule, perform, run_task, wake_mainstream, schedule_here, spawn,
  notify_waker, end_task, same_thread,
}
use unsend.Executor.Scheduling.{logged}

module _ {Q A S W R : Type 0} (c : Crates Q A S W R) where
  -- While the waker of the mainstream is registered, the mainstream queue is empty.
  unfoldable pub IsAwake : State Q A S R → Type 0
  IsAwake s = (v : ℕ) → c.atomic.holds s.mainstream_waker ≡ some v → c.queue.items s.task_queue ≡ []

  pub cleared-IsAwake :
      (s : State Q A S R) (a : A) → IsAwake (record s { mainstream_waker = c.atomic.cleared a })
  unfolding IsAwake
  cleared-IsAwake s a v e = absurd (ground (arith, e, c.atomic.holds-cleared a))

  schedule_there-IsAwake : (r : R) (s : State Q A S R) → IsAwake s → IsAwake (schedule_there c r s)
  unfolding IsAwake schedule_there wake_mainstream
  schedule_there-IsAwake r s h = elim (Option-cases (c.queue.push r s.task_queue)) [
    | inl e ↦ rw (e, schedule_there) h
    | inr (q, e) ↦
        rw (e, schedule_there) (cleared-IsAwake (record s { task_queue = q }) s.mainstream_waker)
  ]

  schedule_here-IsAwake : (r : R) (s : State Q A S R) → IsAwake s → IsAwake (schedule_here c r s)
  unfolding IsAwake schedule_here notify_waker
  schedule_here-IsAwake r s h =
      let q = s.thread_state.thread_waker in
      elim (Bool-cases (Queue.delivered (Queue.quota 1 false q) q.waiters == 0)) [
        | inl f ↦ rw (f, schedule_here) h
        | inr f ↦ rw (f, schedule_here) h
      ]

  pub schedule-IsAwake :
      (current : Option ℕ) (r : R) (s : State Q A S R)
      → IsAwake s
      → IsAwake (schedule c current r s)
  unfolding IsAwake schedule schedule_here notify_waker
  schedule-IsAwake current r s h = elim (Bool-cases (same_thread s.origin_thread current)) [
    | inl e ↦ rw (e, schedule) (schedule_here-IsAwake r (logged c r s) h)
    | inr e ↦ rw (e, schedule) (schedule_there-IsAwake r (logged c r s) h)
  ]

  perform-IsAwake : (cs : List (Call R)) (s : State Q A S R) → IsAwake s → IsAwake (perform c cs s)
  unfolding IsAwake perform spawn end_task
  perform-IsAwake [] s h = h
  perform-IsAwake (schedules current x ∷ cs) s h =
      perform-IsAwake cs (schedule c current x s) (schedule-IsAwake current x s h)
  perform-IsAwake (spawns x ∷ cs) s h =
      let t = record s {
        thread_state = record s.thread_state {
          active = c.slab.insert (c.waker x) s.thread_state.active;
        };
      } in
      perform-IsAwake cs (spawn c x s) (schedule-IsAwake s.origin_thread x t h)
  perform-IsAwake (ends index ∷ cs) s h = perform-IsAwake cs (end_task c index s) h

  pub run_task-IsAwake : (r : R) (s : State Q A S R) → IsAwake s → IsAwake (run_task c r s)
  unfolding IsAwake run_task
  run_task-IsAwake r s h = perform-IsAwake (c.runs s.ran r) (record s { ran = s.ran ++ r ∷ [] }) h

  pub run_direct-IsAwake :
      (a v : ℕ) (r : R) (s : State Q A S R) → IsAwake s → IsAwake (run_direct c a v r s)
  unfolding IsAwake run_direct drop_tick_listener poll_tick_listener
  run_direct-IsAwake a v r s h =
      let t = run_task c r s in
      let u = poll_tick_listener c a v t in
      let g = run_task-IsAwake r s h in
      elim (Option-cases (Queue.poll_result a t.thread_state.thread_waker)) [
        | inl e ↦ rw e g
        | inr (none, e) ↦ rw e g
        | inr (some r', e) ↦ rw e (run_task-IsAwake r' u g)
      ]

  -- Taking a runnable out of a mainstream queue whose waker is registered is not possible.
  pub pop-IsAwake :
      (s : State Q A S R) (r : R) (q : Q)
      → c.queue.pop s.task_queue ≡ some (r, q)
      → IsAwake s
      → IsAwake (record s { task_queue = q })
  unfolding IsAwake
  pop-IsAwake s r q e h v f = absurd (ground (arith, e, c.queue.pop-nil s.task_queue (h v f)))

  pub poll_mainstream-IsAwake :
      (a v : ℕ) (racing : Racing R) (s : State Q A S R)
      → IsAwake s
      → IsAwake (poll_mainstream c a v racing s).1
  unfolding IsAwake poll_mainstream
  poll_mainstream-IsAwake a v racing s h = elim (Option-cases (c.queue.pop s.task_queue)) [
    | inl e ↦
        let t = register_mainstream c v racing s in
        elim (Option-cases (c.queue.pop t.task_queue)) [
          | inl f ↦
              rw (e, poll_mainstream)
                (rw (f, poll_mainstream) (λ w g. pop-none c.queue t.task_queue f))
          | inr ((r, q), f) ↦
              rw (e, poll_mainstream)
                (rw (f, poll_mainstream)
                  (run_direct-IsAwake a v r
                    (record t {
                      task_queue = q;
                      mainstream_waker = c.atomic.cleared t.mainstream_waker;
                    })
                    (cleared-IsAwake (record t { task_queue = q }) t.mainstream_waker)))
        ]
    | inr ((r, q), e) ↦
        rw (e, poll_mainstream)
          (run_direct-IsAwake a v r (record s { task_queue = q }) (pop-IsAwake s r q e h))
  ]

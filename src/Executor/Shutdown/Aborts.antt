-- ===== src/Executor/Shutdown/Aborts.antt =====
-- `Executor::drop`, in src/executor.rs, when a task that was polled waits in the thread-local queue.
use unsend.Executor.Crates.{Crates, Call, schedules, spawns, ends}
use unsend.Queue
use unsend.Base.{
  append-nil, sym, ap, ◌∙◌, ◌++◌, ◌==◌, Bool-cases, refl, [], ◌∷◌, inl, inr, List, ℕ, ◌≡◌, suc,
  Option-cases, Option, false,
}
use unsend.Executor.Shutdown.{
  panicked, under_borrow, destroy, drain_queues, drop_executor, destroy_local, drain_local,
  and_then, scheduling,
}
use unsend.Executor.{
  State, schedule, perform, schedule_here, spawn, schedule_there, end_task, notify_waker,
  wake_mainstream, set_local, same_thread,
}
use unsend.Executor.Shutdown.Drained.{wake_tasks-cases}

module _ {Q A S W R : Type 0} (c : Crates Q A S W R) where
  -- The runnable `r` is the first of the thread-local queue.
  unfoldable pub IsFirst : R → State Q A S R → Type 0
  IsFirst r s = (rs : List R) × (s.thread_state.local_queue ≡ r ∷ rs)

  schedule-local :
      (current : Option ℕ) (x : R) (s : State Q A S R)
      → (ys : List R) × ((schedule c current x s).thread_state.local_queue
          ≡ s.thread_state.local_queue ++ ys)
  unfolding schedule schedule_here schedule_there notify_waker wake_mainstream
  schedule-local current x s =
      let q = s.thread_state.thread_waker in
      let xs = s.thread_state.local_queue in
      elim (Bool-cases (same_thread s.origin_thread current)) [
        | inl e ↦ elim (Bool-cases (Queue.delivered (Queue.quota 1 false q) q.waiters == 0)) [
          | inl f ↦ (x ∷ [], rw (e, schedule, f, schedule_here) refl)
          | inr f ↦ ([], rw (e, schedule, f, schedule_here) (sym (append-nil xs)))
        ]
        | inr e ↦ elim (Option-cases (c.queue.push x s.task_queue)) [
          | inl f ↦ ([], rw (e, schedule, f, schedule_there) (sym (append-nil xs)))
          | inr (q', f) ↦ ([], rw (e, schedule, f, schedule_there) (sym (append-nil xs)))
        ]
      ]

  schedule-IsFirst :
      (r : R) (current : Option ℕ) (x : R) (s : State Q A S R)
      → IsFirst r s
      → IsFirst r (schedule c current x s)
  unfolding IsFirst
  schedule-IsFirst r current x s (rs, h) =
      let (ys, e) = schedule-local current x s in (rs ++ ys, e ∙ ap (λ xs. xs ++ ys) h)

  perform-IsFirst :
      (r : R) (cs : List (Call R)) (s : State Q A S R) → IsFirst r s → IsFirst r (perform c cs s)
  unfolding IsFirst perform spawn end_task
  perform-IsFirst r [] s h = h
  perform-IsFirst r (schedules current x ∷ cs) s h =
      perform-IsFirst r cs (schedule c current x s) (schedule-IsFirst r current x s h)
  perform-IsFirst r (spawns x ∷ cs) s h =
      let t = record s {
        thread_state = record s.thread_state {
          active = c.slab.insert (c.waker x) s.thread_state.active;
        };
      } in
      perform-IsFirst r cs (spawn c x s) (schedule-IsFirst r s.origin_thread x t h)
  perform-IsFirst r (ends index ∷ cs) s h = perform-IsFirst r cs (end_task c index s) h

  -- The drop of a runnable that was polled runs the guard of its task, which borrows the thread state.
  ends-panicked :
      (r : R) (index : ℕ) (cs : List (Call R)) (s : State Q A S R)
      → c.drops r ≡ ends index ∷ cs
      → under_borrow c (c.drops r) s ≡ panicked
  unfolding under_borrow
  ends-panicked r index cs s e = rw (e, under_borrow) refl

  destroy_local-panicked :
      (r : R) (rs : List R) (index : ℕ) (cs : List (Call R)) (s : State Q A S R)
      → c.drops r ≡ ends index ∷ cs
      → destroy_local c (r ∷ rs) s ≡ panicked
  unfolding destroy_local
  destroy_local-panicked r rs index cs s e = rw (ends-panicked r index cs s e, destroy_local) refl

  destroy-panicked :
      (r : R) (index : ℕ) (cs : List (Call R)) (s : State Q A S R)
      → c.drops r ≡ ends index ∷ cs
      → IsFirst r s
      → destroy c s ≡ panicked
  unfolding IsFirst destroy destroy_local
  destroy-panicked r index cs s e (rs, h) =
      rw (ap (λ xs. destroy_local c xs s) h ∙ destroy_local-panicked r rs index cs s e, destroy)
        refl

  drain-panicked :
      (fuel : ℕ) (r : R) (index : ℕ) (cs : List (Call R)) (s : State Q A S R)
      → c.drops r ≡ ends index ∷ cs
      → IsFirst r s
      → and_then (drain_queues c (suc fuel) s) (destroy c) ≡ panicked
  unfolding drain_queues drain_local IsFirst
  drain-panicked fuel r index cs s e h = elim (Option-cases (c.queue.pop s.task_queue)) [
    | inl f ↦ rw (f, drain_queues) (destroy-panicked r index cs s e h)
    | inr ((x, q), f) ↦
        let t = perform c (c.drops x) (record s { task_queue = q }) in
        let (rs, g) = perform-IsFirst r (c.drops x) (record s { task_queue = q }) h in
        rw (f, drain_queues, g, drain_local, ends-panicked r index cs (set_local c rs t) e) refl
  ]

  -- An executor that is dropped while a task that was polled is the first of the thread-local queue
  -- panics, whatever else there is in the two queues and in the slab: the drop of that runnable borrows
  -- the thread state to remove its waker, and the drop of the executor has it borrowed.
  pub drop_executor-panicked :
      (fuel : ℕ) (r : R) (rs : List R) (index : ℕ) (cs : List (Call R)) (s : State Q A S R)
      → c.drops r ≡ ends index ∷ cs
      → s.thread_state.local_queue ≡ r ∷ rs
      → drop_executor c (suc fuel) s ≡ panicked
  unfolding drop_executor IsFirst
  drop_executor-panicked fuel r rs index cs s e h =
      elim (wake_tasks-cases c (IsFirst r) (λ o u g. perform-IsFirst r (scheduling c o u) u g)
        (λ u g. g) 0 s (rs, h)) [
          | inl f ↦ rw (f, drop_executor) refl
          | inr (u, f, g) ↦ rw (f, drop_executor) (drain-panicked fuel r index cs u e g)
        ]

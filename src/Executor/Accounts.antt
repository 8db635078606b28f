-- ===== src/Executor/Accounts.antt =====
-- Where the runnables of the executor of src/executor.rs are.
use unsend.Queue
use unsend.Executor.Crates.{Crates, Call, schedules, spawns, ends}
use unsend.Base.{
  none, [], Bool, ℕ, ◌+◌, arith, Option, ◌≡◌, ◌++◌, false, Option-cases, List, ◌∷◌, inl, inr, ap,
}
use unsend.Executor.{
  State, notify_waker, wake_mainstream, schedule_here, schedule_there, schedule, perform, run_task,
  spawn, end_task,
}
use unsend.Queue.Flying.{hits, flying, flying-notify-one, hits-append}
use unsend.Queue.Occurs.{one_if}

module _ {Q A S W R : Type 0} (c : Crates Q A S W R) (p : R → Bool) where
  -- Of the runnables that `p` picks, how many are in a queue, on their way to a ticker, ran, or are
  -- lost or leaked.
  unfoldable pub places : State Q A S R → ℕ
  places s =
      hits p s.thread_state.local_queue
      + flying p s.thread_state.thread_waker.notices
      + hits p (c.queue.items s.task_queue)
      + hits p s.lost
      + hits p s.leaked
      + hits p s.ran

  -- All that were scheduled are accounted for but `k`.
  abbrev pub InHand : ℕ → State Q A S R → Type 0
  InHand k s = places s + k ≡ hits p s.scheduled

  pub notify_none-InHand :
      (k : ℕ) (s : State Q A S R) → InHand k s → InHand k (notify_waker c (λ _. none) s)
  unfolding places notify_waker
  notify_none-InHand k s h =
      ground (arith, flying-notify-one p false (λ _. none) s.thread_state.thread_waker)

  pub wake_mainstream-InHand :
      (k : ℕ) (s : State Q A S R) → InHand k s → InHand k (wake_mainstream c s)
  unfolding places wake_mainstream
  wake_mainstream-InHand k s h = h

  pub schedule_here-InHand :
      (k : ℕ) (r : R) (s : State Q A S R)
      → InHand (k + one_if (p r)) s
      → InHand k (schedule_here c r s)
  unfolding places schedule_here notify_waker
  schedule_here-InHand k r s h = ground (
    arith,
    flying-notify-one p false (Queue.take_item r) s.thread_state.thread_waker,
    hits-append p s.thread_state.local_queue (r ∷ []),
  )

  pub schedule_there-InHand :
      (k : ℕ) (r : R) (s : State Q A S R)
      → InHand (k + one_if (p r)) s
      → InHand k (schedule_there c r s)
  unfolding places schedule_there wake_mainstream
  schedule_there-InHand k r s h = elim (Option-cases (c.queue.push r s.task_queue)) [
    | inl e ↦ rw (e, schedule_there) (omega (arith, h, hits-append p s.leaked (r ∷ [])))
    | inr (q, e) ↦
        rw (e, schedule_there)
          (omega (
            arith,
            h,
            ap (hits p) (c.queue.items-push r s.task_queue q e),
            hits-append p (c.queue.items s.task_queue) (r ∷ []),
          ))
  ]

  pub schedule-InHand :
      (current : Option ℕ) (k : ℕ) (r : R) (s : State Q A S R)
      → InHand k s
      → InHand k (schedule c current r s)
  unfolding schedule places
  schedule-InHand current k r s h =
      let t = record s { scheduled = s.scheduled ++ r ∷ [] } in
      let g : InHand (k + one_if (p r)) t = omega (arith, hits-append p s.scheduled (r ∷ [])) in
      ground (arith, schedule_here-InHand k r t g, schedule_there-InHand k r t g)

  pub spawn-InHand : (k : ℕ) (r : R) (s : State Q A S R) → InHand k s → InHand k (spawn c r s)
  unfolding spawn places
  spawn-InHand k r s h =
      schedule-InHand s.origin_thread k r
        (record s {
          thread_state = record s.thread_state {
            active = c.slab.insert (c.waker r) s.thread_state.active;
          };
        })
        h

  pub perform-InHand :
      (cs : List (Call R)) (k : ℕ) (s : State Q A S R) → InHand k s → InHand k (perform c cs s)
  unfolding perform end_task places
  perform-InHand [] k s h = h
  perform-InHand (schedules current r ∷ cs) k s h =
      perform-InHand cs k (schedule c current r s) (schedule-InHand current k r s h)
  perform-InHand (spawns r ∷ cs) k s h = perform-InHand cs k (spawn c r s) (spawn-InHand k r s h)
  perform-InHand (ends index ∷ cs) k s h = perform-InHand cs k (end_task c index s) h

  pub run_task-InHand :
      (k : ℕ) (r : R) (s : State Q A S R) → InHand (k + one_if (p r)) s → InHand k (run_task c r s)
  unfolding run_task places
  run_task-InHand k r s h =
      perform-InHand (c.runs s.ran r) k (record s { ran = s.ran ++ r ∷ [] })
        (omega (arith, hits-append p s.ran (r ∷ [])))

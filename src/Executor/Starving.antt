-- ===== src/Executor/Starving.antt =====
-- `Executor::run` of src/executor.rs with tasks that reschedule themselves whenever they run.
use unsend.Queue
use unsend.Executor.Fuel.{run_turns-ticked}
use unsend.Executor.Crates.{Crates, schedules}
use unsend.Base.{
  refl, none, some, [], ◌∷◌, ap, List, ℕ, ◌≡◌, suc, zero, Option, ◌++◌, Bool, false, ◌∙◌,
}
use unsend.Executor.Ticker.{
  ticked, tick_fuel, tick_start, tick, run_turns, tick_turn, Racing, tick_local, drop_tick_listener,
}
use unsend.Executor.{
  State, run_task, perform, notify_waker, schedule, schedule_here, set_local, same_thread,
}
use unsend.Executor.Scheduling.{same_thread_refl, schedule-here, schedule_here-queued, logged}

module _ {Q A S W R : Type 0} (c : Crates Q A S W R) (thread : ℕ) where
  -- The executor of the thread has runnables `rs` in its thread-local queue, and no ticker is in the event.
  unfoldable pub IsBusy : List R → State Q A S R → Type 0
  IsBusy rs s =
      (s.thread_state.local_queue ≡ rs)
      × (s.thread_state.thread_waker ≡ Queue.empty)
      × (s.origin_thread ≡ some thread)

  notify-IsBusy :
      (rs : List R) (f : ℕ → Option R) (s : State Q A S R)
      → IsBusy rs s
      → IsBusy rs (notify_waker c f s)
  unfolding IsBusy notify_waker Queue.notify Queue.deliver Queue.quota
  notify-IsBusy rs f s (h, w, o) = (h, ap (Queue.notify 1 false f) w, o)

  drop_listener-IsBusy :
      (rs : List R) (a : ℕ) (s : State Q A S R) → IsBusy rs s → IsBusy rs (drop_tick_listener c a s)
  unfolding IsBusy drop_tick_listener Queue.drop
  drop_listener-IsBusy rs a s (h, w, o) = (h, ap (Queue.drop a) w, o)

  schedule-IsBusy :
      (r : R) (rs : List R) (s : State Q A S R)
      → IsBusy rs s
      → IsBusy (rs ++ r ∷ []) (schedule c (some thread) r s)
  unfolding IsBusy schedule schedule_here notify_waker Queue.notify Queue.quota Queue.delivered
  schedule-IsBusy r rs s (h, w, o) =
      let here = ap (λ x. same_thread x (some thread)) o ∙ same_thread_refl c thread in
      let idle = ap (λ q. Queue.delivered (Queue.quota 1 false q) q.waiters) w in
      let e =
        schedule-here c (some thread) r s here ∙ schedule_here-queued c r (logged c r s) idle in
      let t = notify_waker c (Queue.take_item r) (logged c r s) in
      let (_, w', _) = notify-IsBusy rs (Queue.take_item r) (logged c r s) (h, w, o) in
      (
        ap (λ u. u.thread_state.local_queue) e ∙ ap (λ xs. xs ++ r ∷ []) h,
        ap (λ u. u.thread_state.thread_waker) e ∙ w',
        ap (λ u. u.origin_thread) e ∙ o,
      )

  run_task-IsBusy :
      (r : R) (rs : List R) (s : State Q A S R)
      → ((xs : List R) (r : R) → c.runs xs r ≡ schedules (some thread) r ∷ [])
      → IsBusy rs s
      → IsBusy (rs ++ r ∷ []) (run_task c r s)
  unfolding IsBusy run_task perform
  run_task-IsBusy r rs s yields h =
      rw (yields s.ran r, run_task) (schedule-IsBusy r rs (record s { ran = s.ran ++ r ∷ [] }) h)

  tick-IsBusy :
      (r : R) (rs : List R) (a v : ℕ) (racing : Racing R) (m : Bool) (s : State Q A S R)
      → ((xs : List R) (r : R) → c.runs xs r ≡ schedules (some thread) r ∷ [])
      → IsBusy (r ∷ rs) s
      → (t : State Q A S R) × (tick c a v racing tick_start m s ≡ (ticked, m, t))
        × IsBusy (rs ++ r ∷ []) t
  unfolding IsBusy tick tick_turn tick_local
  tick-IsBusy r rs a v racing m s yields (h, w, o) =
      let t = notify_waker c (λ _. none) (set_local c rs s) in
      let b =
        run_task-IsBusy r rs t yields
          (notify-IsBusy rs (λ _. none) (set_local c rs s) (refl, w, o)) in
      (
        drop_tick_listener c a (run_task c r t),
        rw (h, tick, tick_turn) refl,
        drop_listener-IsBusy (rs ++ r ∷ []) a (run_task c r t) b,
      )

  -- When every task schedules itself again as it runs, on the thread of the executor, and does
  -- nothing else to it, one of them is in the thread-local queue, and no ticker is in the event, a
  -- poll of `run` ticks for ever: however many ticks it is given, it gets to none that waits, so it
  -- never returns to the future that it runs.
  pub run_turns-starving :
      (fuel : ℕ) (r : R) (rs : List R) (a v : ℕ) (racing : Racing R) (m : Bool) (s : State Q A S R)
      → ((xs : List R) (r : R) → c.runs xs r ≡ schedules (some thread) r ∷ [])
      → IsBusy (r ∷ rs) s
      → (run_turns c fuel a v racing tick_start m s).0 ≡ tick_fuel
  unfolding run_turns
  run_turns-starving zero r rs a v racing m s yields h = refl
  run_turns-starving (suc fuel) r [] a v racing m s yields h =
      let (t, e, g) = tick-IsBusy r [] a v racing m s yields h in
      ap (λ x. x.0) (run_turns-ticked c fuel a v racing m m s t e)
      ∙ run_turns-starving fuel r [] a v racing m t yields g
  run_turns-starving (suc fuel) r (x ∷ xs) a v racing m s yields h =
      let (t, e, g) = tick-IsBusy r (x ∷ xs) a v racing m s yields h in
      ap (λ x. x.0) (run_turns-ticked c fuel a v racing m m s t e)
      ∙ run_turns-starving fuel x (xs ++ r ∷ []) a v racing m t yields g

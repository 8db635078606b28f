-- ===== src/Executor/Waking.antt =====
-- What a mainstream ticker of src/executor.rs that waits can rely on.
use unsend.Queue
use unsend.Executor.Crates.{Crates}
use unsend.Base.{
  none, some, [], ◌∷◌, inl, inr, List, ℕ, ◌≡◌, suc, zero, Option-cases, arith, true, false, Bool,
  if◌then◌else◌,
}
use unsend.Executor.Use.{
  Driven, creates, wakes_task, spawns_task, tries_tick, makes_ticker, begins_tick, polls_tick,
  drops_tick, drops_ticker, tick_step, drop_tick_step, drop_ticker_step, ExecSystem,
}
use unsend.Executor.Ticker.{
  tick_start, tick_await, tick_done, tick_local, tick_turn, drop_tick, drop_ticker,
  poll_tick_listener, drop_tick_listener, Racing, TickFuture, tick, TickPoll, acquire_mainstream,
  tick_top, tick_enough,
}
use unsend.Executor.Awake.{
  IsAwake, poll_mainstream-IsAwake, cleared-IsAwake, run_task-IsAwake, run_direct-IsAwake,
  schedule-IsAwake,
}
use unsend.Executor.{
  try_mainstream, try_local, with_thread_id, notify_waker, wake_mainstream, State, set_local, spawn,
  try_tick,
}

module _ {Q A S W R : Type 0} (c : Crates Q A S W R) where
  tick_local-IsAwake :
      (rs : List R) (a : ℕ) (m : Bool) (s : State Q A S R) (rest : TickPoll × Bool × State Q A S R)
      → IsAwake c s
      → IsAwake c rest.2
      → IsAwake c (tick_local c rs a m s rest).2
  unfolding IsAwake tick_local notify_waker drop_tick_listener
  tick_local-IsAwake [] a m s rest h g = g
  tick_local-IsAwake (r ∷ rs) a m s rest h g =
      run_task-IsAwake c r (notify_waker c (λ _. none) (set_local c rs s)) h

  tick_wait-IsAwake :
      (m : Bool) (fuel a v : ℕ) (racing : Racing R) (s : State Q A S R)
      → Queue.poll_result a s.thread_state.thread_waker ≡ none
      → IsAwake c s
      → IsAwake c (tick_turn c false (suc fuel) a v racing m s).2
  unfolding IsAwake tick_turn poll_tick_listener
  tick_wait-IsAwake false fuel a v racing s e h = rw (e, tick_turn) h
  tick_wait-IsAwake true fuel a v racing s e h =
      rw (e, tick_turn) (poll_mainstream-IsAwake c a v racing (poll_tick_listener c a v s) h)

  tick_turn-IsAwake :
      (top : Bool) (fuel a v : ℕ) (racing : Racing R) (m : Bool) (s : State Q A S R)
      → IsAwake c s
      → IsAwake c (tick_turn c top fuel a v racing m s).2
  unfolding IsAwake tick_turn poll_tick_listener
  tick_turn-IsAwake true zero a v racing m s h = h
  tick_turn-IsAwake false zero a v racing m s h = h
  tick_turn-IsAwake true (suc fuel) a v racing m s h =
      let m' = if s.thread_state.is_mainstream_listening then m else true in
      tick_local-IsAwake s.thread_state.local_queue a m s
        (tick_turn c false fuel a v racing m' (acquire_mainstream c s)) h
        (tick_turn-IsAwake false fuel a v racing m' (acquire_mainstream c s) h)
  tick_turn-IsAwake false (suc fuel) a v racing m s h =
      let t = poll_tick_listener c a v s in
      elim (Option-cases (Queue.poll_result a s.thread_state.thread_waker)) [
        | inl e ↦ tick_wait-IsAwake m fuel a v racing s e h
        | inr (none, e) ↦ rw (e, tick_turn) (tick_turn-IsAwake true fuel a v racing m t h)
        | inr (some r, e) ↦ rw (e, tick_turn) (run_direct-IsAwake c a v r t h)
      ]

  drop_tick-IsAwake :
      (a : ℕ) (f : TickFuture) (s : State Q A S R) → IsAwake c s → IsAwake c (drop_tick c a f s)
  unfolding IsAwake drop_tick drop_tick_listener
  drop_tick-IsAwake a tick_start s h = h
  drop_tick-IsAwake a tick_await s h = h
  drop_tick-IsAwake a tick_done s h = h

  drop_ticker-IsAwake : (m : Bool) (s : State Q A S R) → IsAwake c s → IsAwake c (drop_ticker c m s)
  unfolding IsAwake drop_ticker notify_waker
  drop_ticker-IsAwake false s h = h
  drop_ticker-IsAwake true s h = cleared-IsAwake c s s.mainstream_waker

  try_mainstream-IsAwake : (s : State Q A S R) → IsAwake c s → IsAwake c (try_mainstream c s).1
  unfolding IsAwake try_mainstream wake_mainstream
  try_mainstream-IsAwake s h = elim (Option-cases (c.queue.pop s.task_queue)) [
    | inl e ↦ rw (e, try_mainstream) h
    | inr ((r, q), e) ↦
        let t = record s { task_queue = q } in
        rw (e, try_mainstream)
          (run_task-IsAwake c r (wake_mainstream c t) (cleared-IsAwake c t s.mainstream_waker))
  ]

  try_local-IsAwake :
      (rs : List R) (s : State Q A S R) → IsAwake c s → IsAwake c (try_local c rs s).1
  unfolding IsAwake try_local notify_waker
  try_local-IsAwake [] s h = try_mainstream-IsAwake s h
  try_local-IsAwake (r ∷ rs) s h =
      run_task-IsAwake c r (notify_waker c (λ _. none) (set_local c rs s)) h

  -- However an executor is used: while a waker is registered for the mainstream, the mainstream queue
  -- is empty, so no runnable that another thread pushed waits there for a ticker that sleeps.
  pub Driven-IsAwake : (s : ExecSystem Q A S R) → Driven c s → IsAwake c s.state
  unfolding IsAwake with_thread_id tick_step tick drop_tick_step drop_ticker_step spawn try_tick
  Driven-IsAwake _ (creates origin) = λ v e. absurd (ground (arith, e, c.atomic.holds-new))
  Driven-IsAwake _ (wakes_task s current r d) =
      schedule-IsAwake c current r s.state (Driven-IsAwake s d)
  Driven-IsAwake _ (spawns_task s r d) =
      schedule-IsAwake c s.state.origin_thread r
        (record (s.state) {
          thread_state = record (s.state.thread_state) {
            active = c.slab.insert (c.waker r) s.state.thread_state.active;
          };
        })
        (Driven-IsAwake s d)
  Driven-IsAwake _ (tries_tick s d) =
      try_local-IsAwake s.state.thread_state.local_queue s.state (Driven-IsAwake s d)
  Driven-IsAwake _ (makes_ticker s a l d) = Driven-IsAwake s d
  Driven-IsAwake _ (begins_tick s a l f d) = Driven-IsAwake s d
  Driven-IsAwake _ (polls_tick s a v racing l f d) =
      tick_turn-IsAwake (tick_top (s.tickers a).future) (tick_enough c s.state) a v racing
        (s.tickers a).is_mainstream s.state (Driven-IsAwake s d)
  Driven-IsAwake _ (drops_tick s a d) =
      drop_tick-IsAwake a (s.tickers a).future s.state (Driven-IsAwake s d)
  Driven-IsAwake _ (drops_ticker s a f d) =
      drop_ticker-IsAwake (s.tickers a).is_mainstream s.state (Driven-IsAwake s d)

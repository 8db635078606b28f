-- ===== src/Executor/Ticks.antt =====
-- `tick` and `try_tick` of src/executor.rs on a runnable of the thread-local queue.
use unsend.Queue
use unsend.Executor.Sole.{flag}
use unsend.Queue.Split.{
  in_queue-notify, drop-none, drop_wakes-none, find_notice-out, erase_waiter-out,
}
use unsend.Executor.Crates.{Crates}
use unsend.Base.{
  refl, none, [], ◌∷◌, ℕ, Option, false, ◌≡◌, Bool, List, ap, arith, ◌∙◌, sym, append-nil,
}
use unsend.Executor.Ticker.{
  ticked, tick_start, drop_tick_listener, tick, tick_turn, tick_local, Racing, tick_once,
  drop_ticker,
}
use unsend.Queue.{Queue}
use unsend.Executor.{State, run_task, notify_waker, try_tick, try_local, set_local}
use unsend.Executor.Walk.{Keeps, run_task-Keeps, notify_waker-Keeps}

module _ {T : Type 0} where
  drop-out :
      (a : ℕ) (q : Queue T)
      → Queue.in_queue a q ≡ false
      → (Queue.drop a q ≡ q) × (Queue.drop_wakes a q ≡ [])
  drop-out a q o =
      let n = find_notice-out a q (ground (arith, o)) in
      (
        drop-none a q n
            ∙ ap (λ ws. record q { waiters = ws })
                (erase_waiter-out a q.waiters (ground (arith, o))),
        drop_wakes-none a q n,
      )

  lost_by-out : (a : ℕ) (q : Queue (Option T)) → Queue.in_queue a q ≡ false → Queue.lost_by a q ≡ []
  unfolding Queue.lost_by
  lost_by-out a q o = rw (find_notice-out a q (ground (arith, o)), Queue.lost_by) refl

module _ {Q A S W R : Type 0} (c : Crates Q A S W R) where
  -- The drop of a listener that is not in the event does nothing.
  drop_listener-out :
      (a : ℕ) (s : State Q A S R)
      → Queue.in_queue a s.thread_state.thread_waker ≡ false
      → drop_tick_listener c a s ≡ s
  unfolding drop_tick_listener
  drop_listener-out a s o =
      let q = s.thread_state.thread_waker in
      let (d, w) = drop-out a q o in
      rw (d, w, lost_by-out a q o, append-nil s.woken, append-nil s.lost) refl

  -- Whether the listener `a` is in the event.
  abbrev Out : ℕ → State Q A S R → Type 0
  Out a s =
      Keeps c (λ q. Queue.in_queue a q ≡ false) (flag s)
        (λ f q h. in_queue-notify a 1 false f q ∙ h) s

  run-out :
      (a : ℕ) (r : R) (s : State Q A S R)
      → Queue.in_queue a s.thread_state.thread_waker ≡ false
      → Queue.in_queue a (run_task c r (notify_waker c (λ _. none) s)).thread_state.thread_waker
        ≡ false
  unfolding Keeps
  run-out a r s o =
      (run_task-Keeps c (λ q. Queue.in_queue a q ≡ false) (flag s)
        (λ f q h. in_queue-notify a 1 false f q ∙ h) r (notify_waker c (λ _. none) s)
        (notify_waker-Keeps c (λ q. Queue.in_queue a q ≡ false) (flag s)
          (λ f q h. in_queue-notify a 1 false f q ∙ h) (λ _. none) s (o, refl))).0

  -- A new `tick` future of a ticker.
  ticks_as_try_tick :
      (r : R) (rs : List R) (a v : ℕ) (racing : Racing R) (m : Bool) (s : State Q A S R)
      → s.thread_state.local_queue ≡ r ∷ rs
      → Queue.in_queue a s.thread_state.thread_waker ≡ false
      → tick c a v racing tick_start m s ≡ (ticked, m, (try_tick c s).1)
  unfolding tick tick_turn tick_local try_tick try_local
  ticks_as_try_tick r rs a v racing m s h o =
      let t = set_local c rs s in
      let u = run_task c r (notify_waker c (λ _. none) t) in
      let same : (try_tick c s).1 ≡ u = ap (λ xs. (try_local c xs s).1) h in
      let ticks : tick c a v racing tick_start m s ≡ (ticked, m, drop_tick_listener c a u) =
        rw (h, tick, tick_turn) refl in
      ticks ∙ ap (λ x. (ticked, m, x)) (drop_listener-out a u (run-out a r t o) ∙ sym same)

  -- A new `tick` future that finds a runnable in the thread-local queue returns at its first poll, does
  -- not take the mainstream, and does to the executor exactly what `try_tick` does; and so does
  -- `Executor::tick`, whose ticker is new.
  pub tick-try_tick :
      (r : R) (rs : List R) (a v : ℕ) (racing : Racing R) (m : Bool) (s : State Q A S R)
      → s.thread_state.local_queue ≡ r ∷ rs
      → Queue.in_queue a s.thread_state.thread_waker ≡ false
      → (tick c a v racing tick_start m s ≡ (ticked, m, (try_tick c s).1))
        × (tick_once c a v racing tick_start false s ≡ (ticked, false, (try_tick c s).1))
  unfolding tick_once drop_ticker
  tick-try_tick r rs a v racing m s h o =
      let e = ticks_as_try_tick r rs a v racing false s h o in
      (
        ticks_as_try_tick r rs a v racing m s h o,
        rw (ap (λ x. x.0) e, tick_once, ap (λ x. x.1) e, ap (λ x. x.2) e) refl,
      )

-- ===== src/Executor/Kept.antt =====
-- The operations of the executor of src/executor.rs and the account of its runnables.
use unsend.Queue
use unsend.Executor.Crates.{Crates}
use unsend.Base.{
  refl, none, some, [], Bool, List, ℕ, ◌≡◌, suc, ◌∷◌, if◌then◌else◌, false, Option-cases, inl, inr,
  true, zero, arith,
}
use unsend.Executor.Ticker.{
  tick_local, tick_turn, Racing, TickPoll, acquire_mainstream, poll_tick_listener, tick, drop_tick,
  drop_ticker, TickFuture, tick_top, tick_start, tick_enough, tick_await, tick_done,
}
use unsend.Executor.Accounts.{places, notify_none-InHand, wake_mainstream-InHand}
use unsend.Executor.{
  State, set_local, run_task, notify_waker, try_local, try_tick, try_mainstream, wake_mainstream,
}
use unsend.Executor.Ticking.{
  Accounted, drop_listener-Accounted, run_one, local-InHand, of_InHand, poll_listener-some,
  run_direct-Accounted, InHand-list, poll_listener-none, poll_mainstream-Accounted, pop-InHand,
}
use unsend.Queue.Occurs.{one_if}

module _ {Q A S W R : Type 0} (c : Crates Q A S W R) (p : R → Bool) where
  tick_local-Accounted :
      (rs : List R) (a : ℕ) (m : Bool) (s : State Q A S R) (rest : TickPoll × Bool × State Q A S R)
      → s.thread_state.local_queue ≡ rs
      → Accounted c p s
      → Accounted c p rest.2
      → Accounted c p (tick_local c rs a m s rest).2
  unfolding tick_local
  tick_local-Accounted [] a m s rest e h g = g
  tick_local-Accounted (r ∷ rs) a m s rest e h g =
      let t = set_local c rs s in
      drop_listener-Accounted c p a (run_task c r (notify_waker c (λ _. none) t)) (
        run_one c p r (notify_waker c (λ _. none) t)
          (notify_none-InHand c p (one_if (p r)) t (local-InHand c p s r rs e h)))

  tick_wait :
      (m : Bool) (fuel a v : ℕ) (racing : Racing R) (s : State Q A S R)
      → Queue.poll_result a s.thread_state.thread_waker ≡ none
      → Accounted c p s
      → Accounted c p (tick_turn c false (suc fuel) a v racing m s).2
  unfolding tick_turn
  tick_wait false fuel a v racing s e h = rw (e, tick_turn) (poll_listener-none c p a v s e h)
  tick_wait true fuel a v racing s e h =
      rw (e, tick_turn)
        (poll_mainstream-Accounted c p a v racing (poll_tick_listener c a v s)
          (poll_listener-none c p a v s e h))

  tick_turn-Accounted :
      (top : Bool) (fuel a v : ℕ) (racing : Racing R) (m : Bool) (s : State Q A S R)
      → Accounted c p s
      → Accounted c p (tick_turn c top fuel a v racing m s).2
  unfolding tick_turn places
  tick_turn-Accounted true zero a v racing m s h = h
  tick_turn-Accounted false zero a v racing m s h = h
  tick_turn-Accounted true (suc fuel) a v racing m s h =
      let m' = if s.thread_state.is_mainstream_listening then m else true in
      tick_local-Accounted s.thread_state.local_queue a m s
        (tick_turn c false fuel a v racing m' (acquire_mainstream c s)) refl h
        (tick_turn-Accounted false fuel a v racing m' (acquire_mainstream c s) h)
  tick_turn-Accounted false (suc fuel) a v racing m s h =
      let q = s.thread_state.thread_waker in
      let t = poll_tick_listener c a v s in
      elim (Option-cases (Queue.poll_result a q)) [
        | inl e ↦ tick_wait m fuel a v racing s e h
        | inr (none, e) ↦
            rw (e, tick_turn)
              (tick_turn-Accounted true fuel a v racing m t
                (of_InHand c p t (poll_listener-some c p a v s none e h)))
        | inr (some r, e) ↦
            rw (e, tick_turn)
              (run_direct-Accounted c p a v r t
                (InHand-list c p r t (poll_listener-some c p a v s (some r) e h)))
      ]

  pub tick-Accounted :
      (a v : ℕ) (racing : Racing R) (f : TickFuture) (m : Bool) (s : State Q A S R)
      → Accounted c p s
      → Accounted c p (tick c a v racing f m s).2
  unfolding tick
  tick-Accounted a v racing f m s h =
      tick_turn-Accounted (tick_top f) (tick_enough c s) a v racing m s h

  pub drop_tick-Accounted :
      (a : ℕ) (f : TickFuture) (s : State Q A S R)
      → Accounted c p s
      → Accounted c p (drop_tick c a f s)
  unfolding drop_tick
  drop_tick-Accounted a tick_start s h = h
  drop_tick-Accounted a tick_await s h = drop_listener-Accounted c p a s h
  drop_tick-Accounted a tick_done s h = h

  pub drop_ticker-Accounted :
      (m : Bool) (s : State Q A S R) → Accounted c p s → Accounted c p (drop_ticker c m s)
  unfolding drop_ticker places
  drop_ticker-Accounted false s h = h
  drop_ticker-Accounted true s h =
      let t = record s {
        mainstream_waker = c.atomic.cleared s.mainstream_waker;
        thread_state = record s.thread_state { is_mainstream_listening = false };
      } in
      of_InHand c p (notify_waker c (λ _. none) t) (notify_none-InHand c p 0 t (omega (arith, h)))

  try_local-Accounted :
      (rs : List R) (s : State Q A S R)
      → s.thread_state.local_queue ≡ rs
      → Accounted c p s
      → Accounted c p (try_local c rs s).1
  unfolding try_local try_mainstream places
  try_local-Accounted [] s e h = elim (Option-cases (c.queue.pop s.task_queue)) [
    | inl n ↦ rw (n, try_mainstream) h
    | inr ((r, q), n) ↦
        let t = record s { task_queue = q } in
        rw (n, try_mainstream)
          (run_one c p r (wake_mainstream c t)
            (wake_mainstream-InHand c p (one_if (p r)) t (pop-InHand c p s r q n h)))
  ]
  try_local-Accounted (r ∷ rs) s e h =
      let t = set_local c rs s in
      run_one c p r (notify_waker c (λ _. none) t)
        (notify_none-InHand c p (one_if (p r)) t (local-InHand c p s r rs e h))

  pub try_tick-Accounted : (s : State Q A S R) → Accounted c p s → Accounted c p (try_tick c s).1
  unfolding try_tick
  try_tick-Accounted s h = try_local-Accounted s.thread_state.local_queue s refl h

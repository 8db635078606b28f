-- ===== src/Executor/Fuel.antt =====
-- How the loop of `Ticker::tick` in src/executor.rs comes to its end.
use unsend.Executor.Crates.{Crates}
use unsend.Base.{
  refl, none, some, [], ◌∷◌, inl, inr, ap, List, ℕ, ◌≡◌, suc, zero, length, ◌≤◌, ◌+◌, true, false,
  arith, Option-cases, Bool, if◌then◌else◌,
}
use unsend.Executor.Ticker.{
  ticked, tick_pending, tick_fuel, tick_start, tick_await, tick_done, TickPoll, tick_local,
  poll_mainstream, tick_turn, tick, Racing, poll_tick_listener, register_mainstream, TickFuture,
  acquire_mainstream, tick_enough, run_turns,
}
use unsend.Queue.{poll_result}
use unsend.Queue.Polled.{poll-some}
use unsend.Executor.{State}

abbrev turns : Bool → ℕ
turns true = 2
turns false = 1

-- Whether the loop came to an end.
abbrev pub ended : TickPoll → Bool
ended ticked = true
ended tick_pending = true
ended tick_fuel = false

module _ {Q A S W R : Type 0} (c : Crates Q A S W R) where
  tick_local-ended :
      (rs : List R) (a : ℕ) (m : Bool) (s : State Q A S R) (rest : TickPoll × Bool × State Q A S R)
      → ended rest.0 ≡ true
      → ended (tick_local c rs a m s rest).0 ≡ true
  unfolding tick_local
  tick_local-ended [] a m s rest h = h
  tick_local-ended (r ∷ rs) a m s rest h = refl

  poll_mainstream-ended :
      (a v : ℕ) (racing : Racing R) (s : State Q A S R)
      → ended (poll_mainstream c a v racing s).0 ≡ true
  unfolding poll_mainstream
  poll_mainstream-ended a v racing s = elim (Option-cases (c.queue.pop s.task_queue)) [
    | inl e ↦ elim (Option-cases (c.queue.pop (register_mainstream c v racing s).task_queue)) [
      | inl f ↦ rw (e, poll_mainstream, f) refl
      | inr (x, f) ↦ rw (e, poll_mainstream, f) refl
    ]
    | inr (x, e) ↦ rw (e, poll_mainstream) refl
  ]

  wait-ended :
      (m : Bool) (fuel a v : ℕ) (racing : Racing R) (s : State Q A S R)
      → poll_result a s.thread_state.thread_waker ≡ none
      → ended (tick_turn c false (suc fuel) a v racing m s).0 ≡ true
  unfolding tick_turn
  wait-ended false fuel a v racing s e = rw (e, tick_turn) refl
  wait-ended true fuel a v racing s e =
      rw (e, tick_turn) (poll_mainstream-ended a v racing (poll_tick_listener c a v s))

  tick_turn-ended :
      (top : Bool) (fuel a v : ℕ) (racing : Racing R) (m : Bool) (s : State Q A S R)
      → length s.thread_state.thread_waker.notices
          + length s.thread_state.thread_waker.notices
          + turns top
        ≤ fuel
      → ended (tick_turn c top fuel a v racing m s).0 ≡ true
  unfolding tick_turn poll_tick_listener
  tick_turn-ended true zero a v racing m s l = absurd (omega (arith, l))
  tick_turn-ended false zero a v racing m s l = absurd (omega (arith, l))
  tick_turn-ended true (suc fuel) a v racing m s l =
      let m' = if s.thread_state.is_mainstream_listening then m else true in
      tick_local-ended s.thread_state.local_queue a m s
        (tick_turn c false fuel a v racing m' (acquire_mainstream c s))
        (tick_turn-ended false fuel a v racing m' (acquire_mainstream c s) (omega (arith, l)))
  tick_turn-ended false (suc fuel) a v racing m s l =
      let q = s.thread_state.thread_waker in
      elim (Option-cases (poll_result a q)) [
        | inl e ↦ wait-ended m fuel a v racing s e
        | inr (none, e) ↦
            let (p, n, _) = poll-some a v q none e in
            rw (e, tick_turn)
              (tick_turn-ended true fuel a v racing m (poll_tick_listener c a v s)
                (omega (arith, l, n, ap (λ x. length x.notices) p)))
        | inr (some r, e) ↦ rw (e, tick_turn) refl
      ]

  -- The fuel of a `tick` future is enough.
  pub tick-ended :
      (a v : ℕ) (racing : Racing R) (f : TickFuture) (m : Bool) (s : State Q A S R)
      → ended (tick c a v racing f m s).0 ≡ true
  unfolding tick
  tick-ended a v racing tick_start m s =
      tick_turn-ended true (tick_enough c s) a v racing m s (omega arith)
  tick-ended a v racing tick_await m s =
      tick_turn-ended false (tick_enough c s) a v racing m s (omega arith)
  tick-ended a v racing tick_done m s =
      tick_turn-ended false (tick_enough c s) a v racing m s (omega arith)

  -- How `run` goes on after a tick.
  pub run_turns-ticked :
      (fuel a v : ℕ) (racing : Racing R) (m m' : Bool) (s t : State Q A S R)
      → tick c a v racing tick_start m s ≡ (ticked, m', t)
      → run_turns c (suc fuel) a v racing tick_start m s
        ≡ run_turns c fuel a v racing tick_start m' t
  unfolding run_turns
  run_turns-ticked fuel a v racing m m' s t e =
      rw (ap (λ x. x.0) e, run_turns, ap (λ x. x.1) e, ap (λ x. x.2) e) refl

  pub run_turns-waits :
      (fuel a v : ℕ) (racing : Racing R) (m m' : Bool) (s t : State Q A S R)
      → tick c a v racing tick_start m s ≡ (tick_pending, m', t)
      → run_turns c (suc fuel) a v racing tick_start m s ≡ (tick_pending, m', t)
  unfolding run_turns
  run_turns-waits fuel a v racing m m' s t e =
      rw (ap (λ x. x.0) e, run_turns, ap (λ x. x.1) e, ap (λ x. x.2) e) refl

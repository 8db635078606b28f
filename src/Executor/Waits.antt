-- ===== src/Executor/Waits.antt =====
-- When a poll of a `tick` future of src/executor.rs waits.
use unsend.Queue
use unsend.Executor.Crates.{Crates}
use unsend.Base.{
  ◌⊎◌, refl, none, some, [], ◌∷◌, inl, inr, ℕ, true, false, ◌≡◌, Bool, List, ap, arith,
  Option-cases, ◌∙◌, suc, zero, if◌then◌else◌,
}
use unsend.Executor.Ticker.{
  tick_pending, ticked, tick_fuel, push_all, register_mainstream, Racing, TickPoll, poll_mainstream,
  tick_turn, tick_local, tick, poll_tick_listener, acquire_mainstream, TickFuture, tick_top,
  tick_enough,
}
use unsend.Executor.Fuel.{ended, tick-ended}
use unsend.Queue.{Waiter, Queue}
use unsend.Executor.{schedule_there, wake_mainstream, State}
use unsend.Executor.Scheduling.{logged}
use unsend.Queue.Sleeping.{sleeps, poll-sleeps}
use unsend.Executor.Sleeping.{there-none, there-some, register-nil}

module _ {Q A S W R : Type 0} (c : Crates Q A S W R) where
  -- The listener `a` waits with the waker `v`, and the ticker is not on the mainstream, or the waker is
  -- registered for the mainstream too, whose queue is empty.
  abbrev pub Asleep : ℕ → ℕ → TickPoll × Bool × State Q A S R → Type 0
  Asleep a v p =
      (sleeps a v p.2.thread_state.thread_waker.waiters ≡ true)
      × ((p.1 ≡ false)
          ⊎ ((p.1 ≡ true)
              × (c.queue.items p.2.task_queue ≡ [])
              × (c.atomic.holds p.2.mainstream_waker ≡ some v)))

  push_all-waker :
      (rs : List R) (s : State Q A S R)
      → (push_all c rs s).thread_state.thread_waker ≡ s.thread_state.thread_waker
  unfolding push_all schedule_there wake_mainstream
  push_all-waker [] s = refl
  push_all-waker (r ∷ rs) s = elim (Option-cases (c.queue.push r s.task_queue)) [
    | inl f ↦
        push_all-waker rs (schedule_there c r (logged c r s))
        ∙ ap (λ t. t.thread_state.thread_waker) (there-none c r (logged c r s) f)
    | inr (q, f) ↦
        push_all-waker rs (schedule_there c r (logged c r s))
        ∙ ap (λ t. t.thread_state.thread_waker) (there-some c r (logged c r s) q f)
  ]

  register-waker :
      (v : ℕ) (racing : Racing R) (s : State Q A S R)
      → (register_mainstream c v racing s).thread_state.thread_waker ≡ s.thread_state.thread_waker
  unfolding register_mainstream
  register-waker v racing s =
      let t = push_all c racing.before s in
      push_all-waker racing.behind
        (record t { mainstream_waker = c.atomic.register v t.mainstream_waker })
      ∙ push_all-waker racing.before s

  mainstream-Asleep :
      (a v : ℕ) (racing : Racing R) (s : State Q A S R)
      → sleeps a v s.thread_state.thread_waker.waiters ≡ true
      → let (p, u) = poll_mainstream c a v racing s in p ≡ tick_pending → Asleep a v (p, true, u)
  unfolding poll_mainstream
  mainstream-Asleep a v racing s h = elim (Option-cases (c.queue.pop s.task_queue)) [
    | inl e ↦
        let t = register_mainstream c v racing s in
        elim (Option-cases (c.queue.pop t.task_queue)) [
          | inl f ↦
              let (i, k) = register-nil c v racing s f in
              rw (e, poll_mainstream)
                (rw (f, poll_mainstream)
                  (λ g. (rw (register-waker v racing s) h, inr (refl, i, k))))
          | inr (x, f) ↦
              rw (e, poll_mainstream) (rw (f, poll_mainstream) (λ g. absurd (ground (arith, g))))
        ]
    | inr (x, e) ↦ rw (e, poll_mainstream) (λ g. absurd (ground (arith, g)))
  ]

  wait-Asleep :
      (m : Bool) (fuel a v : ℕ) (racing : Racing R) (s : State Q A S R)
      → Queue.poll_result a s.thread_state.thread_waker ≡ none
      → let p = tick_turn c false (suc fuel) a v racing m s in p.0 ≡ tick_pending → Asleep a v p
  unfolding tick_turn poll_tick_listener
  wait-Asleep false fuel a v racing s e =
      rw (e, tick_turn) (λ g. (poll-sleeps a v s.thread_state.thread_waker e, inl refl))
  wait-Asleep true fuel a v racing s e =
      rw (e, tick_turn)
        (mainstream-Asleep a v racing (poll_tick_listener c a v s)
          (poll-sleeps a v s.thread_state.thread_waker e))

  local-Asleep :
      (rs : List R) (a v : ℕ) (m : Bool) (s : State Q A S R)
      (rest : TickPoll × Bool × State Q A S R)
      → (rest.0 ≡ tick_pending → Asleep a v rest)
      → (tick_local c rs a m s rest).0 ≡ tick_pending
      → Asleep a v (tick_local c rs a m s rest)
  unfolding tick_local
  local-Asleep [] a v m s rest h g = h g
  local-Asleep (r ∷ rs) a v m s rest h g = absurd (ground (arith, g))

  turn-Asleep :
      (top : Bool) (fuel a v : ℕ) (racing : Racing R) (m : Bool) (s : State Q A S R)
      → (tick_turn c top fuel a v racing m s).0 ≡ tick_pending
      → Asleep a v (tick_turn c top fuel a v racing m s)
  unfolding tick_turn
  turn-Asleep true zero a v racing m s = λ g. absurd (ground (arith, g))
  turn-Asleep false zero a v racing m s = λ g. absurd (ground (arith, g))
  turn-Asleep true (suc fuel) a v racing m s =
      let m' = if s.thread_state.is_mainstream_listening then m else true in
      local-Asleep s.thread_state.local_queue a v m s
        (tick_turn c false fuel a v racing m' (acquire_mainstream c s))
        (turn-Asleep false fuel a v racing m' (acquire_mainstream c s))
  turn-Asleep false (suc fuel) a v racing m s =
      elim (Option-cases (Queue.poll_result a s.thread_state.thread_waker)) [
        | inl e ↦ wait-Asleep m fuel a v racing s e
        | inr (none, e) ↦
            rw (e, tick_turn) (turn-Asleep true fuel a v racing m (poll_tick_listener c a v s))
        | inr (some r, e) ↦ rw (e, tick_turn) (λ g. absurd (ground (arith, g)))
      ]

  tick-Asleep :
      (a v : ℕ) (racing : Racing R) (f : TickFuture) (m : Bool) (s : State Q A S R)
      → (tick c a v racing f m s).0 ≡ tick_pending
      → Asleep a v (tick c a v racing f m s)
  unfolding tick
  tick-Asleep a v racing f m s g = turn-Asleep (tick_top f) (tick_enough c s) a v racing m s g

  outcome :
      (a v : ℕ) (p : TickPoll × Bool × State Q A S R)
      → ended p.0 ≡ true
      → (p.0 ≡ tick_pending → Asleep a v p)
      → (p.0 ≡ ticked) ⊎ ((p.0 ≡ tick_pending) × Asleep a v p)
  outcome a v (ticked, m, t) e h = inl refl
  outcome a v (tick_pending, m, t) e h = inr (refl, h refl)
  outcome a v (tick_fuel, m, t) e h = absurd (ground (arith, e))

  -- A poll of a `tick` future by a task comes to an end, whatever notifications are there and whatever
  -- other threads push meanwhile: the tick is over, or it waits, and then its listener waits with the
  -- waker of the task, and the ticker is not on the mainstream, or the mainstream queue is empty and
  -- the waker is registered for it.
  pub tick-outcome :
      (a v : ℕ) (racing : Racing R) (f : TickFuture) (m : Bool) (s : State Q A S R)
      → let p = tick c a v racing f m s in (p.0 ≡ ticked) ⊎ ((p.0 ≡ tick_pending) × Asleep a v p)
  tick-outcome a v racing f m s =
      outcome a v (tick c a v racing f m s) (tick-ended c a v racing f m s)
        (tick-Asleep a v racing f m s)

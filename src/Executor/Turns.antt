-- ===== src/Executor/Turns.antt =====
-- What a poll of a `tick` future of src/executor.rs keeps of the event, and how it takes the
-- mainstream.
use unsend.Queue
use unsend.Executor.Crates.{Crates}
use unsend.Base.{
  refl, none, some, [], ◌∷◌, inl, inr, ℕ, Option, true, false, ◌≡◌, Bool, List, Option-cases, suc,
  zero, if◌then◌else◌, ◌⊎◌, subst, arith,
}
use unsend.Executor.Ticker.{
  tick_start, tick_await, tick_done, run_direct, TickPoll, tick_turn, tick, drop_tick,
  poll_tick_listener, drop_tick_listener, register_mainstream, poll_mainstream, tick_local, Racing,
  TickFuture, drop_ticker, push_all, acquire_mainstream, tick_top, tick_enough,
}
use unsend.Queue.{Queue}
use unsend.Executor.{State, run_task, set_local, notify_waker}
use unsend.Executor.Walk.{Keeps, run_task-Keeps, notify_waker-Keeps, push_all-Keeps}

-- A property of the event that the steps of the tickers keep.
module _ {Q A S W R : Type 0} (c : Crates Q A S W R) (P : Queue (Option R) → Type 0)
    (notifies : (f : ℕ → Option R) (q : Queue (Option R)) → P q → P (Queue.notify 1 false f q))
    (polls : (a v : ℕ) (q : Queue (Option R)) → P q → P (Queue.poll a v q))
    (drops : (a : ℕ) (q : Queue (Option R)) → P q → P (Queue.drop a q)) where
  abbrev pub Kept : Bool → State Q A S R → Type 0
  Kept l s = Keeps c P l notifies s

  poll_listener-Kept :
      (l : Bool) (a v : ℕ) (s : State Q A S R) → Kept l s → Kept l (poll_tick_listener c a v s)
  unfolding Keeps poll_tick_listener
  poll_listener-Kept l a v s (h, e) = (polls a v s.thread_state.thread_waker h, e)

  drop_listener-Kept :
      (l : Bool) (a : ℕ) (s : State Q A S R) → Kept l s → Kept l (drop_tick_listener c a s)
  unfolding Keeps drop_tick_listener
  drop_listener-Kept l a s (h, e) = (drops a s.thread_state.thread_waker h, e)

  run_direct-Kept :
      (l : Bool) (a v : ℕ) (r : R) (s : State Q A S R) → Kept l s → Kept l (run_direct c a v r s)
  unfolding run_direct
  run_direct-Kept l a v r s h =
      let t = run_task c r s in
      let u = poll_tick_listener c a v t in
      let g = poll_listener-Kept l a v t (run_task-Keeps c P l notifies r s h) in
      elim (Option-cases (Queue.poll_result a t.thread_state.thread_waker)) [
        | inl e ↦ rw e (drop_listener-Kept l a u g)
        | inr (none, e) ↦ rw e (drop_listener-Kept l a u g)
        | inr (some r', e) ↦
            rw e (drop_listener-Kept l a (run_task c r' u) (run_task-Keeps c P l notifies r' u g))
      ]

  register-Kept :
      (l : Bool) (v : ℕ) (racing : Racing R) (s : State Q A S R)
      → Kept l s
      → Kept l (register_mainstream c v racing s)
  unfolding Keeps register_mainstream
  register-Kept l v racing s h =
      let t = push_all c racing.before s in
      push_all-Keeps c P l notifies racing.behind
        (record t { mainstream_waker = c.atomic.register v t.mainstream_waker })
        (push_all-Keeps c P l notifies racing.before s h)

  poll_mainstream-Kept :
      (l : Bool) (a v : ℕ) (racing : Racing R) (s : State Q A S R)
      → Kept l s
      → Kept l (poll_mainstream c a v racing s).1
  unfolding Keeps poll_mainstream
  poll_mainstream-Kept l a v racing s h = elim (Option-cases (c.queue.pop s.task_queue)) [
    | inl e ↦
        let t = register_mainstream c v racing s in
        let g = register-Kept l v racing s h in
        elim (Option-cases (c.queue.pop t.task_queue)) [
          | inl f ↦ rw (e, poll_mainstream) (rw (f, poll_mainstream) g)
          | inr ((r, q), f) ↦
              rw (e, poll_mainstream)
                (rw (f, poll_mainstream)
                  (run_direct-Kept l a v r
                    (record t {
                      task_queue = q;
                      mainstream_waker = c.atomic.cleared t.mainstream_waker;
                    })
                    g))
        ]
    | inr ((r, q), e) ↦
        rw (e, poll_mainstream) (run_direct-Kept l a v r (record s { task_queue = q }) h)
  ]

  -- The ticker leaves the flag and its own role as they were, or it becomes the mainstream, which
  -- nobody was.
  abbrev pub Turned : Bool → Bool → TickPoll × Bool × State Q A S R → Type 0
  Turned l m p = (Kept l p.2 × (p.1 ≡ m)) ⊎ ((l ≡ false) × Kept true p.2 × (p.1 ≡ true))

  tick_local-Turned :
      (rs : List R) (l : Bool) (a : ℕ) (m : Bool) (s : State Q A S R)
      (rest : TickPoll × Bool × State Q A S R)
      → Kept l s
      → Turned l m rest
      → Turned l m (tick_local c rs a m s rest)
  unfolding Keeps tick_local
  tick_local-Turned [] l a m s rest h g = g
  tick_local-Turned (r ∷ rs) l a m s rest h g =
      let t = set_local c rs s in
      let u = notify_waker c (λ _. none) t in
      inl (
        drop_listener-Kept l a (run_task c r u)
            (run_task-Keeps c P l notifies r u (notify_waker-Keeps c P l notifies (λ _. none) t h)),
        refl,
      )

  -- What the rest of the loop does once the ticker has the role `if l then m else true`.
  top-Turned :
      (l m : Bool) (p : TickPoll × Bool × State Q A S R)
      → Turned true (if l then m else true) p
      → Turned l m p
  top-Turned true m p (inl h) = inl h
  top-Turned true m p (inr (e, _, _)) = absurd (ground (arith, e))
  top-Turned false m p (inl (h, e)) = inr (refl, h, e)
  top-Turned false m p (inr (e, _, _)) = absurd (ground (arith, e))

  wait-Turned :
      (m l : Bool) (fuel a v : ℕ) (racing : Racing R) (s : State Q A S R)
      → Queue.poll_result a s.thread_state.thread_waker ≡ none
      → Kept l s
      → Turned l m (tick_turn c false (suc fuel) a v racing m s)
  unfolding tick_turn
  wait-Turned false l fuel a v racing s e h =
      rw (e, tick_turn) (inl (poll_listener-Kept l a v s h, refl))
  wait-Turned true l fuel a v racing s e h =
      rw (e, tick_turn)
        (inl (
          poll_mainstream-Kept l a v racing (poll_tick_listener c a v s)
              (poll_listener-Kept l a v s h),
          refl,
        ))

  tick_turn-Turned :
      (top l : Bool) (fuel a v : ℕ) (racing : Racing R) (m : Bool) (s : State Q A S R)
      → Kept l s
      → Turned l m (tick_turn c top fuel a v racing m s)
  unfolding Keeps tick_turn
  tick_turn-Turned true l zero a v racing m s h = inl (h, refl)
  tick_turn-Turned false l zero a v racing m s h = inl (h, refl)
  tick_turn-Turned true l (suc fuel) a v racing m s (h, e) =
      let m' = if s.thread_state.is_mainstream_listening then m else true in
      let rest = tick_turn c false fuel a v racing m' (acquire_mainstream c s) in
      let g = tick_turn-Turned false true fuel a v racing m' (acquire_mainstream c s) (h, refl) in
      tick_local-Turned s.thread_state.local_queue l a m s rest (h, e)
        (top-Turned l m rest (subst (λ x. Turned true (if x then m else true) rest) e g))
  tick_turn-Turned false l (suc fuel) a v racing m s h =
      let t = poll_tick_listener c a v s in
      let g = poll_listener-Kept l a v s h in
      elim (Option-cases (Queue.poll_result a s.thread_state.thread_waker)) [
        | inl e ↦ wait-Turned m l fuel a v racing s e h
        | inr (none, e) ↦ rw (e, tick_turn) (tick_turn-Turned true l fuel a v racing m t g)
        | inr (some r, e) ↦ rw (e, tick_turn) (inl (run_direct-Kept l a v r t g, refl))
      ]

  pub tick-Turned :
      (l : Bool) (a v : ℕ) (racing : Racing R) (f : TickFuture) (m : Bool) (s : State Q A S R)
      → Kept l s
      → Turned l m (tick c a v racing f m s)
  unfolding tick
  tick-Turned l a v racing f m s h =
      tick_turn-Turned (tick_top f) l (tick_enough c s) a v racing m s h

  pub drop_tick-Kept :
      (l : Bool) (a : ℕ) (f : TickFuture) (s : State Q A S R)
      → Kept l s
      → Kept l (drop_tick c a f s)
  unfolding drop_tick
  drop_tick-Kept l a tick_start s h = h
  drop_tick-Kept l a tick_await s h = drop_listener-Kept l a s h
  drop_tick-Kept l a tick_done s h = h

  -- A ticker that is dropped gives up the mainstream if it has it.
  pub drop_ticker-Kept :
      (l m : Bool) (s : State Q A S R)
      → Kept l s
      → Kept (if m then false else l) (drop_ticker c m s)
  unfolding Keeps drop_ticker
  drop_ticker-Kept l false s h = h
  drop_ticker-Kept l true s (h, e) =
      let t = record s {
        mainstream_waker = c.atomic.cleared s.mainstream_waker;
        thread_state = record s.thread_state { is_mainstream_listening = false };
      } in
      notify_waker-Keeps c P false notifies (λ _. none) t (h, refl)

-- ===== src/Executor/Ticker.antt =====
-- The tickers of src/executor.rs: `Ticker::tick` as a future, `Executor::run`, and the drops.
use unsend.Queue
use unsend.Executor.Crates.{Crates}
use unsend.Base.{
  none, some, [], List, ℕ, Bool, true, length, false, ◌++◌, ◌∷◌, suc, ◌+◌, if◌then◌else◌, zero,
}
use unsend.Executor.{schedule_there, run_task, State, notify_waker, set_local}

-- Where a `tick` future stands.
pub data TickFuture : Type 0 where
  tick_start : TickFuture
  tick_await : TickFuture
  tick_done : TickFuture

-- What a poll of a `tick` future gives; `tick_fuel` is for a loop that runs out of fuel.
pub data TickPoll : Type 0 where
  ticked : TickPoll
  tick_pending : TickPoll
  tick_fuel : TickPoll

abbrev pub tick_top : TickFuture → Bool
tick_top tick_start = true
tick_top tick_await = false
tick_top tick_done = false

abbrev pub tick_after : TickPoll → TickFuture
tick_after ticked = tick_done
tick_after tick_pending = tick_await
tick_after tick_fuel = tick_await

-- What other threads push while a ticker polls: before it registers its waker, and after that.
pub record Racing (R : Type 0) : Type 0 where
  pub before : List R
  pub behind : List R

module _ {Q A S W R : Type 0} (c : Crates Q A S W R) where
  -- The drop of the listener `a` of a ticker.
  unfoldable pub drop_tick_listener : ℕ → State Q A S R → State Q A S R
  drop_tick_listener a s = record s {
    thread_state = record s.thread_state {
      thread_waker = Queue.drop a s.thread_state.thread_waker;
    };
    woken = s.woken ++ Queue.drop_wakes a s.thread_state.thread_waker;
    lost = s.lost ++ Queue.lost_by a s.thread_state.thread_waker;
  }

  unfoldable pub poll_tick_listener : ℕ → ℕ → State Q A S R → State Q A S R
  poll_tick_listener a v s = record s {
    thread_state = record s.thread_state {
      thread_waker = Queue.poll a v s.thread_state.thread_waker;
    };
  }

  -- Other threads push to the mainstream queue.
  unfoldable pub push_all : List R → State Q A S R → State Q A S R
  unfolding schedule_there
  push_all [] s = s
  push_all (r ∷ rs) s =
      push_all rs (schedule_there c r (record s { scheduled = s.scheduled ++ r ∷ [] }))

  -- A runnable in hand: it runs, and then a runnable that the listener was notified with meanwhile.
  unfoldable pub run_direct : ℕ → ℕ → R → State Q A S R → State Q A S R
  unfolding run_task poll_tick_listener drop_tick_listener
  run_direct a v r s =
      let t = run_task c r s in
      let u = poll_tick_listener a v t in
      drop_tick_listener a (elim (Queue.poll_result a t.thread_state.thread_waker) [
        | none ↦ u
        | some m ↦ elim m [ none ↦ u | some r' ↦ run_task c r' u ]
      ])

  -- The mainstream ticker registers its waker between two tries to pop.
  unfoldable pub register_mainstream : ℕ → Racing R → State Q A S R → State Q A S R
  unfolding push_all
  register_mainstream v racing s =
      let t = push_all racing.before s in
      push_all racing.behind
        (record t { mainstream_waker = c.atomic.register v t.mainstream_waker })

  -- `mainstream_runnable`, polled when the listener was not notified.
  unfoldable pub poll_mainstream : ℕ → ℕ → Racing R → State Q A S R → TickPoll × State Q A S R
  unfolding run_direct register_mainstream
  poll_mainstream a v racing s = elim (c.queue.pop s.task_queue) [
    | some (r, q) ↦ (ticked, run_direct a v r (record s { task_queue = q }))
    | none ↦
        let t = register_mainstream v racing s in
        elim (c.queue.pop t.task_queue) [
          | none ↦ (tick_pending, t)
          | some (r, q) ↦ (
            ticked,
            run_direct a v r (record t {
              task_queue = q;
              mainstream_waker = c.atomic.cleared t.mainstream_waker;
            }),
          )
        ]
  ]

  -- Takes the mainstream if nobody has it.
  abbrev pub acquire_mainstream : State Q A S R → State Q A S R
  acquire_mainstream s = record s {
    thread_state = record s.thread_state { is_mainstream_listening = true };
  }

  -- The top of the loop of `tick`: the thread-local queue, or else `rest`.
  unfoldable pub tick_local :
      List R
      → ℕ
      → Bool
      → State Q A S R
      → TickPoll × Bool × State Q A S R
      → TickPoll × Bool × State Q A S R
  unfolding run_task notify_waker drop_tick_listener
  tick_local [] a m s rest = rest
  tick_local (r ∷ rs) a m s rest = (
    ticked,
    m,
    drop_tick_listener a (run_task c r (notify_waker c (λ _. none) (set_local c rs s))),
  )

  -- The loop of `tick`, from its top (`true`) or from its `.await`; `m` is `is_mainstream`.
  unfoldable pub tick_turn :
      Bool → ℕ → ℕ → ℕ → Racing R → Bool → State Q A S R → TickPoll × Bool × State Q A S R
  unfolding tick_local poll_mainstream poll_tick_listener run_direct
  tick_turn top zero a v racing m s = (tick_fuel, m, s)
  tick_turn true (suc fuel) a v racing m s =
      let m' = if s.thread_state.is_mainstream_listening then m else true in
      let rest = tick_turn false fuel a v racing m' (acquire_mainstream s) in
      tick_local s.thread_state.local_queue a m s rest
  tick_turn false (suc fuel) a v racing m s =
      let t = poll_tick_listener a v s in
      elim (Queue.poll_result a s.thread_state.thread_waker) [
        | some x ↦ elim x [
          | some r ↦ (ticked, m, run_direct a v r t)
          | none ↦ tick_turn true fuel a v racing m t
        ]
        | none ↦ elim m [
          | false ↦ (tick_pending, false, t)
          | true ↦ let (p, u) = poll_mainstream a v racing t in (p, true, u)
        ]
      ]

  -- Each turn that goes round consumes a notification.
  abbrev pub tick_enough : State Q A S R → ℕ
  tick_enough s = let n = length s.thread_state.thread_waker.notices in suc (suc (n + n))

  -- `Ticker::tick`, polled by the task `v`; its listener is at the address `a`.
  unfoldable pub tick :
      ℕ → ℕ → Racing R → TickFuture → Bool → State Q A S R → TickPoll × Bool × State Q A S R
  unfolding tick_turn
  tick a v racing f m s = tick_turn (tick_top f) (tick_enough s) a v racing m s

  -- The drop of a `tick` future.
  unfoldable pub drop_tick : ℕ → TickFuture → State Q A S R → State Q A S R
  unfolding drop_tick_listener
  drop_tick a tick_start s = s
  drop_tick a tick_await s = drop_tick_listener a s
  drop_tick a tick_done s = s

  -- `Ticker::drop`.
  unfoldable pub drop_ticker : Bool → State Q A S R → State Q A S R
  unfolding notify_waker
  drop_ticker false s = s
  drop_ticker true s =
      notify_waker c (λ _. none)
        (record s {
          mainstream_waker = c.atomic.cleared s.mainstream_waker;
          thread_state = record s.thread_state { is_mainstream_listening = false };
        })

  -- `Executor::tick`: its ticker is there for one tick, and it is dropped when the tick is over.
  unfoldable pub tick_once :
      ℕ → ℕ → Racing R → TickFuture → Bool → State Q A S R → TickPoll × Bool × State Q A S R
  unfolding tick drop_ticker
  tick_once a v racing f m s =
      let (p, m', t) = tick a v racing f m s in
      elim p [
        | ticked ↦ (ticked, false, drop_ticker m' t)
        | tick_pending ↦ (tick_pending, m', t)
        | tick_fuel ↦ (tick_fuel, m', t)
      ]

  -- The runner of `Executor::run`: it ticks until a tick waits. `fuel` bounds the ticks of one poll.
  unfoldable pub run_turns :
      ℕ → ℕ → ℕ → Racing R → TickFuture → Bool → State Q A S R → TickPoll × Bool × State Q A S R
  unfolding tick
  run_turns zero a v racing f m s = (tick_fuel, m, s)
  run_turns (suc fuel) a v racing f m s =
      let (p, m', t) = tick a v racing f m s in
      elim p [
        | ticked ↦ run_turns fuel a v racing tick_start m' t
        | tick_pending ↦ (tick_pending, m', t)
        | tick_fuel ↦ (tick_fuel, m', t)
      ]

-- ===== src/Executor.antt =====
-- The executor: its state, the scheduler function, `try_tick`, `spawn` and `is_empty`. Models
-- src/executor.rs; the event of its tickers is the queue that Event/Refinement shows it to be.
pub mod Crates
pub mod Ticker
pub mod Shutdown
pub mod Sample
pub mod Fuel
pub mod Starving
pub mod Alone
pub mod Draining
pub mod Scheduling
pub mod Trying
pub mod Losing
pub mod Handing
pub mod Awake
pub mod Waking
pub mod Walk
pub mod Turns
pub mod Sole
pub mod Few
pub mod Sleeping
pub mod Waits
pub mod Ticks
pub mod Slots
pub mod Runs
pub mod Reentrant
mod ReentrantExamples
mod Examples
mod DrainExamples
pub mod Threads
pub mod Accounts
pub mod Ticking
pub mod Kept
pub mod Use
pub mod Mainstream
use unsend.Queue
use unsend.Base.{
  none, some, [], List, Option, Bool, ℕ, ◌++◌, if◌then◌else◌, ◌==◌, false, is_nil, to_list, ◌∷◌,
  ◌∷◌, ◌&&◌, true,
}
use unsend.Queue.{Queue}

-- The state that only the owning thread uses.
pub record ThreadState (S R : Type 0) : Type 0 where
  pub local_queue : List R
  pub thread_waker : Queue (Option R)
  pub active : S
  pub is_mainstream_listening : Bool

-- The last five fields are a log: the wakers that were called, the runnables that were handed to the
-- scheduler function, those that ran, those that a dropped listener had and nobody took over, and
-- those that were leaked.
pub record State (Q A S R : Type 0) : Type 0 where
  pub task_queue : Q
  pub mainstream_waker : A
  pub origin_thread : Option ℕ
  pub thread_state : ThreadState S R
  pub woken : List ℕ
  pub scheduled : List R
  pub ran : List R
  pub lost : List R
  pub leaked : List R

abbrev pub same_thread : Option ℕ → Option ℕ → Bool
same_thread (some origin_id) (some our_id) = origin_id == our_id
same_thread (some origin_id) none = false
same_thread none our_id = false

module _ {Q A S W R : Type 0} (c : Crates.Crates Q A S W R) where
  -- `Executor::with_thread_id`, on the thread `origin`.
  unfoldable pub with_thread_id : Option ℕ → State Q A S R
  with_thread_id origin = record {
    task_queue = c.queue.unbounded;
    mainstream_waker = c.atomic.new;
    origin_thread = origin;
    thread_state = record {
      local_queue = [];
      thread_waker = Queue.empty;
      active = c.slab.new;
      is_mainstream_listening = false;
    };
    woken = [];
    scheduled = [];
    ran = [];
    lost = [];
    leaked = [];
  }

  -- `Default`, whose thread id is the default one.
  unfoldable pub default : Option ℕ → State Q A S R
  unfolding with_thread_id
  default origin = with_thread_id origin

  -- `Executor::is_empty`.
  unfoldable pub is_empty : State Q A S R → Bool
  is_empty s = is_nil s.thread_state.local_queue && c.queue.is_empty s.task_queue

  abbrev pub set_local : List R → State Q A S R → State Q A S R
  set_local rs s = record s { thread_state = record s.thread_state { local_queue = rs } }

  -- `thread_waker.notify(1.tag_with(f))`.
  unfoldable pub notify_waker : (ℕ → Option R) → State Q A S R → State Q A S R
  notify_waker f s = record s {
    thread_state = record s.thread_state {
      thread_waker = Queue.notify 1 false f s.thread_state.thread_waker;
    };
    woken = s.woken ++ Queue.notify_wakes 1 false s.thread_state.thread_waker;
  }

  -- `mainstream_waker.wake()`.
  unfoldable pub wake_mainstream : State Q A S R → State Q A S R
  wake_mainstream s = record s {
    mainstream_waker = c.atomic.cleared s.mainstream_waker;
    woken = s.woken ++ to_list (c.atomic.holds s.mainstream_waker);
  }

  -- The scheduler function on the owning thread: the runnable goes to a ticker that waits, or into
  -- the thread-local queue.
  unfoldable pub schedule_here : R → State Q A S R → State Q A S R
  unfolding notify_waker
  schedule_here r s =
      let q = s.thread_state.thread_waker in
      let t = notify_waker (Queue.take_item r) s in
      if Queue.delivered (Queue.quota 1 false q) q.waiters == 0
      then set_local (t.thread_state.local_queue ++ r ∷ []) t
      else t

  -- The scheduler function elsewhere: the mainstream queue, or a leak when the push fails.
  unfoldable pub schedule_there : R → State Q A S R → State Q A S R
  unfolding wake_mainstream
  schedule_there r s = elim (c.queue.push r s.task_queue) [
    | none ↦ record s { leaked = s.leaked ++ r ∷ [] }
    | some q ↦ wake_mainstream (record s { task_queue = q })
  ]

  -- `Executor::schedule`, called on the thread `current`.
  unfoldable pub schedule : Option ℕ → R → State Q A S R → State Q A S R
  unfolding schedule_here schedule_there
  schedule current r s =
      let t = record s { scheduled = s.scheduled ++ r ∷ [] } in
      if same_thread s.origin_thread current then schedule_here r t else schedule_there r t

  -- `Executor::spawn`, on the thread of the executor, which is not `Send`: the waker of the new
  -- runnable is stored, and the runnable is scheduled.
  unfoldable pub spawn : R → State Q A S R → State Q A S R
  unfolding schedule
  spawn r s = schedule s.origin_thread r (record s {
    thread_state = record s.thread_state {
      active = c.slab.insert (c.waker r) s.thread_state.active;
    };
  })

  -- The guard of a task that ends removes its waker.
  unfoldable pub end_task : ℕ → State Q A S R → State Q A S R
  end_task index s = record s {
    thread_state = record s.thread_state { active = c.slab.try_remove index s.thread_state.active };
  }

  -- What a task does to its executor while it runs.
  unfoldable pub perform : List (Crates.Call R) → State Q A S R → State Q A S R
  unfolding schedule spawn end_task
  perform [] s = s
  perform (Crates.schedules current r ∷ cs) s = perform cs (schedule current r s)
  perform (Crates.spawns r ∷ cs) s = perform cs (spawn r s)
  perform (Crates.ends index ∷ cs) s = perform cs (end_task index s)

  -- `Runnable::run`.
  unfoldable pub run_task : R → State Q A S R → State Q A S R
  unfolding perform
  run_task r s = perform (c.runs s.ran r) (record s { ran = s.ran ++ r ∷ [] })

  -- The mainstream queue, for `try_tick`.
  unfoldable pub try_mainstream : State Q A S R → Bool × State Q A S R
  unfolding run_task wake_mainstream
  try_mainstream s = elim (c.queue.pop s.task_queue) [
    | none ↦ (false, s)
    | some (r, q) ↦ (true, run_task r (wake_mainstream (record s { task_queue = q })))
  ]

  -- `try_tick`, by the thread-local queue.
  unfoldable pub try_local : List R → State Q A S R → Bool × State Q A S R
  unfolding run_task notify_waker try_mainstream
  try_local [] s = try_mainstream s
  try_local (r ∷ rs) s = (true, run_task r (notify_waker (λ _. none) (set_local rs s)))

  -- `Executor::try_tick`.
  unfoldable pub try_tick : State Q A S R → Bool × State Q A S R
  unfolding try_local
  try_tick s = try_local s.thread_state.local_queue s

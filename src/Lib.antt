-- ===== src/Lib.antt =====
-- Verification of unsend, a runtime for futures that stay on one thread.
--
-- The crate's parts meet in the event (src/event.rs): every lock, the channel and the executor
-- wait on an event and notify it. The models of the locks, of the channel and of the executor
-- stand on the queue that the event is shown to be; a lock with one event and the channel also
-- run over the event itself.
--
-- Event/ models src/event.rs over an explicit memory. Event/World has the data (`Event`,
-- `Inner`, `Listener`, `Entry`, `State`) and the commands over it: a pointer is the address of a
-- listener, a read through a dangling pointer is the outcome `fault`, and an underflow or an
-- `unwrap` of nothing is `panic`. Event/Notification has the trait `NotificationSealed` and its
-- implementations, Event/Inner has `Inner::notify` and `Event::notify`, Event/Listener has
-- `insert`, `remove`, `register`, `poll`, `listen` and `drop`, Event/Handles the public
-- listeners over it (`EventListener`, `EventListenerRc` and the boxed one of `Event::listen`),
-- and Event/Conversions the trait `IntoNotification`. The other files of Event/ hold proofs:
-- Chain and Linked on the doubly linked list, Relink, Insert, Remove, Deliver, Notify, Unlink,
-- Dropping, Polling and Freeing on one operation each, Rep on the relation to the queue,
-- Program, Simulation and Refinement on whole programs, Counters on the header's counters, and
-- Examples on runs.
--
-- Queue and its children are the specification of an event with no pointers: the listeners
-- that were notified, in order, and those that wait, in order. Queue/Flying follows the
-- values that an event carries, and Queue/Alone and Queue/Front are about one listener.
-- Queue/Sleeping is about the waker that a listener waits with.
--
-- Lock/ models src/lock/. Lock/Wait has the loop that the locks share, as the future that it
-- compiles to; Lock/System has the interface `Lock` and any use of a lock by futures and guards;
-- Turn, Single, Invariant, Wakeup and Handover prove what any lock with that interface does.
-- Lock/Pointers has the same loop and the same use over the event's list in memory, and
-- PointerTurns, PointerRuns and PointerLocks compare the two. Lock/Mutex and Lock/Semaphore
-- model src/lock/mutex.rs and src/lock/semaphore.rs and fill the interface; Exclusion and
-- Permits hold what they promise. Lock/RwLock models src/lock/rwlock.rs, which has two events,
-- RwUse has its use by futures and guards, and RwExclusion and RwRelease what it promises.
-- Lock/Barrier models src/lock/barrier.rs; Rendezvous, Rounds and Departures follow its rounds.
-- Lock/OnceCell models `get_or_try_init` of src/lock/once_cell.rs and Lock/OnceReady its other
-- operations, `get_or_init`, `set`, `wait`, `take` and `From`; OnceUse, OnceSole, OnceHeard and
-- OnceSet prove what they do, and OnceAwake, OnceAttended and OnceServed whom the end of a
-- writer wakes.
--
-- Channel models src/channel.rs, whose event carries the item itself, and Channel/Errors its
-- errors. Channel/Use has any use of a channel by its ends and `recv` futures; Delivery and
-- Accounts follow the items, Fuel the loop of `recv`, Closing the `closed` flag, and Waking
-- and Overtaking what wakes whom. Alone, Fifo, Solo and InOrder are about the order of the
-- items when one `recv` future at a time waits. Pointers and PointerUse have the channel and
-- its use over the event's list in memory, which PointerEnds, PointerTurns, PointerRuns and
-- PointerChannel compare with the queue.
--
-- Executor models src/executor.rs: the state, the scheduler function (`schedule`), `spawn`,
-- `try_tick` and `is_empty`. Executor/Crates has what the crates async-task, concurrent-queue,
-- atomic-waker and slab do, as parameters with laws; Executor/Ticker has `Ticker::tick` as a
-- future, `run` and the drops of tickers; Executor/Shutdown has `Executor::drop`;
-- Executor/Reentrant has the scheduler function with its borrow of the thread state;
-- Executor/Threads has `ThreadId`; Executor/Use has any use of an executor by tickers and
-- threads. A step takes what other threads push while a ticker polls as an argument (`Racing`).
-- The state has logs besides what the source has: which wakers were called, and which runnables
-- were scheduled, ran, were lost and were leaked. The other files prove: Accounts, Ticking, Kept
-- and Mainstream where runnables are, Scheduling and Trying where they go and what is run,
-- Awake, Waking, Sleeping and Waits how the mainstream is woken, Walk, Turns, Sole and Few who
-- listens and who is notified, Fuel, Starving, Alone and Draining how the loops of `tick` and
-- `run` end, Ticks on `tick` and `try_tick`, Slots the slab of wakers, Losing what a dropped
-- future loses and Handing what a dropped ticker hands on, and Drained, Aborts and Leftover of
-- Shutdown what a drop does. Sample has the crates as lists, and Runs, Examples, DrainExamples
-- and ReentrantExamples run them.
--
-- Numbers: `len` and `notified` count listeners in memory, so they do not overflow and are plain
-- numbers; the generation of a barrier wraps at 64 bits, as without overflow checks; a count
-- given to `notify` is any number, and `into_notification` reduces an argument to the 64 bits of
-- `usize`. The loop of `Inner::notify` runs on its own counter, so it needs no fuel. The loops
-- of a lock, of `recv`, of `get_or_try_init` and of `tick` run on fuel, two turns for each
-- notification in the event: each turn that goes round consumes one. The loops of
-- `Executor::drop` run on fuel too: the first loop ends in two turns, the second in one turn
-- more than the thread-local queue is long when the drops of runnables schedule nothing, and
-- otherwise its fuel is an argument. The ticks of one poll of `run` have no bound, so its fuel
-- is an argument.
--
-- Not modelled: the wakers (a waker is a task number, and calling it is recorded in `woken`), so
-- also a waker that calls back into the event while it is borrowed, or into the executor but for
-- the scheduler function in Executor/Reentrant; the order in which other threads' pushes
-- interleave with a poll, but for those before and after a ticker registers its waker; the
-- future that `run` is given, and the futures of tasks, of which only what they do to the
-- executor is known; the lifetimes of references, so `get_mut` and `Deref` are what is done
-- through them; derived `Debug` and `Clone` implementations; the comparisons and the examples,
-- which are input and output.
pub mod Base
pub mod Event
pub mod Queue
pub mod Lock
pub mod Channel
pub mod Executor

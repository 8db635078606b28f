-- ===== src/Lock/Wait.antt =====
-- The loop that the locks share: try, and await the listener when that fails. It stands in
-- src/lock/mutex.rs, src/lock/semaphore.rs and src/lock/rwlock.rs. An event is the queue that
-- Event/Refinement shows it to be.
use unsend.Queue
use unsend.Queue.{Queue}
use unsend.Base.{none, some, zero}
use unsend.Base.{ℕ, List, Bool, false, Option, true, ◌++◌, suc, length, ◌+◌}

-- An event, the wakers that were called so far, and what else the lock keeps.
pub record Shared (S : Type 0) : Type 0 where
  pub event : Queue (Unit {0})
  pub woken : List ℕ
  pub inner : S

-- Where a future stands: not polled yet, at its `.await`, or returned.
pub data Future : Type 0 where
  start : Future
  awaiting : Future
  finished : Future

-- `looping` is for a loop that runs out of fuel.
pub data Progress : Type 0 where
  acquired : Progress
  pending : Progress
  looping : Progress

abbrev pub at_top : Future → Bool
at_top start = true
at_top awaiting = false
at_top finished = false

abbrev pub after : Progress → Future
after acquired = finished
after pending = awaiting
after looping = awaiting

module _ {S : Type 0} where
  -- `event.notify(1)`.
  unfoldable pub notify_one : Shared S → Shared S
  notify_one s = record s {
    event = Queue.notify 1 false (λ _. tt) s.event;
    woken = s.woken ++ Queue.notify_wakes 1 false s.event;
  }

  -- The drop of the listener `a`.
  unfoldable pub drop_listener : ℕ → Shared S → Shared S
  drop_listener a s = record s {
    event = Queue.drop a s.event;
    woken = s.woken ++ Queue.drop_wakes a s.event;
  }

  -- A poll of the listener `a` by the task `v`.
  unfoldable pub poll_listener : ℕ → ℕ → Shared S → Shared S
  poll_listener a v s = record s { event = Queue.poll a v s.event }

  -- The loop from its top (`true`), or from the `.await` of the listener.
  unfoldable pub turn : Bool → ℕ → (S → Option S) → ℕ → ℕ → Shared S → Progress × Shared S
  unfolding drop_listener poll_listener
  turn top zero try a v s = (looping, s)
  turn true (suc fuel) try a v s = elim (try s.inner) [
    | none ↦ turn false fuel try a v s
    | some i ↦ (acquired, drop_listener a (record s { inner = i }))
  ]
  turn false (suc fuel) try a v s = elim (Queue.poll_result a s.event) [
    | none ↦ (pending, poll_listener a v s)
    | some t ↦ turn true fuel try a v (poll_listener a v s)
  ]

  -- Each turn that awaits consumes a notification.
  abbrev pub enough : Shared S → ℕ
  enough s = suc (suc (length s.event.notices + length s.event.notices))

  -- A poll of the future that runs the loop; the listener lives as long as the future.
  unfoldable pub poll_future :
      (S → Option S) → ℕ → ℕ → Future → Shared S → Progress × Future × Shared S
  unfolding turn
  poll_future try a v f s = let (r, s') = turn (at_top f) (enough s) try a v s in (r, after r, s')

  -- The drop of the future.
  unfoldable pub drop_future : ℕ → Future → Shared S → Shared S
  unfolding drop_listener
  drop_future a start s = s
  drop_future a awaiting s = drop_listener a s
  drop_future a finished s = s

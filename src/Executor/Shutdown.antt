-- ===== src/Executor/Shutdown.antt =====
-- The drop of an executor, in src/executor.rs.
pub mod Drained
pub mod Aborts
pub mod Leftover
mod Examples
use unsend.Executor
use unsend.Executor.Crates.{Crates, Call, schedules, spawns, ends}
use unsend.Base.{
  refl, none, some, [], ◌∷◌, Option, List, ℕ, Bool, to_list, if◌then◌else◌, suc, zero, true,
}
use unsend.Executor.{State, perform, set_local, same_thread}

-- How a step of the drop ends; `panicked` when it borrows the thread state while that is borrowed.
pub data Closing (X : Type 0) : Type 0 where
  closed : X → Closing X
  panicked : Closing X
  drop_fuel : Closing X

abbrev pub and_then : {X : Type 0} → Closing X → (X → Closing X) → Closing X
and_then (closed x) f = f x
and_then panicked f = panicked
and_then drop_fuel f = drop_fuel

module _ {Q A S W R : Type 0} (c : Crates Q A S W R) where
  -- Whether a call borrows the thread state.
  abbrev pub borrows : Call R → State Q A S R → Bool
  borrows (schedules current r) s = same_thread s.origin_thread current
  borrows (spawns r) s = true
  borrows (ends index) s = true

  -- Calls that are made while the thread state is borrowed.
  unfoldable pub under_borrow : List (Call R) → State Q A S R → Closing (State Q A S R)
  unfolding perform
  under_borrow [] s = closed s
  under_borrow (x ∷ xs) s = if borrows x s then panicked else under_borrow xs (perform c (x ∷ []) s)

  abbrev pub scheduling : Option R → State Q A S R → List (Call R)
  scheduling none s = []
  scheduling (some r) s = schedules s.origin_thread r ∷ []

  -- Wakers that are dropped while the thread state is borrowed.
  unfoldable pub forget_all : List W → State Q A S R → Closing (State Q A S R)
  unfolding under_borrow
  forget_all [] s = closed s
  forget_all (w ∷ ws) s = and_then (under_borrow (scheduling (c.forgets w) s) s) (forget_all ws)

  abbrev pub drain_active : State Q A S R → State Q A S R
  drain_active s = record s {
    thread_state = record s.thread_state { active = c.slab.drained s.thread_state.active };
  }

  -- The first loop of the drop: it wakes the waker that a drain gives first.
  unfoldable pub wake_tasks : ℕ → State Q A S R → Closing (State Q A S R)
  unfolding forget_all perform
  wake_tasks zero s = drop_fuel
  wake_tasks (suc n) s =
      let t = drain_active s in
      elim (c.slab.first s.thread_state.active) [
        | none ↦ closed t
        | some w ↦
            and_then (forget_all (c.slab.others s.thread_state.active) t)
              (λ u. wake_tasks n (perform c (scheduling (c.wakes w) u) u))
      ]

  -- The pop of the thread-local queue in the condition of the second loop, and the next turn.
  unfoldable pub drain_local :
      List R → State Q A S R → (State Q A S R → Closing (State Q A S R)) → Closing (State Q A S R)
  unfolding under_borrow
  drain_local [] s next = closed s
  drain_local (r ∷ rs) s next = and_then (under_borrow (c.drops r) (set_local c rs s)) next

  -- The second loop: it goes on while both queues give a runnable.
  unfoldable pub drain_queues : ℕ → State Q A S R → Closing (State Q A S R)
  unfolding drain_local perform
  drain_queues zero s = drop_fuel
  drain_queues (suc n) s = elim (c.queue.pop s.task_queue) [
    | none ↦ closed s
    | some (r, q) ↦
        let t = perform c (c.drops r) (record s { task_queue = q }) in
        drain_local t.thread_state.local_queue t (drain_queues n)
  ]

  -- The drop of the thread-local queue.
  unfoldable pub destroy_local : List R → State Q A S R → Closing (State Q A S R)
  unfolding under_borrow
  destroy_local [] s = closed (set_local c [] s)
  destroy_local (r ∷ rs) s = and_then (under_borrow (c.drops r) s) (destroy_local rs)

  -- `ManuallyDrop::drop` of the thread state, under a borrow of it.
  unfoldable pub destroy : State Q A S R → Closing (State Q A S R)
  unfolding destroy_local forget_all
  destroy s = and_then (destroy_local s.thread_state.local_queue s) (λ t.
      let active = t.thread_state.active in
      and_then (forget_all (to_list (c.slab.first active)) t) (forget_all (c.slab.others active)))

  -- `Executor::drop`.
  unfoldable pub drop_executor : ℕ → State Q A S R → Closing (State Q A S R)
  unfolding wake_tasks drain_queues destroy
  drop_executor fuel s = and_then (and_then (wake_tasks 2 s) (drain_queues fuel)) destroy

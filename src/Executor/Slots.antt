-- ===== src/Executor/Slots.antt =====
-- The slab of wakers of src/executor.rs, when a task is spawned and when it ends.
use unsend.Executor.Shutdown.Drained.{active_of, schedule-active}
use unsend.Executor.Crates.{Crates, Call, schedules, spawns, ends, only_ends}
use unsend.Base.{
  refl, some, ◌≡◌, ◌∙◌, sym, inl, inr, ap, arith, ==_iff, Bool-cases, ◌==◌, ℕ, List, [], ◌∷◌, true,
}
use unsend.Executor.{perform, spawn, end_task, State}

module _ {Q A S W R : Type 0} (c : Crates Q A S W R) where
  abbrev pub with_active : S → State Q A S R → State Q A S R
  with_active x s = record s { thread_state = record s.thread_state { active = x } }

  -- Ends of tasks change the slab only, and leave it with any `P` that a removal keeps.
  pub perform-ends :
      (P : S → Type 0)
      → ((i : ℕ) (x : S) → P x → P (c.slab.try_remove i x))
      → (xs : List (Call R)) (s : State Q A S R) → only_ends xs ≡ true
      → P (active_of c s)
      → (x : S) × (perform c xs s ≡ with_active x s) × P x
  unfolding perform end_task
  perform-ends P keep [] s e h = (s.thread_state.active, refl, h)
  perform-ends P keep (schedules current r ∷ xs) s e h = absurd (ground (arith, e))
  perform-ends P keep (spawns r ∷ xs) s e h = absurd (ground (arith, e))
  perform-ends P keep (ends index ∷ xs) s e h =
      perform-ends P keep xs (end_task c index s) e (keep index s.thread_state.active h)

  spawn-active :
      (r : R) (s : State Q A S R)
      → active_of c (spawn c r s) ≡ c.slab.insert (c.waker r) (active_of c s)
  unfolding spawn
  spawn-active r s = schedule-active c s.origin_thread r (record s {
    thread_state = record s.thread_state {
      active = c.slab.insert (c.waker r) s.thread_state.active;
    };
  })

  -- Removing the key that an insertion used undoes it.
  removes :
      (x : S) (w : W) (k : ℕ)
      → c.slab.get (c.slab.try_remove (c.slab.vacant_key x) (c.slab.insert w x)) k ≡ c.slab.get x k
  removes x w k =
      let i = c.slab.vacant_key x in
      c.slab.get-try_remove i (c.slab.insert w x) k ∙ elim (Bool-cases (k == i)) [
        | inl h ↦ rw h (sym (ap (c.slab.get x) ((==_iff k i).0 h) ∙ c.slab.get-vacant x))
        | inr h ↦ rw h (c.slab.get-insert w x k ∙ rw h refl)
      ]

  -- A task that is spawned has its waker in the slab, and when it ends, the slab has for each key what
  -- it had before.
  pub end_task-spawn :
      (r : R) (s : State Q A S R) (k : ℕ)
      → let index = c.slab.vacant_key (active_of c s) in
        (c.slab.get (active_of c (spawn c r s)) index ≡ some (c.waker r))
        × (c.slab.get (active_of c (end_task c index (spawn c r s))) k
            ≡ c.slab.get (active_of c s) k)
  unfolding end_task
  end_task-spawn r s k =
      let i = c.slab.vacant_key (active_of c s) in
      let w = c.waker r in
      let e = spawn-active r s in
      (
        rw e (c.slab.get-insert w (active_of c s) i ∙ ground (arith, ==_iff i i)),
        rw e (removes (active_of c s) (c.waker r) k),
      )

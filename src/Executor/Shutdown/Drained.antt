-- ===== src/Executor/Shutdown/Drained.antt =====
-- The first loop of `Executor::drop`, in src/executor.rs: what it does to the slab of wakers.
use unsend.Executor.Crates.{Crates}
use unsend.Base.{
  append-nil, sym, refl, none, some, [], ◌∷◌, inl, inr, ◌≡◌, ℕ, Option, ◌⊎◌, Bool-cases, List,
  Option-cases, arith, suc, ◌++◌, to_list,
}
use unsend.Executor.Shutdown.{
  closed, panicked, drop_fuel, Closing, under_borrow, forget_all, scheduling, drain_active,
  wake_tasks,
}
use unsend.Executor.{
  State, schedule, perform, schedule_here, schedule_there, notify_waker, wake_mainstream,
  same_thread,
}

module _ {X : Type 0} where
  pub Closing-cases :
      (r : Closing X) → ((x : X) × (r ≡ closed x)) ⊎ ((r ≡ panicked) ⊎ (r ≡ drop_fuel))
  Closing-cases (closed x) = inl (x, refl)
  Closing-cases panicked = inr (inl refl)
  Closing-cases drop_fuel = inr (inr refl)

module _ {Q A S W R : Type 0} (c : Crates Q A S W R) where
  abbrev pub active_of : State Q A S R → S
  active_of s = s.thread_state.active

  abbrev pub IsDrained : State Q A S R → Type 0
  IsDrained s = (k : ℕ) → c.slab.get (active_of s) k ≡ none

  pub schedule-active :
      (current : Option ℕ) (r : R) (s : State Q A S R)
      → active_of (schedule c current r s) ≡ active_of s
  unfolding schedule schedule_here schedule_there notify_waker wake_mainstream
  schedule-active current r s = elim (Option-cases (c.queue.push r s.task_queue)) [
    | inl e ↦ ground (arith, e)
    | inr (q, e) ↦ ground (arith, e)
  ]

  pub scheduling-active :
      (o : Option R) (s : State Q A S R) → active_of (perform c (scheduling c o s) s) ≡ active_of s
  unfolding perform
  scheduling-active none s = refl
  scheduling-active (some r) s = schedule-active s.origin_thread r s

  -- Waking tasks and dropping wakers only schedules: no waker is added.
  pub scheduling-cases :
      (o : Option R) (s : State Q A S R)
      → (under_borrow c (scheduling c o s) s ≡ panicked)
        ⊎ (under_borrow c (scheduling c o s) s ≡ closed (perform c (scheduling c o s) s))
  unfolding under_borrow perform
  scheduling-cases none s = inr refl
  scheduling-cases (some r) s = elim (Bool-cases (same_thread s.origin_thread s.origin_thread)) [
    | inl e ↦ inl (rw (e, under_borrow) refl)
    | inr e ↦ inr (rw (e, under_borrow) refl)
  ]

  -- Dropping wakers under the borrow gives a panic, or a state that still has `P`.
  pub forget_all-cases :
      (P : State Q A S R → Type 0)
      → ((o : Option R) (s : State Q A S R) → P s → P (perform c (scheduling c o s) s))
      → (ws : List W) (s : State Q A S R) → P s
      → (forget_all c ws s ≡ panicked)
        ⊎ ((u : State Q A S R) × (forget_all c ws s ≡ closed u) × P u)
  unfolding forget_all
  forget_all-cases P keep [] s h = inr (s, refl, h)
  forget_all-cases P keep (w ∷ ws) s h = elim (scheduling-cases (c.forgets w) s) [
    | inl e ↦ inl (rw (e, forget_all) refl)
    | inr e ↦
        let t = perform c (scheduling c (c.forgets w) s) s in
        elim (forget_all-cases P keep ws t (keep (c.forgets w) s h)) [
          | inl f ↦ inl (rw (e, forget_all) f)
          | inr (u, f, g) ↦ inr (u, rw (e, forget_all) f, g)
        ]
  ]

  pub drain_active-IsDrained : (s : State Q A S R) → IsDrained (drain_active c s)
  drain_active-IsDrained s k = c.slab.get-drained s.thread_state.active k

  IsDrained-scheduling :
      (o : Option R) (s : State Q A S R) → IsDrained s → IsDrained (perform c (scheduling c o s) s)
  IsDrained-scheduling o s h k = rw (scheduling-active o s) (h k)

  -- Once the slab is empty, the loop is at its end.
  pub wake_tasks-drained :
      (n : ℕ) (s : State Q A S R) → IsDrained s → wake_tasks c (suc n) s ≡ closed (drain_active c s)
  unfolding wake_tasks
  wake_tasks-drained n s h = rw (c.slab.first-none s.thread_state.active h, wake_tasks) refl

  -- The first loop comes to its end, in two turns at most: it panics, or it leaves a state that has
  -- any `P` that draining the slab and scheduling keep.
  pub wake_tasks-cases :
      (P : State Q A S R → Type 0)
      → ((o : Option R) (s : State Q A S R) → P s → P (perform c (scheduling c o s) s))
      → ((s : State Q A S R) → P s → P (drain_active c s))
      → (n : ℕ) (s : State Q A S R) → P s
      → (wake_tasks c (suc (suc n)) s ≡ panicked)
        ⊎ ((u : State Q A S R) × (wake_tasks c (suc (suc n)) s ≡ closed u) × P u)
  unfolding wake_tasks
  wake_tasks-cases P keep drains n s h =
      let t = drain_active c s in
      let others = c.slab.others s.thread_state.active in
      elim (Option-cases (c.slab.first s.thread_state.active)) [
        | inl e ↦ inr (t, rw (e, wake_tasks) refl, drains s h)
        | inr (w, e) ↦
            elim (forget_all-cases (λ u. IsDrained u × P u)
              (λ o u g. (IsDrained-scheduling o u g.0, keep o u g.1)) others t
              (drain_active-IsDrained s, drains s h)) [
                | inl f ↦ inl (rw (e, f, wake_tasks) refl)
                | inr (u, f, g) ↦
                    let v = perform c (scheduling c (c.wakes w) u) u in
                    let d = IsDrained-scheduling (c.wakes w) u g.0 in
                    inr (
                      drain_active c v,
                      rw (e, f, wake_tasks) (wake_tasks-drained n v d),
                      drains v (keep (c.wakes w) u g.1),
                    )
              ]
      ]

  pub forget_all-quiet :
      ((w : W) → c.forgets w ≡ none)
      → (ws : List W) (s : State Q A S R) → forget_all c ws s ≡ closed s
  unfolding forget_all under_borrow
  forget_all-quiet quiet [] s = refl
  forget_all-quiet quiet (w ∷ ws) s = rw (quiet w, forget_all) (forget_all-quiet quiet ws s)

  scheduling-scheduled :
      (o : Option R) (s : State Q A S R)
      → (perform c (scheduling c o s) s).scheduled ≡ s.scheduled ++ to_list o
  unfolding perform schedule schedule_here schedule_there notify_waker wake_mainstream
  scheduling-scheduled none s = sym (append-nil s.scheduled)
  scheduling-scheduled (some r) s = elim (Option-cases (c.queue.push r s.task_queue)) [
    | inl e ↦ ground (arith, e)
    | inr (q, e) ↦ ground (arith, e)
  ]

  -- When the drop of a waker schedules nothing and some task is active, the first loop of the drop
  -- wakes one task, the one whose waker the drain gives first, and forgets all others: it ends with
  -- no active task, and with at most one runnable more scheduled than before.
  pub wake_tasks-one :
      (n : ℕ) (s : State Q A S R) (w : W)
      → ((w' : W) → c.forgets w' ≡ none)
      → c.slab.first s.thread_state.active ≡ some w
      → (t : State Q A S R) × (wake_tasks c (suc (suc n)) s ≡ closed t)
        × IsDrained t
        × (t.scheduled ≡ s.scheduled ++ to_list (c.wakes w))
  unfolding wake_tasks
  wake_tasks-one n s w quiet e =
      let t = drain_active c s in
      let u = perform c (scheduling c (c.wakes w) t) t in
      (
        drain_active c u,
        rw (e, forget_all-quiet quiet (c.slab.others s.thread_state.active) t, wake_tasks)
            (wake_tasks-drained n u
              (IsDrained-scheduling (c.wakes w) t (drain_active-IsDrained s))),
        drain_active-IsDrained u,
        scheduling-scheduled (c.wakes w) t,
      )

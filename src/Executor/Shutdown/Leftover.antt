-- ===== src/Executor/Shutdown/Leftover.antt =====
-- The second loop of `Executor::drop`, in src/executor.rs: the runnables that it leaves.
use unsend.Executor.Crates.{Crates, only_ends, pop-some, pop-none}
use unsend.Base.{
  refl, some, [], ◌∷◌, inl, inr, List, ℕ, ◌≡◌, suc, zero, Option-cases, length, ◌<◌, arith, ap,
  none, true, ◌∙◌, sym, subst,
}
use unsend.Executor.Shutdown.{
  closed, drain_queues, drain_local, under_borrow, destroy_local, destroy, drop_executor,
  forget_all, drain_active, wake_tasks, and_then, scheduling,
}
use unsend.Executor.Slots.{with_active, perform-ends}
use unsend.Executor.{perform, State, set_local}
use unsend.Executor.Shutdown.Drained.{
  IsDrained, forget_all-quiet, wake_tasks-drained, drain_active-IsDrained,
}

-- A list without its first `n` items.
abbrev pub rest_of : {X : Type 0} → ℕ → List X → List X
rest_of zero xs = xs
rest_of (suc n) [] = []
rest_of (suc n) (x ∷ xs) = rest_of n xs

module _ {Q A S W R : Type 0} (c : Crates Q A S W R) where
  -- Dropping these runnables does nothing to the executor.
  abbrev pub Inert : List R → Type 0
  Inert [] = Unit {0}
  Inert (r ∷ rs) = (c.drops r ≡ []) × Inert rs

  Inert-rest_of : (n : ℕ) (xs : List R) → Inert xs → Inert (rest_of n xs)
  Inert-rest_of zero xs h = h
  Inert-rest_of (suc n) [] h = h
  Inert-rest_of (suc n) (x ∷ xs) (_, h) = Inert-rest_of n xs h

  -- What the loop with `fuel` does when the thread-local queue is `xs`.
  abbrev DrainsTo : ℕ → List R → State Q A S R → Type 0
  DrainsTo fuel xs s =
      (t : State Q A S R) × (drain_queues c fuel s ≡ closed t)
      × (c.queue.items t.task_queue ≡ rest_of (suc (length xs)) (c.queue.items s.task_queue))
      × (t.thread_state.local_queue ≡ rest_of (length (c.queue.items s.task_queue)) xs)
      × IsDrained c t

  try_remove-drained :
      (i : ℕ) (x : S)
      → ((k : ℕ) → c.slab.get x k ≡ none)
      → (k : ℕ) → c.slab.get (c.slab.try_remove i x) k ≡ none
  try_remove-drained i x h k = c.slab.get-try_remove i x k ∙ ground (arith, h k)

  -- The drop of a runnable that the mainstream queue gave.
  dropped-ends :
      (r : R) (s : State Q A S R)
      → only_ends (c.drops r) ≡ true
      → IsDrained c s
      → (x : S) × (perform c (c.drops r) s ≡ with_active c x s) × ((k : ℕ) → c.slab.get x k ≡ none)
  dropped-ends r s =
      perform-ends c (λ x. (k : ℕ) → c.slab.get x k ≡ none) try_remove-drained (c.drops r) s

  drain-popped :
      (fuel : ℕ) (s v : State Q A S R) (r : R) (q : Q)
      → c.queue.pop s.task_queue ≡ some (r, q)
      → perform c (c.drops r) (record s { task_queue = q }) ≡ v
      → drain_queues c (suc fuel) s
        ≡ drain_local c v.thread_state.local_queue v (drain_queues c fuel)
  unfolding drain_queues
  drain-popped fuel s v r q f g = rw (f, drain_queues, g) refl

  -- A turn that popped `r` from the mainstream queue.
  drain-some :
      (fuel : ℕ) (xs : List R) (s : State Q A S R) (r : R) (q : Q)
      → ((r : R) → only_ends (c.drops r) ≡ true)
      → Inert xs
      → IsDrained c s
      → s.thread_state.local_queue ≡ xs
      → c.queue.pop s.task_queue ≡ some (r, q)
      → length xs < suc fuel
      → ((ys : List R) (u : State Q A S R)
          → Inert ys
          → IsDrained c u
          → u.thread_state.local_queue ≡ ys
          → length ys < fuel
          → DrainsTo fuel ys u)
      → DrainsTo (suc fuel) xs s
  unfolding drain_local under_borrow
  drain-some fuel [] s r q light inert d e f l rest =
      let n = pop-some c.queue s.task_queue r q f in
      let u = record s { task_queue = q } in
      let (x, g, h) = dropped-ends r u (light r) d in
      let v = with_active c x u in
      (
        v,
        drain-popped fuel s v r q f g ∙ ap (λ zs. drain_local c zs v (drain_queues c fuel)) e,
        rw n refl,
        rw n e,
        h,
      )
  drain-some fuel (y ∷ ys) s r q light (i, inert) d e f l rest =
      let n = pop-some c.queue s.task_queue r q f in
      let u = record s { task_queue = q } in
      let (x, g, h) = dropped-ends r u (light r) d in
      let v = with_active c x u in
      let (t, k, m, o, p) = rest ys (set_local c ys v) inert h refl (omega (arith, l)) in
      (
        t,
        drain-popped fuel s v r q f g
            ∙ ap (λ zs. drain_local c zs v (drain_queues c fuel)) e
            ∙ ap (λ cs. and_then (under_borrow c cs (set_local c ys v)) (drain_queues c fuel)) i
            ∙ k,
        rw n m,
        rw n o,
        p,
      )

  drain_queues-rest :
      (fuel : ℕ) (xs : List R) (s : State Q A S R)
      → ((r : R) → only_ends (c.drops r) ≡ true)
      → Inert xs
      → IsDrained c s
      → s.thread_state.local_queue ≡ xs
      → length xs < fuel
      → DrainsTo fuel xs s
  unfolding drain_queues
  drain_queues-rest zero xs s light inert d e l = absurd (omega arith)
  drain_queues-rest (suc fuel) xs s light inert d e l =
      elim (Option-cases (c.queue.pop s.task_queue)) [
        | inl f ↦
            let n = pop-none c.queue s.task_queue f in
            (s, rw (f, drain_queues) refl, rw n refl, rw n e, d)
        | inr ((r, q), f) ↦
            drain-some fuel xs s r q light inert d e f l
              (λ ys u inert' d' e' l'. drain_queues-rest fuel ys u light inert' d' e' l')
      ]

  destroy_local-Inert :
      (xs : List R) (s : State Q A S R)
      → Inert xs
      → destroy_local c xs s ≡ closed (set_local c [] s)
  unfolding destroy_local under_borrow
  destroy_local-Inert [] s inert = refl
  destroy_local-Inert (x ∷ xs) s (i, inert) = rw (i, destroy_local) (destroy_local-Inert xs s inert)

  destroy-Inert :
      (s : State Q A S R)
      → Inert s.thread_state.local_queue
      → IsDrained c s
      → destroy c s ≡ closed (set_local c [] s)
  unfolding destroy forget_all
  destroy-Inert s inert d =
      let active = s.thread_state.active in
      rw
        (
          destroy_local-Inert s.thread_state.local_queue s inert,
          destroy,
          c.slab.first-none active d,
          c.slab.others-none active d,
        )
        refl

  -- The first loop, when to wake a task and to forget it does nothing.
  wake_tasks-quiet :
      (s : State Q A S R)
      → ((w : W) → c.wakes w ≡ none)
      → ((w : W) → c.forgets w ≡ none)
      → (x : S) × (wake_tasks c 2 s ≡ closed (with_active c x s))
        × ((k : ℕ) → c.slab.get x k ≡ none)
  unfolding wake_tasks perform
  wake_tasks-quiet s quiet forgotten =
      let active = s.thread_state.active in
      let t = drain_active c s in
      elim (Option-cases (c.slab.first active)) [
        | inl e ↦ (c.slab.drained active, rw (e, wake_tasks) refl, c.slab.get-drained active)
        | inr (w, e) ↦ (
          c.slab.drained (c.slab.drained active),
          rw (e, wake_tasks, forget_all-quiet c forgotten (c.slab.others active) t)
              (ap (λ o. wake_tasks c 1 (perform c (scheduling c o t) t)) (quiet w)
                ∙ wake_tasks-drained c 0 t (drain_active-IsDrained c s)),
          c.slab.get-drained (c.slab.drained active),
        )
      ]

  -- The drop of an executor whose active tasks are all scheduled, so that to wake one or to forget
  -- its waker does nothing, whose runnables at most end their task when they are dropped, and those
  -- of the thread-local queue do nothing then, ends with an empty thread-local queue and no active
  -- task, but it takes no more runnables out of the mainstream queue than the thread-local queue had,
  -- and one: the others stay there.
  pub drop_executor-rest :
      (s : State Q A S R)
      → ((w : W) → c.wakes w ≡ none)
      → ((w : W) → c.forgets w ≡ none)
      → ((r : R) → only_ends (c.drops r) ≡ true)
      → Inert s.thread_state.local_queue
      → (t : State Q A S R) × (drop_executor c (suc (length s.thread_state.local_queue)) s
          ≡ closed t)
        × (c.queue.items t.task_queue
            ≡ rest_of (suc (length s.thread_state.local_queue)) (c.queue.items s.task_queue))
        × (t.thread_state.local_queue ≡ [])
        × IsDrained c t
  unfolding drop_executor
  drop_executor-rest s quiet forgotten light inert =
      let xs = s.thread_state.local_queue in
      let (x, w, d) = wake_tasks-quiet s quiet forgotten in
      let u = with_active c x s in
      let (t, e, h, l, k) =
        drain_queues-rest (suc (length xs)) xs u light inert d refl (omega arith) in
      let n = length (c.queue.items s.task_queue) in
      (
        set_local c [] t,
        rw (w, drop_executor, e)
            (destroy-Inert t (subst Inert (sym l) (Inert-rest_of n xs inert)) k),
        h,
        refl,
        k,
      )

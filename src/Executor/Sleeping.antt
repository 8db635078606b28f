-- ===== src/Executor/Sleeping.antt =====
-- How a `tick` future of src/executor.rs that waits can be woken.
use unsend.Executor.Crates.{Crates, pop-none}
use unsend.Base.{
  refl, none, some, [], ◌∷◌, ◌++◌, inl, inr, ℕ, ◌≡◌, ◌≢◌, List, ap, arith, Option-cases, ◌∙◌, sym,
}
use unsend.Executor.Ticker.{push_all, register_mainstream, Racing}
use unsend.Executor.{schedule_there, wake_mainstream, State}
use unsend.Executor.Scheduling.{logged}

module _ {Q A S W R : Type 0} (c : Crates Q A S W R) where
  append-some : (r : R) (xs : List R) → xs ++ r ∷ [] ≢ []
  append-some r [] e = absurd (ground (arith, e))
  append-some r (x ∷ xs) e = absurd (ground (arith, e))

  pub there-none :
      (r : R) (s : State Q A S R)
      → c.queue.push r s.task_queue ≡ none
      → schedule_there c r s ≡ record s { leaked = s.leaked ++ r ∷ [] }
  unfolding schedule_there
  there-none r s f = rw (f, schedule_there) refl

  pub there-some :
      (r : R) (s : State Q A S R) (q : Q)
      → c.queue.push r s.task_queue ≡ some q
      → schedule_there c r s ≡ wake_mainstream c (record s { task_queue = q })
  unfolding schedule_there
  there-some r s q f = rw (f, schedule_there) refl

  -- A push leaves a queue that is not empty, or it fails.
  there-nil :
      (r : R) (s : State Q A S R)
      → c.queue.items (schedule_there c r s).task_queue ≡ []
      → (c.queue.items s.task_queue ≡ [])
        × (c.atomic.holds (schedule_there c r s).mainstream_waker
            ≡ c.atomic.holds s.mainstream_waker)
  unfolding wake_mainstream
  there-nil r s e = elim (Option-cases (c.queue.push r s.task_queue)) [
    | inl f ↦
        let g = there-none r s f in
        (
          ap (λ t. c.queue.items t.task_queue) (sym g) ∙ e,
          ap (λ t. c.atomic.holds t.mainstream_waker) g,
        )
    | inr (q, f) ↦ absurd (
        append-some r (c.queue.items s.task_queue) (
          sym (c.queue.items-push r s.task_queue q f)
          ∙ ap (λ t. c.queue.items t.task_queue) (sym (there-some r s q f))
          ∙ e))
  ]

  push_all-nil :
      (rs : List R) (s : State Q A S R)
      → c.queue.items (push_all c rs s).task_queue ≡ []
      → (c.queue.items s.task_queue ≡ [])
        × (c.atomic.holds (push_all c rs s).mainstream_waker ≡ c.atomic.holds s.mainstream_waker)
  unfolding push_all
  push_all-nil [] s e = (e, refl)
  push_all-nil (r ∷ rs) s e =
      let (g, h) = push_all-nil rs (schedule_there c r (logged c r s)) e in
      let (i, j) = there-nil r (logged c r s) g in (i, h ∙ j)

  -- The mainstream ticker waits only with its waker registered, at an empty queue.
  pub register-nil :
      (v : ℕ) (racing : Racing R) (s : State Q A S R)
      → c.queue.pop (register_mainstream c v racing s).task_queue ≡ none
      → (c.queue.items (register_mainstream c v racing s).task_queue ≡ [])
        × (c.atomic.holds (register_mainstream c v racing s).mainstream_waker ≡ some v)
  unfolding register_mainstream
  register-nil v racing s e =
      let t = push_all c racing.before s in
      let n = pop-none c.queue (register_mainstream c v racing s).task_queue e in
      let (_, h) =
        push_all-nil racing.behind
          (record t { mainstream_waker = c.atomic.register v t.mainstream_waker }) n in
      (n, h ∙ c.atomic.holds-register v t.mainstream_waker)

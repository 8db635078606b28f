-- ===== src/Executor/Trying.antt =====
-- What `Executor::try_tick` of src/executor.rs runs, and when `is_empty` says that there is nothing.
use unsend.Executor.Crates.{Crates, Call, schedules, spawns, ends, pop-some, pop-none}
use unsend.Base.{
  is_nil, ◌&&◌, refl, none, some, [], ◌∷◌, inl, inr, ap, List, ℕ, ◌≡◌, Option, ◌++◌, Option-cases,
  to_list, arith, true, ◌∙◌, append-nil, sym, is_nil, not, ◌≢◌,
}
use unsend.Executor.{
  State, schedule, perform, run_task, try_mainstream, try_local, is_empty, try_tick, schedule_here,
  spawn, wake_mainstream, notify_waker, schedule_there, end_task, set_local,
}
use unsend.Executor.Scheduling.{schedule-routes}

abbrev pub next_of : {X : Type 0} → List X → Option X
next_of [] = none
next_of (x ∷ xs) = some x

module _ {Q A S W R : Type 0} (c : Crates Q A S W R) where
  -- The runnables that wait, in the order in which `try_tick` takes them.
  abbrev pub waiting : State Q A S R → List R
  waiting s = s.thread_state.local_queue ++ c.queue.items s.task_queue

  schedule-ran :
      (current : Option ℕ) (r : R) (s : State Q A S R) → (schedule c current r s).ran ≡ s.ran
  unfolding schedule schedule_here schedule_there notify_waker wake_mainstream
  schedule-ran current r s = elim (Option-cases (c.queue.push r s.task_queue)) [
    | inl e ↦ ground (arith, e)
    | inr (q, e) ↦ ground (arith, e)
  ]

  perform-ran : (cs : List (Call R)) (s : State Q A S R) → (perform c cs s).ran ≡ s.ran
  unfolding perform spawn end_task
  perform-ran [] s = refl
  perform-ran (schedules current x ∷ cs) s =
      perform-ran cs (schedule c current x s) ∙ schedule-ran current x s
  perform-ran (spawns x ∷ cs) s =
      let t = record s {
        thread_state = record s.thread_state {
          active = c.slab.insert (c.waker x) s.thread_state.active;
        };
      } in
      perform-ran cs (spawn c x s) ∙ schedule-ran s.origin_thread x t
  perform-ran (ends index ∷ cs) s = perform-ran cs (end_task c index s)

  run_task-ran : (r : R) (s : State Q A S R) → (run_task c r s).ran ≡ s.ran ++ r ∷ []
  unfolding run_task
  run_task-ran r s = perform-ran (c.runs s.ran r) (record s { ran = s.ran ++ r ∷ [] })

  try_mainstream-runs :
      (s : State Q A S R)
      → ((try_mainstream c s).0 ≡ not (is_nil (c.queue.items s.task_queue)))
        × ((try_mainstream c s).1.ran ≡ s.ran ++ to_list (next_of (c.queue.items s.task_queue)))
  unfolding try_mainstream wake_mainstream
  try_mainstream-runs s = elim (Option-cases (c.queue.pop s.task_queue)) [
    | inl e ↦
        let n = pop-none c.queue s.task_queue e in
        (rw (e, try_mainstream, n) refl, rw (e, try_mainstream, n) (sym (append-nil s.ran)))
    | inr ((r, q), e) ↦
        let n = pop-some c.queue s.task_queue r q e in
        (
          rw (e, try_mainstream, n) refl,
          rw (e, try_mainstream, n)
              (run_task-ran r (wake_mainstream c (record s { task_queue = q }))),
        )
  ]

  try_local-runs :
      (rs : List R) (s : State Q A S R)
      → ((try_local c rs s).0 ≡ not (is_nil (rs ++ c.queue.items s.task_queue)))
        × ((try_local c rs s).1.ran ≡ s.ran ++ to_list (next_of (rs ++ c.queue.items s.task_queue)))
  unfolding try_local notify_waker
  try_local-runs [] s = try_mainstream-runs s
  try_local-runs (r ∷ rs) s = (refl, run_task-ran r (notify_waker c (λ _. none) (set_local c rs s)))

  is_nil-append : (xs ys : List R) → (is_nil xs && is_nil ys) ≡ is_nil (xs ++ ys)
  is_nil-append [] ys = refl
  is_nil-append (x ∷ xs) ys = refl

  is_empty-waiting : (s : State Q A S R) → is_empty c s ≡ is_nil (waiting s)
  unfolding is_empty
  is_empty-waiting s =
      ap (λ b. is_nil s.thread_state.local_queue && b) (c.queue.is_empty_lem s.task_queue)
      ∙ is_nil-append s.thread_state.local_queue (c.queue.items s.task_queue)

  -- `try_tick` runs the first of the runnables that wait, those of the thread-local queue before those
  -- of the mainstream queue, and no other; it returns whether there was one, which is when
  -- `is_empty` is false.
  pub try_tick-is_empty :
      (s : State Q A S R)
      → ((try_tick c s).0 ≡ not (is_empty c s))
        × ((try_tick c s).1.ran ≡ s.ran ++ to_list (next_of (waiting s)))
  unfolding try_tick
  try_tick-is_empty s =
      let (p, q) = try_local-runs s.thread_state.local_queue s in
      (p ∙ ap not (sym (is_empty-waiting s)), q)

  append-none : (xs ys : List R) → is_nil (xs ++ ys) ≡ true → (xs ≡ []) × (ys ≡ [])
  append-none [] [] e = (refl, refl)
  append-none [] (y ∷ ys) e = absurd (ground (arith, e))
  append-none (x ∷ xs) ys e = absurd (ground (arith, e))

  -- The runnables that wait once `r` was scheduled with no ticker waiting and a push that succeeds.
  schedule-waiting :
      (current : Option ℕ) (r : R) (s : State Q A S R)
      → is_empty c s ≡ true
      → s.thread_state.thread_waker.waiters ≡ []
      → c.queue.push r s.task_queue ≢ none
      → waiting (schedule c current r s) ≡ r ∷ []
  schedule-waiting current r s e h p =
      let t = schedule c current r s in
      let (l, m) =
        append-none s.thread_state.local_queue (c.queue.items s.task_queue)
          (sym (is_empty-waiting s) ∙ e) in
      elim (schedule-routes c current r s) [
        | inl (_, inl (w, ws, _, k, _, _, _, _)) ↦ absurd (ground (arith, h, k))
        | inl (_, inr (_, l', _, _, m')) ↦ rw (l', m', l, m) refl
        | inr (_, inl (m', _, _, l')) ↦ rw (l', m', l, m) refl
        | inr (_, inr (k, _, _, _, _)) ↦ absurd (p k)
      ]

  -- A runnable that is scheduled on an empty executor, from whatever thread, while no ticker waits, is
  -- what the next `try_tick` runs, unless the push to the mainstream queue fails.
  pub try_tick-schedule :
      (current : Option ℕ) (r : R) (s : State Q A S R)
      → is_empty c s ≡ true
      → s.thread_state.thread_waker.waiters ≡ []
      → c.queue.push r s.task_queue ≢ none
      → ((try_tick c (schedule c current r s)).0 ≡ true)
        × ((try_tick c (schedule c current r s)).1.ran ≡ s.ran ++ r ∷ [])
  try_tick-schedule current r s e h p =
      let t = schedule c current r s in
      let w = schedule-waiting current r s e h p in
      let (x, y) = try_tick-is_empty t in
      (
        x ∙ ap not (is_empty-waiting t) ∙ ap (λ xs. not (is_nil xs)) w,
        y
            ∙ ap (λ xs. t.ran ++ to_list (next_of xs)) w
            ∙ ap (λ xs. xs ++ r ∷ []) (schedule-ran current r s),
      )

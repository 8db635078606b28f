-- ===== src/Executor/Scheduling.antt =====
-- Where the scheduler function of src/executor.rs puts a runnable.
use unsend.Queue
use unsend.Executor.Crates.{Crates}
use unsend.Base.{
  length, ◌-◌, append-nil, ◌⊎◌, ◌≢◌, refl, none, some, [], ◌∷◌, inl, inr, ap, List, ℕ, ◌≡◌, suc,
  Option, ◌++◌, Bool-cases, Option-cases, to_list, arith, true, false,
}
use unsend.Executor.{
  State, schedule, schedule_here, same_thread, schedule_there, notify_waker, set_local,
  wake_mainstream,
}
use unsend.Queue.{Queue, Notice, Waiter}

one_less : (n : ℕ) → 1 - suc n ≡ 0
one_less n = omega arith

module _ {T : Type 0} where
  -- The first listener that waits is notified, as no listener is notified yet.
  abbrev pub Reaches : (ℕ → T) → Queue T → Type 0
  Reaches f q =
      (w : Waiter) × (ws : List Waiter) × (q.notices ≡ [])
      × (q.waiters ≡ w ∷ ws)
      × (Queue.notify 1 false f q
          ≡ record { notices = record { id = w.id; tag = f 0; extra = false } ∷ []; waiters = ws })
      × (Queue.notify_wakes 1 false q ≡ to_list w.waker)
      × (Queue.delivered (Queue.quota 1 false q) q.waiters ≡ 1)

  -- No listener is notified, as one is already or none waits.
  abbrev pub Misses : (ℕ → T) → Queue T → Type 0
  Misses f q =
      ((q.notices ≢ []) ⊎ (q.waiters ≡ []))
      × (Queue.notify 1 false f q ≡ q)
      × (Queue.notify_wakes 1 false q ≡ [])
      × (Queue.delivered (Queue.quota 1 false q) q.waiters ≡ 0)

  notify_lists :
      (f : ℕ → T) (ns : List (Notice T)) (ws : List Waiter)
      → Reaches f (record { notices = ns; waiters = ws })
        ⊎ Misses f (record { notices = ns; waiters = ws })
  unfolding Queue.notify Queue.notify_wakes Queue.deliver Queue.quota Queue.delivered Queue.wakers
  notify_lists f [] [] = inr (inr refl, refl, refl, refl)
  notify_lists f [] (w ∷ ws) = inl (w, ws, refl, refl, refl, append-nil (to_list w.waker), refl)
  notify_lists f (n ∷ ns) ws =
      let z = one_less (length ns) in
      inr (
        inl (ground arith),
        rw z (ap (λ ns'. record { notices = ns'; waiters = ws }) (append-nil (n ∷ ns))),
        rw z refl,
        rw z refl,
      )

  pub notify_one-cases : (f : ℕ → T) (q : Queue T) → Reaches f q ⊎ Misses f q
  notify_one-cases f q = notify_lists f q.notices q.waiters

module _ {Q A S W R : Type 0} (c : Crates Q A S W R) where
  -- The state with `r` handed to the scheduler function.
  abbrev pub logged : R → State Q A S R → State Q A S R
  logged r s = record s { scheduled = s.scheduled ++ r ∷ [] }

  pub schedule-here :
      (current : Option ℕ) (r : R) (s : State Q A S R)
      → same_thread s.origin_thread current ≡ true
      → schedule c current r s ≡ schedule_here c r (logged r s)
  unfolding schedule
  schedule-here current r s e = rw (e, schedule) refl

  pub schedule-there :
      (current : Option ℕ) (r : R) (s : State Q A S R)
      → same_thread s.origin_thread current ≡ false
      → schedule c current r s ≡ schedule_there c r (logged r s)
  unfolding schedule
  schedule-there current r s e = rw (e, schedule) refl

  pub schedule_here-queued :
      (r : R) (s : State Q A S R)
      → Queue.delivered
          (Queue.quota 1 false s.thread_state.thread_waker)
          s.thread_state.thread_waker.waiters
        ≡ 0
      → schedule_here c r s
        ≡ set_local c (s.thread_state.local_queue ++ r ∷ []) (notify_waker c (Queue.take_item r) s)
  unfolding schedule_here notify_waker
  schedule_here-queued r s e = rw (e, schedule_here) refl

  pub same_thread_refl : (thread : ℕ) → same_thread (some thread) (some thread) ≡ true
  same_thread_refl thread = ground arith

  -- What the scheduler function does with `r`, from the state `s` to the state `t`: it goes to the
  -- ticker that waits longest, into the thread-local queue, into the mainstream queue, or nowhere.
  abbrev pub ToTicker : R → State Q A S R → State Q A S R → Type 0
  ToTicker r s t =
      (w : Waiter) × (ws : List Waiter) × (s.thread_state.thread_waker.notices ≡ [])
      × (s.thread_state.thread_waker.waiters ≡ w ∷ ws)
      × (Queue.poll_result w.id t.thread_state.thread_waker ≡ some (some r))
      × (t.woken ≡ s.woken ++ to_list w.waker)
      × (t.thread_state.local_queue ≡ s.thread_state.local_queue)
      × (t.task_queue ≡ s.task_queue)

  abbrev pub ToLocal : R → State Q A S R → State Q A S R → Type 0
  ToLocal r s t =
      ((s.thread_state.thread_waker.notices ≢ []) ⊎ (s.thread_state.thread_waker.waiters ≡ []))
      × (t.thread_state.local_queue ≡ s.thread_state.local_queue ++ r ∷ [])
      × (t.thread_state.thread_waker ≡ s.thread_state.thread_waker)
      × (t.woken ≡ s.woken)
      × (t.task_queue ≡ s.task_queue)

  abbrev pub ToMainstream : R → State Q A S R → State Q A S R → Type 0
  ToMainstream r s t =
      (c.queue.items t.task_queue ≡ c.queue.items s.task_queue ++ r ∷ [])
      × (t.woken ≡ s.woken ++ to_list (c.atomic.holds s.mainstream_waker))
      × (c.atomic.holds t.mainstream_waker ≡ none)
      × (t.thread_state ≡ s.thread_state)

  abbrev pub ToNowhere : R → State Q A S R → State Q A S R → Type 0
  ToNowhere r s t =
      (c.queue.push r s.task_queue ≡ none)
      × (t.leaked ≡ s.leaked ++ r ∷ [])
      × (t.woken ≡ s.woken)
      × (t.task_queue ≡ s.task_queue)
      × (t.thread_state ≡ s.thread_state)

  here-routes :
      (r : R) (s : State Q A S R)
      → ToTicker r s (schedule_here c r s) ⊎ ToLocal r s (schedule_here c r s)
  unfolding schedule_here notify_waker Queue.poll_result
  here-routes r s = elim (notify_one-cases (Queue.take_item r) s.thread_state.thread_waker) [
    | inl (w, ws, n, h, q, k, d) ↦ inl (
      w,
      ws,
      n,
      h,
      rw (d, schedule_here, q) (ground arith),
      rw (d, schedule_here, k) refl,
      rw (d, schedule_here) refl,
      rw (d, schedule_here) refl,
    )
    | inr (b, q, k, d) ↦ inr (
      b,
      rw (d, schedule_here) refl,
      rw (d, schedule_here) q,
      rw (d, schedule_here, k) (append-nil s.woken),
      rw (d, schedule_here) refl,
    )
  ]

  there-routes :
      (r : R) (s : State Q A S R)
      → ToMainstream r s (schedule_there c r s) ⊎ ToNowhere r s (schedule_there c r s)
  unfolding schedule_there wake_mainstream
  there-routes r s = elim (Option-cases (c.queue.push r s.task_queue)) [
    | inl e ↦ inr (
      e,
      rw (e, schedule_there) refl,
      rw (e, schedule_there) refl,
      rw (e, schedule_there) refl,
      rw (e, schedule_there) refl,
    )
    | inr (q, e) ↦ inl (
      rw (e, schedule_there) (c.queue.items-push r s.task_queue q e),
      rw (e, schedule_there) refl,
      rw (e, schedule_there) (c.atomic.holds-cleared s.mainstream_waker),
      rw (e, schedule_there) refl,
    )
  ]

  -- On the thread of the executor, the scheduler function notifies the ticker that waits longest with
  -- the runnable and wakes it, if no ticker is notified already and one waits; if a ticker is notified
  -- already or none waits, it puts the runnable at the back of the thread-local queue and wakes
  -- nobody. On any other thread, and when the thread is not known, it puts it at the back of the
  -- mainstream queue and calls and clears the waker of the mainstream, or leaks it if the push fails.
  pub schedule-routes :
      (current : Option ℕ) (r : R) (s : State Q A S R)
      → let t = schedule c current r s in
        ((same_thread s.origin_thread current ≡ true) × (ToTicker r s t ⊎ ToLocal r s t))
        ⊎ ((same_thread s.origin_thread current ≡ false) × (ToMainstream r s t ⊎ ToNowhere r s t))
  unfolding schedule
  schedule-routes current r s = elim (Bool-cases (same_thread s.origin_thread current)) [
    | inl e ↦ inl (e, rw (e, schedule) (here-routes r (logged r s)))
    | inr e ↦ inr (e, rw (e, schedule) (there-routes r (logged r s)))
  ]

-- ===== src/Executor/Alone.antt =====
-- The ticks of a ticker of src/executor.rs that is alone, with tasks that at most end as they run.
use unsend.Queue
use unsend.Executor.Crates.{Crates, only_ends}
use unsend.Queue.Alone.{only, poll-empty, poll-only, drop-only}
use unsend.Base.{
  refl, none, [], ◌∷◌, ◌++◌, ap, List, ℕ, ◌≡◌, suc, Option, ◌∙◌, true, false, Bool, if◌then◌else◌,
  length, ◌+◌,
}
use unsend.Executor.Ticker.{
  ticked, tick_pending, tick_start, tick, tick_turn, tick_local, drop_tick_listener, Racing,
  run_direct, poll_tick_listener, poll_mainstream, acquire_mainstream, register_mainstream,
  push_all,
}
use unsend.Queue.{Queue}
use unsend.Executor.{State, run_task, notify_waker, set_local}
use unsend.Executor.Slots.{with_active, perform-ends}

module _ {Q A S W R : Type 0} (c : Crates Q A S W R)
    (idle : (xs : List R) (r : R) → only_ends (c.runs xs r) ≡ true) where
  -- The runnables that wait in the two queues and those that ran, with no ticker in the event.
  unfoldable pub Stands : List R → List R → List R → State Q A S R → Type 0
  Stands xs ys zs s =
      (s.thread_state.local_queue ≡ xs)
      × (c.queue.items s.task_queue ≡ ys)
      × (s.ran ≡ zs)
      × (s.thread_state.thread_waker ≡ Queue.empty)

  run_idle :
      (r : R) (s : State Q A S R)
      → (x : S) × (run_task c r s ≡ with_active c x (record s { ran = s.ran ++ r ∷ [] }))
  unfolding run_task
  run_idle r s =
      let t = record s { ran = s.ran ++ r ∷ [] } in
      let (x, e, _) =
        perform-ends c (λ x. Unit {0}) (λ i x h. h) (c.runs s.ran r) t (idle s.ran r) tt in
      (x, e)

  -- A tick that takes a runnable of the thread-local queue.
  pub tick-local :
      (r : R) (xs ys zs : List R) (a v : ℕ) (racing : Racing R) (m : Bool) (s : State Q A S R)
      → Stands (r ∷ xs) ys zs s
      → (t : State Q A S R) × (tick c a v racing tick_start m s ≡ (ticked, m, t))
        × Stands xs ys (zs ++ r ∷ []) t
        × (t.thread_state.is_mainstream_listening ≡ s.thread_state.is_mainstream_listening)
  unfolding Stands tick tick_turn tick_local drop_tick_listener notify_waker Queue.notify
      Queue.deliver Queue.quota Queue.drop
  tick-local r xs ys zs a v racing m s (h, i, k, w) =
      let u = notify_waker c (λ _. none) (set_local c xs s) in
      let (_, g) = run_idle r u in
      (
        drop_tick_listener c a (run_task c r u),
        rw (h, tick, tick_turn) refl,
        rw g (
          refl,
          i,
          ap (λ z. z ++ r ∷ []) k,
          ap (λ q. Queue.drop a (Queue.notify 1 false (λ _. none) q)) w,
        ),
        rw g refl,
      )

  -- What the mainstream ticker does with a runnable in hand, when its listener waits alone.
  direct-only :
      (a v : ℕ) (r : R) (s : State Q A S R)
      → s.thread_state.thread_waker ≡ only a v
      → let t = run_direct c a v r s in
        (t.thread_state.local_queue ≡ s.thread_state.local_queue)
        × (t.task_queue ≡ s.task_queue)
        × (t.ran ≡ s.ran ++ r ∷ [])
        × (t.thread_state.thread_waker ≡ Queue.empty)
        × (t.thread_state.is_mainstream_listening ≡ s.thread_state.is_mainstream_listening)
  unfolding run_direct poll_tick_listener drop_tick_listener Queue.poll_result
  direct-only a v r s w =
      let t = run_task c r s in
      let (_, g) = run_idle r s in
      let e : Queue.poll_result a t.thread_state.thread_waker ≡ none =
        ap (λ u. Queue.poll_result a u.thread_state.thread_waker) g ∙ ap (Queue.poll_result a) w in
      rw (e, run_direct, g)
        (
          refl,
          refl,
          refl,
          ap (λ q. Queue.drop a (Queue.poll a v q)) w
              ∙ ap (Queue.drop a) (poll-only a v v)
              ∙ drop-only a v,
          refl,
        )

  -- No thread pushes meanwhile.
  abbrev pub nobody : Racing R
  nobody = record { before = []; behind = [] }

  poll_result-empty :
      (a : ℕ) (q : Queue (Option R)) → q ≡ Queue.empty → Queue.poll_result a q ≡ none
  unfolding Queue.poll_result
  poll_result-empty a q w = ap (Queue.poll_result a) w

  wait-mainstream :
      (n a v : ℕ) (s : State Q A S R)
      → Queue.poll_result a s.thread_state.thread_waker ≡ none
      → let (p, u) = poll_mainstream c a v nobody (poll_tick_listener c a v s) in
        tick_turn c false (suc n) a v nobody true s ≡ (p, true, u)
  unfolding tick_turn
  wait-mainstream n a v s e = rw (e, tick_turn) refl

  -- A tick at an empty thread-local queue polls the listener and then the mainstream queue, if the
  -- ticker is on the mainstream or takes it.
  tick-mainstream :
      (ys zs : List R) (a v : ℕ) (m : Bool) (s : State Q A S R)
      → Stands [] ys zs s
      → (if s.thread_state.is_mainstream_listening then m else true) ≡ true
      → let (p, u) =
          poll_mainstream c a v nobody (poll_tick_listener c a v (acquire_mainstream c s)) in
        tick c a v nobody tick_start m s ≡ (p, true, u)
  unfolding Stands tick tick_turn tick_local
  tick-mainstream ys zs a v m s (h, i, k, w) f =
      let n = length s.thread_state.thread_waker.notices in
      let m' = if s.thread_state.is_mainstream_listening then m else true in
      let t = acquire_mainstream c s in
      ap (λ xs. tick_local c xs a m s (tick_turn c false (suc (n + n)) a v nobody m' t)) h
      ∙ ap (λ b. tick_turn c false (suc (n + n)) a v nobody b t) f
      ∙ wait-mainstream (n + n) a v t (poll_result-empty a s.thread_state.thread_waker w)

  -- A tick that takes a runnable of the mainstream queue.
  pub tick-pop :
      (r : R) (ys zs : List R) (a v : ℕ) (m : Bool) (s : State Q A S R)
      → Stands [] (r ∷ ys) zs s
      → (if s.thread_state.is_mainstream_listening then m else true) ≡ true
      → (t : State Q A S R) × (tick c a v nobody tick_start m s ≡ (ticked, true, t))
        × Stands [] ys (zs ++ r ∷ []) t
  unfolding Stands poll_mainstream poll_tick_listener
  tick-pop r ys zs a v m s (h, i, k, w) f =
      let (q, e, n) = c.queue.pop-cons r ys s.task_queue i in
      let u = record (poll_tick_listener c a v (acquire_mainstream c s)) { task_queue = q } in
      let (x, y, z, o, _) = direct-only a v r u (ap (Queue.poll a v) w ∙ poll-empty a v) in
      (
        run_direct c a v r u,
        tick-mainstream (r ∷ ys) zs a v m s (h, i, k, w) f ∙ rw (e, poll_mainstream) refl,
        (x ∙ h, ap c.queue.items y ∙ n, z ∙ ap (λ z'. z' ++ r ∷ []) k, o),
      )

  mainstream-nil :
      (a v : ℕ) (s : State Q A S R)
      → c.queue.pop s.task_queue ≡ none
      → c.queue.pop (register_mainstream c v nobody s).task_queue ≡ none
      → poll_mainstream c a v nobody s ≡ (tick_pending, register_mainstream c v nobody s)
  unfolding poll_mainstream
  mainstream-nil a v s e f = rw (e, poll_mainstream) (rw (f, poll_mainstream) refl)

  -- A tick with nothing to run.
  pub tick-idle :
      (zs : List R) (a v : ℕ) (m : Bool) (s : State Q A S R)
      → Stands [] [] zs s
      → (if s.thread_state.is_mainstream_listening then m else true) ≡ true
      → (t : State Q A S R) × (tick c a v nobody tick_start m s ≡ (tick_pending, true, t))
        × (t.ran ≡ zs)
  unfolding Stands poll_tick_listener register_mainstream push_all
  tick-idle zs a v m s (h, i, k, w) f =
      let t = poll_tick_listener c a v (acquire_mainstream c s) in
      let e = c.queue.pop-nil s.task_queue i in
      (
        register_mainstream c v nobody t,
        tick-mainstream [] zs a v m s (h, i, k, w) f
            ∙ ap (λ x. (x.0, true, x.1)) (mainstream-nil a v t e e),
        k,
      )

-- ===== src/Executor/Ticking.antt =====
-- The ticks of src/executor.rs and the account of the runnables.
use unsend.Queue
use unsend.Executor.Crates.{Crates, pop-some}
use unsend.Base.{
  none, some, [], Bool, ◌≡◌, ℕ, List, arith, Option, ◌∷◌, to_list, Option-cases, ◌++◌, inl, inr, ap,
}
use unsend.Executor.{State, run_task, schedule_there, set_local}
use unsend.Executor.Ticker.{
  run_direct, push_all, drop_tick_listener, poll_tick_listener, register_mainstream,
  poll_mainstream, Racing,
}
use unsend.Executor.Accounts.{InHand, run_task-InHand, places, schedule_there-InHand}
use unsend.Queue.Flying.{hits, flying-drop, flying-poll-none, hits-append, flying-poll-some}
use unsend.Queue.Occurs.{one_if}

module _ {Q A S W R : Type 0} (c : Crates Q A S W R) (p : R → Bool) where
  -- Every runnable that was scheduled ran, is in a queue, is on its way, or is lost or leaked.
  abbrev pub Accounted : State Q A S R → Type 0
  Accounted s = places c p s ≡ hits p s.scheduled

  pub of_InHand : (s : State Q A S R) → InHand c p 0 s → Accounted s
  of_InHand s h = omega arith

  pub to_InHand : (s : State Q A S R) → Accounted s → InHand c p 0 s
  to_InHand s h = omega arith

  pub drop_listener-Accounted :
      (a : ℕ) (s : State Q A S R) → Accounted s → Accounted (drop_tick_listener c a s)
  unfolding places drop_tick_listener
  drop_listener-Accounted a s h = omega (
    arith,
    flying-drop p a s.thread_state.thread_waker,
    hits-append p s.lost (Queue.lost_by a s.thread_state.thread_waker),
  )

  pub poll_listener-none :
      (a v : ℕ) (s : State Q A S R)
      → Queue.poll_result a s.thread_state.thread_waker ≡ none
      → Accounted s
      → Accounted (poll_tick_listener c a v s)
  unfolding places poll_tick_listener
  poll_listener-none a v s e h = omega (arith, flying-poll-none p a v s.thread_state.thread_waker e)

  pub poll_listener-some :
      (a v : ℕ) (s : State Q A S R) (m : Option R)
      → Queue.poll_result a s.thread_state.thread_waker ≡ some m
      → Accounted s
      → InHand c p (hits p (to_list m)) (poll_tick_listener c a v s)
  unfolding places poll_tick_listener
  poll_listener-some a v s m e h =
      omega (arith, flying-poll-some p a v s.thread_state.thread_waker m e)

  pub run_one :
      (r : R) (s : State Q A S R) → InHand c p (one_if (p r)) s → Accounted (run_task c r s)
  run_one r s h = of_InHand (run_task c r s) (run_task-InHand c p 0 r s (omega arith))

  pub InHand-list :
      (r : R) (s : State Q A S R) → InHand c p (hits p (r ∷ [])) s → InHand c p (one_if (p r)) s
  InHand-list r s h = omega arith

  pub run_direct-Accounted :
      (a v : ℕ) (r : R) (s : State Q A S R)
      → InHand c p (one_if (p r)) s
      → Accounted (run_direct c a v r s)
  unfolding run_direct
  run_direct-Accounted a v r s h =
      let t = run_task c r s in
      let g = run_one r s h in
      elim (Option-cases (Queue.poll_result a t.thread_state.thread_waker)) [
        | inl e ↦
            rw e (
              drop_listener-Accounted a (poll_tick_listener c a v t) (poll_listener-none a v t e g))
        | inr (none, e) ↦ rw e (
            drop_listener-Accounted a (poll_tick_listener c a v t)
              (of_InHand (poll_tick_listener c a v t) (poll_listener-some a v t none e g)))
        | inr (some r', e) ↦ rw e (
            drop_listener-Accounted a (run_task c r' (poll_tick_listener c a v t)) (
              run_one r' (poll_tick_listener c a v t) (
                InHand-list r' (poll_tick_listener c a v t)
                  (poll_listener-some a v t (some r') e g))))
      ]

  push_all-Accounted : (rs : List R) (s : State Q A S R) → Accounted s → Accounted (push_all c rs s)
  unfolding push_all places
  push_all-Accounted [] s h = h
  push_all-Accounted (r ∷ rs) s h =
      push_all-Accounted rs (schedule_there c r (record s { scheduled = s.scheduled ++ r ∷ [] })) (
        of_InHand (schedule_there c r (record s { scheduled = s.scheduled ++ r ∷ [] })) (
          schedule_there-InHand c p 0 r (record s { scheduled = s.scheduled ++ r ∷ [] })
            (omega (arith, hits-append p s.scheduled (r ∷ [])))))

  pub pop-InHand :
      (s : State Q A S R) (r : R) (q : Q)
      → c.queue.pop s.task_queue ≡ some (r, q)
      → Accounted s
      → InHand c p (one_if (p r)) (record s { task_queue = q })
  unfolding places
  pop-InHand s r q e h = omega (arith, ap (hits p) (pop-some c.queue s.task_queue r q e))

  register-Accounted :
      (v : ℕ) (racing : Racing R) (s : State Q A S R)
      → Accounted s
      → Accounted (register_mainstream c v racing s)
  unfolding register_mainstream places
  register-Accounted v racing s h =
      let t = push_all c racing.before s in
      push_all-Accounted racing.behind
        (record t { mainstream_waker = c.atomic.register v t.mainstream_waker })
        (push_all-Accounted racing.before s h)

  pub poll_mainstream-Accounted :
      (a v : ℕ) (racing : Racing R) (s : State Q A S R)
      → Accounted s
      → Accounted (poll_mainstream c a v racing s).1
  unfolding poll_mainstream places
  poll_mainstream-Accounted a v racing s h = elim (Option-cases (c.queue.pop s.task_queue)) [
    | inl e ↦
        let t = register_mainstream c v racing s in
        let g = register-Accounted v racing s h in
        elim (Option-cases (c.queue.pop t.task_queue)) [
          | inl f ↦ rw (e, poll_mainstream) (rw (f, poll_mainstream) g)
          | inr ((r, q), f) ↦
              rw (e, poll_mainstream)
                (rw (f, poll_mainstream)
                  (run_direct-Accounted a v r
                    (record t {
                      task_queue = q;
                      mainstream_waker = c.atomic.cleared t.mainstream_waker;
                    })
                    (pop-InHand t r q f g)))
        ]
    | inr ((r, q), e) ↦
        rw (e, poll_mainstream)
          (run_direct-Accounted a v r (record s { task_queue = q }) (pop-InHand s r q e h))
  ]

  pub local-InHand :
      (s : State Q A S R) (r : R) (rs : List R)
      → s.thread_state.local_queue ≡ r ∷ rs
      → Accounted s
      → InHand c p (one_if (p r)) (set_local c rs s)
  unfolding places
  local-InHand s r rs e h = omega (arith, ap (hits p) e)

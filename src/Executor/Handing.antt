-- ===== src/Executor/Handing.antt =====
-- How a ticker of src/executor.rs that is dropped hands the mainstream on.
use unsend.Queue
use unsend.Executor.Losing.{poll_result-first}
use unsend.Queue.Polled.{poll-some}
use unsend.Executor.Crates.{Crates}
use unsend.Base.{
  append-nil, List-cases, refl, none, some, [], ◌∷◌, inl, inr, ap, List, ℕ, ◌≡◌, suc, ◌++◌, to_list,
  arith, true, false, ◌∙◌, Bool, length, ◌+◌, is_nil, sym, if◌then◌else◌,
}
use unsend.Executor.Ticker.{
  tick_await, tick_turn, tick, drop_ticker, Racing, tick_local, poll_tick_listener,
  acquire_mainstream,
}
use unsend.Executor.{notify_waker, State}
use unsend.Queue.{Waiter, Queue}

module _ {T : Type 0} where
  unnoticed-result : (a : ℕ) (q : Queue T) → length q.notices ≡ 0 → Queue.poll_result a q ≡ none
  unfolding Queue.poll_result
  unnoticed-result a q e = elim (List-cases q.notices) [
    | inl f ↦ rw (f, Queue.poll_result) refl
    | inr (x, xs, f) ↦ absurd (omega (arith, e, ap length f))
  ]

  -- A notification for one listener goes to the first that waits.
  notify-first :
      (f : ℕ → T) (w : Waiter) (ws : List Waiter) (q : Queue T)
      → q.notices ≡ []
      → q.waiters ≡ w ∷ ws
      → (Queue.notify 1 false f q
          ≡ record { notices = record { id = w.id; tag = f 0; extra = false } ∷ []; waiters = ws })
        × (Queue.notify_wakes 1 false q ≡ to_list w.waker)
  unfolding Queue.notify Queue.deliver Queue.quota Queue.notify_wakes Queue.wakers
  notify-first f w ws q e g =
      let h : q ≡ record { notices = []; waiters = w ∷ ws } =
        ap (λ ns. record { notices = ns; waiters = q.waiters }) e
        ∙ ap (λ vs. record { notices = []; waiters = vs }) g in
      (
        ap (Queue.notify 1 false f) h,
        ap (Queue.notify_wakes 1 false) h ∙ append-nil (to_list w.waker),
      )

module _ {Q A S W R : Type 0} (c : Crates Q A S W R) where
  -- The turns of the loop of `tick` from a notification with no runnable.
  turn-notified :
      (n a v : ℕ) (racing : Racing R) (m : Bool) (s : State Q A S R)
      → Queue.poll_result a s.thread_state.thread_waker ≡ some none
      → tick_turn c false (suc n) a v racing m s
        ≡ tick_turn c true n a v racing m (poll_tick_listener c a v s)
  unfolding tick_turn
  turn-notified n a v racing m s e = rw (e, tick_turn) refl

  turn-takes :
      (n a v : ℕ) (racing : Racing R) (m : Bool) (s : State Q A S R)
      → s.thread_state.local_queue ≡ []
      → s.thread_state.is_mainstream_listening ≡ false
      → tick_turn c true (suc n) a v racing m s
        ≡ tick_turn c false n a v racing true (acquire_mainstream c s)
  unfolding tick_turn tick_local
  turn-takes n a v racing m s h f =
      let m' = if s.thread_state.is_mainstream_listening then m else true in
      let t = acquire_mainstream c s in
      ap (λ xs. tick_local c xs a m s (tick_turn c false n a v racing m' t)) h
      ∙ ap (λ b. tick_turn c false n a v racing (if b then m else true) t) f

  turn-runs :
      (n a v : ℕ) (racing : Racing R) (m : Bool) (r : R) (rs : List R) (s : State Q A S R)
      → s.thread_state.local_queue ≡ r ∷ rs
      → (tick_turn c true (suc n) a v racing m s).1 ≡ m
  unfolding tick_turn tick_local
  turn-runs n a v racing m r rs s h =
      let m' = if s.thread_state.is_mainstream_listening then m else true in
      let t = acquire_mainstream c s in
      ap (λ xs. (tick_local c xs a m s (tick_turn c false n a v racing m' t)).1) h

  turn-leads :
      (n a v : ℕ) (racing : Racing R) (s : State Q A S R)
      → Queue.poll_result a s.thread_state.thread_waker ≡ none
      → (tick_turn c false (suc n) a v racing true s).1 ≡ true
  unfolding tick_turn
  turn-leads n a v racing s e = rw (e, tick_turn) refl

  -- A ticker at the top of its loop, with nobody on the mainstream, takes it unless it finds a runnable.
  top-takes :
      (n a v : ℕ) (racing : Racing R) (s : State Q A S R)
      → s.thread_state.is_mainstream_listening ≡ false
      → Queue.poll_result a s.thread_state.thread_waker ≡ none
      → (tick_turn c true (suc (suc n)) a v racing false s).1 ≡ is_nil s.thread_state.local_queue
  top-takes n a v racing s f e = elim (List-cases s.thread_state.local_queue) [
    | inl h ↦
        ap (λ y. y.1) (turn-takes (suc n) a v racing false s h f)
        ∙ turn-leads n a v racing (acquire_mainstream c s) e
        ∙ sym (ap is_nil h)
    | inr (r, rs, h) ↦ turn-runs (suc n) a v racing false r rs s h ∙ sym (ap is_nil h)
  ]

  -- A ticker that is notified with no runnable, alone, takes a mainstream that nobody has unless it
  -- finds a runnable.
  tick-takes :
      (w : Waiter) (ws : List Waiter) (v : ℕ) (racing : Racing R) (s : State Q A S R)
      → s.thread_state.thread_waker
        ≡ record { notices = record { id = w.id; tag = none; extra = false } ∷ []; waiters = ws }
      → s.thread_state.is_mainstream_listening ≡ false
      → (tick c w.id v racing tick_await false s).1 ≡ is_nil s.thread_state.local_queue
  unfolding tick poll_tick_listener
  tick-takes w ws v racing s q f =
      let a = w.id in
      let x = s.thread_state.thread_waker in
      let e : Queue.poll_result a x ≡ some none =
        ap (Queue.poll_result a) q ∙ poll_result-first a none ws in
      let n : suc (suc (length x.notices + length x.notices)) ≡ 4 =
        ap (λ y. suc (suc (length y.notices + length y.notices))) q in
      let t = poll_tick_listener c a v s in
      let (p, l, _) = poll-some a v x none e in
      ap (λ k. (tick_turn c false k a v racing false s).1) n
      ∙ ap (λ y. y.1) (turn-notified 3 a v racing false s e)
      ∙ top-takes 1 a v racing t f (
          unnoticed-result a (Queue.poll a v x)
            (omega (arith, l, ap (λ y. length y.notices) p, ap (λ y. length y.notices) q)))

  -- When the ticker on the mainstream is dropped while no ticker is notified, the ticker that waits
  -- longest is woken, whatever is in the thread-local queue, and its next poll is on the mainstream
  -- exactly when the thread-local queue is empty.
  pub drop_ticker-hands_over :
      (w : Waiter) (ws : List Waiter) (v : ℕ) (racing : Racing R) (s : State Q A S R)
      → s.thread_state.thread_waker.notices ≡ []
      → s.thread_state.thread_waker.waiters ≡ w ∷ ws
      → let t = drop_ticker c true s in
        (t.woken ≡ s.woken ++ to_list w.waker)
        × ((tick c w.id v racing tick_await false t).1 ≡ is_nil s.thread_state.local_queue)
  unfolding drop_ticker notify_waker
  drop_ticker-hands_over w ws v racing s e f =
      let (q, k) = notify-first (λ _. none) w ws s.thread_state.thread_waker e f in
      (ap (λ xs. s.woken ++ xs) k, tick-takes w ws v racing (drop_ticker c true s) q refl)

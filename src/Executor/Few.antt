-- ===== src/Executor/Few.antt =====
-- How many tickers of src/executor.rs are notified at a time.
use unsend.Queue
use unsend.Executor.Sole.{flag}
use unsend.Queue.Polled.{length-erase_notice, notices-listen, poll-none, poll-some}
use unsend.Queue.Split.{drop-none, drop-some}
use unsend.Queue.Counts.{topped_up, notify_counts}
use unsend.Executor.Crates.{Crates}
use unsend.Base.{
  refl, inl, inr, ℕ, Option, true, false, ◌≡◌, Bool, ap, arith, length, ◌≤◌, Option-cases,
  if◌then◌else◌,
}
use unsend.Executor.Use.{
  Driven, creates, wakes_task, spawns_task, tries_tick, makes_ticker, begins_tick, polls_tick,
  drops_tick, drops_ticker, tick_step, drop_tick_step, drop_ticker_step, ExecSystem,
}
use unsend.Queue.{Queue}
use unsend.Executor.{State, with_thread_id, schedule, spawn, try_tick}
use unsend.Executor.Walk.{Keeps, schedule-Keeps, spawn-Keeps, try_tick-Keeps}
use unsend.Executor.Ticker.{TickPoll, tick, drop_tick, drop_ticker}
use unsend.Executor.Turns.{Kept, Turned, tick-Turned, drop_tick-Kept, drop_ticker-Kept}

module _ {R : Type 0} where
  abbrev pub Few : Queue (Option R) → Type 0
  Few q = length q.notices ≤ 1

  few_notify : (f : ℕ → Option R) (q : Queue (Option R)) → Few q → Few (Queue.notify 1 false f q)
  unfolding topped_up
  few_notify f q h = omega (arith, h, notify_counts 1 false f q)

  few_poll : (a v : ℕ) (q : Queue (Option R)) → Few q → Few (Queue.poll a v q)
  few_poll a v q h = elim (Option-cases (Queue.poll_result a q)) [
    | inl e ↦
        omega
          (arith, h, ap (λ x. length x.notices) (poll-none a v q e), ap length (notices-listen a q))
    | inr (t, e) ↦
        let (p, n, _) = poll-some a v q t e in omega (arith, h, n, ap (λ x. length x.notices) p)
  ]

  few_next :
      (extra : Bool) (f : ℕ → Option R) (q : Queue (Option R))
      → length q.notices ≡ 0
      → Few (Queue.notify 1 extra f q)
  unfolding topped_up
  few_next true f q h = omega (arith, h, notify_counts 1 true f q)
  few_next false f q h = omega (arith, h, notify_counts 1 false f q)

  few_drop : (a : ℕ) (q : Queue (Option R)) → Few q → Few (Queue.drop a q)
  few_drop a q h = elim (Option-cases (Queue.find_notice a q.notices)) [
    | inl e ↦ rw (drop-none a q e) h
    | inr (x, e) ↦
        let q' = Queue.without_notice a q in
        rw (drop-some a q x e)
          (few_next x.extra (λ _. x.tag) q' (omega (arith, h, length-erase_notice a q.notices x e)))
  ]

module _ {Q A S W R : Type 0} (c : Crates Q A S W R) where
  abbrev FewKept : Bool → State Q A S R → Type 0
  FewKept l s = Kept c Few few_notify few_poll few_drop l s

  few_kept : (s : State Q A S R) → Few s.thread_state.thread_waker → FewKept (flag s) s
  unfolding Keeps
  few_kept s h = (h, refl)

  kept_few : (l : Bool) (s : State Q A S R) → FewKept l s → Few s.thread_state.thread_waker
  unfolding Keeps
  kept_few l s h = h.0

  turned_few :
      (l m : Bool) (p : TickPoll × Bool × State Q A S R)
      → Turned c Few few_notify few_poll few_drop l m p
      → Few p.2.thread_state.thread_waker
  turned_few l m p (inl (h, e)) = kept_few l p.2 h
  turned_few l m p (inr (e, h, f)) = kept_few true p.2 h

  -- However an executor is used, at most one of the tickers that wait is notified at any time.
  pub Driven-Few : (s : ExecSystem Q A S R) → Driven c s → Few s.state.thread_state.thread_waker
  unfolding with_thread_id tick_step drop_tick_step drop_ticker_step
  Driven-Few _ (creates origin) = omega arith
  Driven-Few _ (wakes_task s current r d) = kept_few (flag s.state) (schedule c current r s.state) (
      schedule-Keeps c Few (flag s.state) few_notify current r s.state
        (few_kept s.state (Driven-Few s d)))
  Driven-Few _ (spawns_task s r d) =
      kept_few (flag s.state) (spawn c r s.state)
        (spawn-Keeps c Few (flag s.state) few_notify r s.state (few_kept s.state (Driven-Few s d)))
  Driven-Few _ (tries_tick s d) =
      kept_few (flag s.state) (try_tick c s.state).1
        (try_tick-Keeps c Few (flag s.state) few_notify s.state (few_kept s.state (Driven-Few s d)))
  Driven-Few _ (makes_ticker s a l d) = Driven-Few s d
  Driven-Few _ (begins_tick s a l f d) = Driven-Few s d
  Driven-Few _ (polls_tick s a v racing l f d) =
      turned_few (flag s.state) (s.tickers a).is_mainstream
        (tick c a v racing (s.tickers a).future (s.tickers a).is_mainstream s.state)
        (tick-Turned c Few few_notify few_poll few_drop (flag s.state) a v racing
          (s.tickers a).future (s.tickers a).is_mainstream s.state
          (few_kept s.state (Driven-Few s d)))
  Driven-Few _ (drops_tick s a d) =
      kept_few (flag s.state) (drop_tick c a (s.tickers a).future s.state) (
        drop_tick-Kept c Few few_notify few_poll few_drop (flag s.state) a (s.tickers a).future
          s.state (few_kept s.state (Driven-Few s d)))
  Driven-Few _ (drops_ticker s a f d) =
      kept_few (if (s.tickers a).is_mainstream then false else flag s.state)
        (drop_ticker c (s.tickers a).is_mainstream s.state)
        (drop_ticker-Kept c Few few_notify few_poll few_drop (flag s.state)
          (s.tickers a).is_mainstream s.state (few_kept s.state (Driven-Few s d)))

-- ===== src/Executor/Mainstream.antt =====
-- The account of the runnables in any use of the executor of src/executor.rs.
use unsend.Executor.Crates.{Crates}
use unsend.Base.{Bool, Option, ℕ, arith, ap}
use unsend.Executor.{with_thread_id, schedule, spawn}
use unsend.Executor.Accounts.{places, schedule-InHand, spawn-InHand}
use unsend.Executor.Use.{
  tick_step, drop_tick_step, drop_ticker_step, ExecSystem, Driven, creates, wakes_task, spawns_task,
  tries_tick, makes_ticker, begins_tick, polls_tick, drops_tick, drops_ticker,
}
use unsend.Executor.Ticking.{Accounted, of_InHand, to_InHand}
use unsend.Queue.Flying.{hits}
use unsend.Executor.Kept.{
  try_tick-Accounted, tick-Accounted, drop_tick-Accounted, drop_ticker-Accounted,
}

module _ {Q A S W R : Type 0} (c : Crates Q A S W R) (p : R → Bool) where
  new-Accounted : (origin : Option ℕ) → Accounted c p (with_thread_id c origin)
  unfolding with_thread_id places
  new-Accounted origin = omega (arith, ap (hits p) c.queue.items-unbounded)

  -- However an executor is used, for any test on runnables: of those that pass it, as many were handed
  -- to the scheduler function as ran, wait in one of the two queues, are on their way to a ticker that
  -- was notified, were lost with a listener that was dropped with nobody to take its place, or were
  -- leaked by a push that failed.
  pub Driven-Accounted : (s : ExecSystem Q A S R) → Driven c s → Accounted c p s.state
  unfolding with_thread_id tick_step drop_tick_step drop_ticker_step
  Driven-Accounted _ (creates origin) = new-Accounted origin
  Driven-Accounted _ (wakes_task s current r d) =
      of_InHand c p (schedule c current r s.state)
        (schedule-InHand c p current 0 r s.state (to_InHand c p s.state (Driven-Accounted s d)))
  Driven-Accounted _ (spawns_task s r d) =
      of_InHand c p (spawn c r s.state)
        (spawn-InHand c p 0 r s.state (to_InHand c p s.state (Driven-Accounted s d)))
  Driven-Accounted _ (tries_tick s d) = try_tick-Accounted c p s.state (Driven-Accounted s d)
  Driven-Accounted _ (makes_ticker s a l d) = Driven-Accounted s d
  Driven-Accounted _ (begins_tick s a l f d) = Driven-Accounted s d
  Driven-Accounted _ (polls_tick s a v racing l f d) =
      tick-Accounted c p a v racing (s.tickers a).future (s.tickers a).is_mainstream s.state
        (Driven-Accounted s d)
  Driven-Accounted _ (drops_tick s a d) =
      drop_tick-Accounted c p a (s.tickers a).future s.state (Driven-Accounted s d)
  Driven-Accounted _ (drops_ticker s a f d) =
      drop_ticker-Accounted c p (s.tickers a).is_mainstream s.state (Driven-Accounted s d)

-- ===== src/Executor/Use.antt =====
-- Any use of the executor of src/executor.rs: its tickers at their addresses, and the calls of the
-- scheduler function and of `try_tick` in any order.
use unsend.Executor.Crates.{Crates}
use unsend.Base.{ℕ, false, Option, true, if◌then◌else◌, ◌==◌, ◌≡◌, ◌≢◌, Bool}
use unsend.Executor.{State, with_thread_id, schedule, spawn, try_tick}
use unsend.Executor.Ticker.{
  tick, drop_tick, drop_ticker, tick_done, tick_start, Racing, tick_after, TickFuture,
}

-- A ticker, while it is there, and its `tick` future.
pub record TickerState : Type 0 where
  pub live : Bool
  pub is_mainstream : Bool
  pub future : TickFuture

pub record ExecSystem (Q A S R : Type 0) : Type 0 where
  pub state : State Q A S R
  pub tickers : ℕ → TickerState

abbrev pub set_ticker : (ℕ → TickerState) → ℕ → TickerState → ℕ → TickerState
set_ticker ts a t b = if b == a then t else ts b

abbrev pub no_ticker : TickerState
no_ticker = record { live = false; is_mainstream = false; future = tick_done }

module _ {Q A S W R : Type 0} (c : Crates Q A S W R) where
  abbrev pub new_executor : Option ℕ → ExecSystem Q A S R
  new_executor origin = record { state = with_thread_id c origin; tickers = λ a. no_ticker }

  -- `Ticker::new`.
  abbrev pub new_ticker : ℕ → ExecSystem Q A S R → ExecSystem Q A S R
  new_ticker a s = record s {
    tickers =
        set_ticker s.tickers a (record { live = true; is_mainstream = false; future = tick_done });
  }

  -- A call of `Ticker::tick`, which makes a future.
  abbrev pub begin_tick : ℕ → ExecSystem Q A S R → ExecSystem Q A S R
  begin_tick a s = record s {
    tickers = set_ticker s.tickers a (record (s.tickers a) { future = tick_start });
  }

  unfoldable pub tick_step : ℕ → ℕ → Racing R → ExecSystem Q A S R → ExecSystem Q A S R
  unfolding tick
  tick_step a v racing s =
      let t = s.tickers a in
      let (p, m, u) = tick c a v racing t.future t.is_mainstream s.state in
      record {
        state = u;
        tickers = set_ticker s.tickers a (record t { is_mainstream = m; future = tick_after p });
      }

  unfoldable pub drop_tick_step : ℕ → ExecSystem Q A S R → ExecSystem Q A S R
  unfolding drop_tick
  drop_tick_step a s = record {
    state = drop_tick c a (s.tickers a).future s.state;
    tickers = set_ticker s.tickers a (record (s.tickers a) { future = tick_done });
  }

  unfoldable pub drop_ticker_step : ℕ → ExecSystem Q A S R → ExecSystem Q A S R
  unfolding drop_ticker
  drop_ticker_step a s = record {
    state = drop_ticker c (s.tickers a).is_mainstream s.state;
    tickers = set_ticker s.tickers a no_ticker;
  }

  -- What ownership allows: a ticker has one `tick` future at a time, it is polled until it returns,
  -- and it is dropped before its ticker.
  pub data Driven : ExecSystem Q A S R → Type 0 where
    creates : (origin : Option ℕ) → Driven (new_executor origin)
    wakes_task :
        (s : ExecSystem Q A S R) (current : Option ℕ) (r : R)
        → Driven s
        → Driven (record s { state = schedule c current r s.state })
    spawns_task :
        (s : ExecSystem Q A S R) (r : R)
        → Driven s
        → Driven (record s { state = spawn c r s.state })
    tries_tick :
        (s : ExecSystem Q A S R) → Driven s → Driven (record s { state = (try_tick c s.state).1 })
    makes_ticker :
        (s : ExecSystem Q A S R) (a : ℕ)
        → (s.tickers a).live ≡ false
        → Driven s
        → Driven (new_ticker a s)
    begins_tick :
        (s : ExecSystem Q A S R) (a : ℕ)
        → (s.tickers a).live ≡ true
        → (s.tickers a).future ≡ tick_done
        → Driven s
        → Driven (begin_tick a s)
    polls_tick :
        (s : ExecSystem Q A S R) (a v : ℕ) (racing : Racing R)
        → (s.tickers a).live ≡ true
        → (s.tickers a).future ≢ tick_done
        → Driven s
        → Driven (tick_step a v racing s)
    drops_tick : (s : ExecSystem Q A S R) (a : ℕ) → Driven s → Driven (drop_tick_step a s)
    drops_ticker :
        (s : ExecSystem Q A S R) (a : ℕ)
        → (s.tickers a).future ≡ tick_done
        → Driven s
        → Driven (drop_ticker_step a s)

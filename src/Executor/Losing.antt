-- ===== src/Executor/Losing.antt =====
-- What becomes of a runnable that a ticker of src/executor.rs was notified with, when its `tick`
-- future is dropped before it is polled.
use unsend.Queue
use unsend.Executor.Crates.{Crates}
use unsend.Base.{some, [], ◌∷◌, List, ℕ, ◌≡◌, arith, false}
use unsend.Queue.{Waiter, Queue}

module _ {T : Type 0} where
  pub poll_result-first :
      (i : ℕ) (t : T) (ws : List Waiter)
      → Queue.poll_result i
          (record { notices = record { id = i; tag = t; extra = false } ∷ []; waiters = ws })
        ≡ some t
  unfolding Queue.poll_result
  poll_result-first i t ws = ground arith

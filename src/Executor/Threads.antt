-- ===== src/Executor/Threads.antt =====
-- How src/executor.rs tells threads apart: `ThreadId` and its implementations.
use unsend.Executor.Crates.{Crates}
use unsend.Base.{none, ℕ, Option, true, false, Bool}
use unsend.Executor.{with_thread_id, State}

-- The implementations; `shared` is a reference, a box or a reference count of another one.
pub data ThreadId : Type 0 where
  std_thread_id : ThreadId
  no_thread_id : ThreadId
  default_thread_id : (std : Bool) → ThreadId
  shared : ThreadId → ThreadId

-- `ThreadId::id` on a thread whose thread-local variable has the address `local`, if it has one still.
unfoldable pub id : ThreadId → Option ℕ → Option ℕ
id std_thread_id local = local
id no_thread_id local = none
id (default_thread_id true) local = local
id (default_thread_id false) local = none
id (shared t) local = id t local

module _ {Q A S W R : Type 0} (c : Crates Q A S W R) where
  -- `Executor::new`, with or without the standard library.
  unfoldable pub new : Bool → Option ℕ → State Q A S R
  unfolding id with_thread_id
  new std local = with_thread_id c (id (default_thread_id std) local)

-- ===== src/Lock/Exclusion.antt =====
-- The mutex of src/lock/mutex.rs: its guards and its waiters.
use unsend.Lock.System.{System, Reachable}
use unsend.Lock.Mutex.{Cell, mutex}
use unsend.Base.{ℕ, ◌≤◌, ◌≡◌, true, ◌↔◌, refl, arith}
use unsend.Lock.Wait.{awaiting}
use unsend.Lock.Handover.{Served, handover}
use unsend.Queue.Occurs.{occurs}
use unsend.Lock.Invariant.{Reachable-Sound}
use unsend.Lock.Single.{waits}

module _ {D : Type 0} where
  -- However a mutex is used, at most one guard is out, the data is borrowed exactly while one is,
  -- and the event holds one listener for each future that awaits and none for any other.
  pub exclusion :
      (s : System (Cell D))
      → Reachable mutex s
      → (s.guards ≤ 1)
        × ((s.shared.inner.borrowed ≡ true) ↔ (s.guards ≡ 1))
        × ((b : ℕ) → occurs b s.shared.event ≡ waits (s.futures b))
  exclusion s r =
      let h = Reachable-Sound mutex s r in
      let c = h.conserved in (omega (arith, c), ground (arith, c), h.occurring)

  -- However a mutex is used, when no guard is out and a future awaits, there is a future that awaits,
  -- was notified, and takes the mutex when any task polls it.
  pub unlocked-Served :
      (s : System (Cell D)) (a : ℕ)
      → Reachable mutex s
      → s.guards ≡ 0
      → s.futures a ≡ awaiting
      → (b : ℕ) × Served mutex b s
  unlocked-Served s a r g w = handover mutex s a refl r g w

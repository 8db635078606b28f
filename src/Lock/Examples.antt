-- ===== src/Lock/Examples.antt =====
-- Runs of the locks at concrete values.
use unsend.Queue
use unsend.Lock.Mutex
use unsend.Lock.System.{
  System, begin_step, Reachable, poll_step, unused, release_step, polls, begins, starts, releases,
}
use unsend.Lock.Wait.{
  start, awaiting, finished, poll_future, turn, drop_listener, acquired, poll_listener,
}
use unsend.Queue.{Waiter}
use unsend.Lock.Semaphore.{acquire, release}
use unsend.Base.{◌≤◌, ◌≢◌, ◌≡◌, ℕ, some, true, arith, ◌↔◌, [], refl, ◌∷◌}
use unsend.Lock.Mutex.{Cell, mutex, try_lock}
use unsend.Queue.Occurs.{occurs}
use unsend.Lock.Permits.{exhausted, release-release}
use unsend.Lock.Single.{waits}
use unsend.Lock.Exclusion.{exclusion, unlocked-Served}
use unsend.Lock.Handover.{Served}

-- Task 10 takes a mutex, task 20 waits for it, and the guard is dropped.
abbrev taken : System (Cell ℕ)
taken = poll_step mutex 1 10 (begin_step 1 (unused (Mutex.new 5)))

abbrev waited : System (Cell ℕ)
waited = poll_step mutex 2 20 (begin_step 2 taken)

abbrev dropped : System (Cell ℕ)
dropped = release_step mutex waited

start≢finished : start ≢ finished
start≢finished = ground arith

taken-Reachable : Reachable mutex taken
unfolding begin_step Mutex.new
taken-Reachable = polls _ 1 10 start≢finished (begins _ 1 refl (starts (Mutex.new 5) refl refl))

waited-Reachable : Reachable mutex waited
unfolding begin_step poll_step poll_future turn Mutex.new try_lock drop_listener Queue.drop
waited-Reachable = polls _ 2 20 start≢finished (begins _ 2 refl taken-Reachable)

dropped-Reachable : Reachable mutex dropped
unfolding begin_step poll_step poll_future turn Mutex.new try_lock drop_listener poll_listener
    Queue.poll_result
dropped-Reachable = releases waited (omega arith) waited-Reachable

exclusion_example :
    (dropped.guards ≤ 1)
    × ((dropped.shared.inner.borrowed ≡ true) ↔ (dropped.guards ≡ 1))
    × ((b : ℕ) → occurs b dropped.shared.event ≡ waits (dropped.futures b))
exclusion_example = exclusion dropped dropped-Reachable

unlocked-Served_example : (b : ℕ) × Served mutex b dropped
unfolding begin_step poll_step poll_future turn Mutex.new try_lock drop_listener poll_listener
    Queue.poll_result release_step Queue.drop
unlocked-Served_example = unlocked-Served dropped 2 dropped-Reachable refl refl

abbrev first : Waiter
first = record { id = 1; waker = some 10 }

abbrev second : Waiter
second = record { id = 2; waker = some 20 }

release-release_example :
    let p = acquire 1 10 awaiting (release (release (exhausted first second [] []))) in
    (p.0 ≡ acquired)
    × (p.2.inner ≡ 1)
    × (p.2.event ≡ record { notices = []; waiters = second ∷ [] })
release-release_example = release-release 10 first second [] [] refl

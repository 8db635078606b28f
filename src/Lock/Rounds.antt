-- ===== src/Lock/Rounds.antt =====
-- The rounds of the barrier of src/lock/barrier.rs.
use unsend.Queue
use unsend.Event.Notification.{usize_max}
use unsend.Base.{
  refl, some, List, ℕ, ◌≡◌, [], ◌≢◌, length, ◌≤◌, ◌+◌, arith, ==_iff, false, ap, ◌%◌, ◌^◌,
}
use unsend.Lock.Barrier.{
  lead, wait, follow, Arrivals, passed, arrived, follower, unstarted, still_waiting, leader, arrive,
}
use unsend.Queue.Counts.{topped_up, notify_counts}
use unsend.Lock.Wait.{Shared, poll_future, poll_listener, drop_listener}
use unsend.Lock.Rendezvous.{wait_all, repeat, gather, wait_last}
use unsend.Lock.Handover.{turn-acquired}

-- The leader notifies everyone.
pub lead-waiters :
    (s : Shared Arrivals)
    → s.event.notices ≡ []
    → length s.event.waiters ≤ usize_max
    → length (lead s).event.waiters ≡ 0
unfolding lead topped_up
lead-waiters s e l = omega (arith, notify_counts usize_max false (λ _. tt) s.event, ap length e)

-- From the start of a round, with nobody notified and not more listeners than `usize::MAX`, the first
-- `n - 1` new futures of a barrier for `n` tasks wait and the next one is the leader: it resets the
-- count, starts the next generation, and leaves no listener that was not notified.
pub rendezvous :
    (xs : List (ℕ × ℕ)) (a v : ℕ) (s : Shared Arrivals)
    → s.event.notices ≡ []
    → s.inner.count ≡ 0
    → length xs + 1 ≡ s.inner.n
    → length s.event.waiters + length xs ≤ usize_max
    → let p = wait_all xs s in
      let r = wait a v unstarted p.1 in
      (p.0 ≡ repeat (length xs) still_waiting)
      × (r.0 ≡ leader)
      × (r.2.inner.count ≡ 0)
      × (r.2.inner.generation ≡ (s.inner.generation + 1) % 2 ^ 64)
      × (length r.2.event.waiters ≡ 0)
unfolding lead
rendezvous xs a v s e c l m =
    let h = gather xs s e (omega arith) in
    rw (wait_last a v (wait_all xs s).1 (omega (arith, h.counted, h.same_n))) (
      h.replies,
      refl,
      refl,
      ap (λ g. (g + 1) % 2 ^ 64) h.same_generation,
      lead-waiters (arrive (wait_all xs s).1) h.unheard (omega (arith, h.waiting)),
    )

-- A future that arrived in an earlier generation and whose listener was notified leaves at its next
-- poll, and not as the leader; its listener leaves the event.
pub released :
    (g a v : ℕ) (s : Shared Arrivals) (t : Unit {0})
    → g ≢ s.inner.generation
    → Queue.poll_result a s.event ≡ some t
    → let r = wait a v (arrived g) s in
      (r.0 ≡ follower) × (r.2.inner ≡ s.inner) × (r.2.event ≡ Queue.drop a (Queue.poll a v s.event))
unfolding wait follow poll_future poll_listener drop_listener passed
released g a v s t n e =
    rw (turn-acquired (passed g) a v s t s.inner e (ground (arith, ==_iff g s.inner.generation)))
      (refl, refl, refl)

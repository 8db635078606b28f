-- ===== src/Lock/Permits.antt =====
-- The semaphore of src/lock/semaphore.rs: its permits, and several releases in a row.
use unsend.Queue
use unsend.Base.{ℕ, ◌+◌, ◌≡◌, List, ◌∷◌, false, [], some, ◌∙◌, ap, refl}
use unsend.Lock.Semaphore.{release, acquire, semaphore, try_acquire}
use unsend.Lock.System.{System, Reachable}
use unsend.Lock.Wait.{
  notify_one, poll_future, poll_listener, drop_listener, awaiting, acquired, Shared,
}
use unsend.Queue.Occurs.{occurs}
use unsend.Lock.Invariant.{Reachable-Sound}
use unsend.Lock.Single.{waits}
use unsend.Queue.{Waiter, in_waiters, Queue}
use unsend.Lock.Handover.{turn-acquired}
use unsend.Queue.Front.{front, front-result, front-poll, drop-unnoticed}

-- However a semaphore of `n` permits is used, the permits that are left and the guards that are out
-- add up to `n`, and the event holds one listener for each future that awaits and none for any other.
pub permits-conserved :
    (n : ℕ) (s : System ℕ)
    → Reachable (semaphore n) s
    → (s.shared.inner + s.guards ≡ n) × ((b : ℕ) → occurs b s.shared.event ≡ waits (s.futures b))
permits-conserved n s r = let h = Reachable-Sound (semaphore n) s r in (h.conserved, h.occurring)

-- No permit is left, nobody was notified, and two listeners or more wait.
abbrev pub exhausted : Waiter → Waiter → List Waiter → List ℕ → Shared ℕ
exhausted x y ws woken = record {
  event = record { notices = []; waiters = x ∷ y ∷ ws };
  woken = woken;
  inner = 0;
}

releases-event :
    (x y : Waiter) (ws : List Waiter) (woken : List ℕ)
    → (release (release (exhausted x y ws woken))).event ≡ front x tt (y ∷ ws)
unfolding release notify_one Queue.notify Queue.deliver Queue.quota
releases-event x y ws woken = refl

try-releases :
    (x y : Waiter) (ws : List Waiter) (woken : List ℕ)
    → try_acquire (release (release (exhausted x y ws woken))).inner ≡ some 1
unfolding release notify_one try_acquire
try-releases x y ws woken = refl

-- When no permit is left, nobody was notified and at least two listeners wait, two releases in a row
-- notify the first one only: its future then acquires, a permit is left, nobody is notified, and the
-- second listener still waits.
pub release-release :
    (v : ℕ) (x y : Waiter) (ws : List Waiter) (woken : List ℕ)
    → in_waiters x.id (y ∷ ws) ≡ false
    → let p = acquire x.id v awaiting (release (release (exhausted x y ws woken))) in
      (p.0 ≡ acquired) × (p.2.inner ≡ 1) × (p.2.event ≡ record { notices = []; waiters = y ∷ ws })
unfolding acquire poll_future drop_listener poll_listener
release-release v x y ws woken d =
    let s = release (release (exhausted x y ws woken)) in
    let ev = releases-event x y ws woken in
    rw
      (turn-acquired try_acquire x.id v s tt 1
        (ap (Queue.poll_result x.id) ev ∙ front-result x tt (y ∷ ws)) (try-releases x y ws woken))
      (
        refl,
        refl,
        ap (λ q. Queue.drop x.id (Queue.poll x.id v q)) ev
            ∙ ap (Queue.drop x.id) (front-poll x tt (y ∷ ws) v)
            ∙ drop-unnoticed x (y ∷ ws) d,
      )

-- ===== src/Lock/Rendezvous.antt =====
-- A round of the barrier of src/lock/barrier.rs, up to its leader.
use unsend.Queue
use unsend.Base.{
  refl, none, [], List, ℕ, ◌+◌, ◌≡◌, [], ◌<◌, ltb, arith, if◌then◌else◌, ap, ◌∷◌, true, ==_iff, ◌∙◌,
  false, length, suc, ◌≤◌, zero, length-append,
}
use unsend.Lock.Barrier.{
  wait, follow, Arrivals, WaitResult, passed, unstarted, leader, still_waiting, left, arrived, lead,
  arrive,
}
use unsend.Lock.Wait.{Shared, poll_future, turn, poll_listener, start}
use unsend.Queue.{Queue}
use unsend.Queue.Split.{poll_result-none}
use unsend.Queue.Polled.{poll-none, notices-listen}
use unsend.Lock.Wakeup.{length-set_waker}

-- New `wait` futures that are polled in turn, each at its address and by its task.
unfoldable pub wait_all : List (ℕ × ℕ) → Shared Arrivals → List WaitResult × Shared Arrivals
unfolding wait
wait_all [] s = ([], s)
wait_all (x ∷ rest) s =
    let (r, _, s') = wait x.0 x.1 unstarted s in let (rs, s'') = wait_all rest s' in (r ∷ rs, s'')

-- The tests of the arriving future and of its loop.
short-ltb :
    (s : Shared Arrivals) → s.inner.count + 1 < s.inner.n → ltb (s.inner.count + 1) s.inner.n ≡ true
short-ltb s l = ground arith

passed-short :
    (s : Shared Arrivals)
    → s.inner.count + 1 < s.inner.n
    → passed s.inner.generation (arrive s).inner ≡ none
unfolding passed
passed-short s l = ground (arith, ==_iff s.inner.generation s.inner.generation)

pub unnotified : (a : ℕ) (q : Queue (Unit {0})) → q.notices ≡ [] → Queue.poll_result a q ≡ none
unnotified a q e = poll_result-none a q (ap (Queue.find_notice a) e)

follow_short :
    (g a v : ℕ) (s : Shared Arrivals)
    → s.event.notices ≡ []
    → passed g s.inner ≡ none
    → follow g a v start s ≡ (still_waiting, arrived g, poll_listener a v s)
unfolding follow poll_future turn poll_listener
follow_short g a v s e p = rw (p, turn) (rw (unnotified a s.event e, turn) refl)

-- A future that comes before there are enough tasks waits.
pub wait_short :
    (a v : ℕ) (s : Shared Arrivals)
    → s.event.notices ≡ []
    → s.inner.count + 1 < s.inner.n
    → wait a v unstarted s
      ≡ (still_waiting, arrived s.inner.generation, poll_listener a v (arrive s))
unfolding wait
wait_short a v s e l =
    rw (short-ltb s l, if◌then◌else◌)
      (follow_short s.inner.generation a v (arrive s) e (passed-short s l))

last-ltb :
    (s : Shared Arrivals)
    → s.inner.count + 1 ≡ s.inner.n
    → ltb (s.inner.count + 1) s.inner.n ≡ false
last-ltb s e = ground arith

pub wait_last :
    (a v : ℕ) (s : Shared Arrivals)
    → s.inner.count + 1 ≡ s.inner.n
    → wait a v unstarted s ≡ (leader, left, lead (arrive s))
unfolding wait
wait_last a v s e = rw (last-ltb s e, if◌then◌else◌) refl

pub poll_listener-notices :
    (a v : ℕ) (s : Shared Arrivals)
    → s.event.notices ≡ []
    → (poll_listener a v s).event.notices ≡ []
unfolding poll_listener
poll_listener-notices a v s e =
    ap (λ q. q.notices) (poll-none a v s.event (unnotified a s.event e))
    ∙ notices-listen a s.event
    ∙ e

length-listen :
    (a : ℕ) (q : Queue (Unit {0})) → length (Queue.listen a q).waiters ≤ suc (length q.waiters)
unfolding Queue.listen Queue.insert
length-listen a q = ground (arith, length-append q.waiters (record { id = a; waker = none } ∷ []))

poll_listener-waiters :
    (a v : ℕ) (s : Shared Arrivals)
    → s.event.notices ≡ []
    → length (poll_listener a v s).event.waiters ≤ suc (length s.event.waiters)
unfolding poll_listener
poll_listener-waiters a v s e = omega (
  arith,
  ap (λ q. length q.waiters) (poll-none a v s.event (unnotified a s.event e)),
  length-set_waker a v (Queue.listen a s.event).waiters,
  length-listen a s.event,
)

abbrev pub repeat : ℕ → WaitResult → List WaitResult
repeat zero r = []
repeat (suc k) r = r ∷ repeat k r

-- What futures that come before there are enough tasks leave behind.
pub record Gathered (k : ℕ) (s : Shared Arrivals) (p : List WaitResult × Shared Arrivals)
    : Type 0 where
  pub replies : p.0 ≡ repeat k still_waiting
  pub same_n : p.1.inner.n ≡ s.inner.n
  pub counted : p.1.inner.count ≡ s.inner.count + k
  pub same_generation : p.1.inner.generation ≡ s.inner.generation
  pub unheard : p.1.event.notices ≡ []
  pub waiting : length p.1.event.waiters ≤ length s.event.waiters + k

pub gather :
    (xs : List (ℕ × ℕ)) (s : Shared Arrivals)
    → s.event.notices ≡ []
    → s.inner.count + length xs < s.inner.n
    → Gathered (length xs) s (wait_all xs s)
unfolding wait_all poll_listener
gather [] s e l = record {
  replies = refl;
  same_n = refl;
  counted = omega arith;
  same_generation = refl;
  unheard = e;
  waiting = omega arith;
}
gather (x ∷ xs) s e l =
    let s' = poll_listener x.0 x.1 (arrive s) in
    let h = gather xs s' (poll_listener-notices x.0 x.1 (arrive s) e) (omega arith) in
    rw (wait_short x.0 x.1 s e (omega arith)) (record {
      replies = ap (λ rs. still_waiting ∷ rs) h.replies;
      same_n = h.same_n;
      counted = omega (arith, h.counted);
      same_generation = h.same_generation;
      unheard = h.unheard;
      waiting = omega (arith, h.waiting, poll_listener-waiters x.0 x.1 (arrive s) e);
    })

-- ===== src/Lock/Departures.antt =====
-- How the futures of a round of the barrier of src/lock/barrier.rs leave it.
use unsend.Queue
use unsend.Event.Notification.{usize_max}
use unsend.Base.{
  inl, inr, Option-cases, ap₂, subst, refl, some, List, ℕ, ◌≡◌, [], ◌∷◌, ◌≢◌, ◌<◌, ◌≤◌, ◌+◌, length,
  arith, ==_iff, ap, ◌∙◌, ◌%◌, ◌^◌, sym, false, true,
}
use unsend.Lock.Barrier.{
  Arrivals, WaitResult, wait, arrived, follower, still_waiting, unstarted, leader, lead, arrive,
}
use unsend.Lock.Wait.{Shared, poll_listener}
use unsend.Lock.Rendezvous.{
  wait_all, repeat, gather, wait_last, wait_short, poll_listener-notices, unnotified,
}
use unsend.Lock.Rounds.{rendezvous, released}
use unsend.Lock.OnceHeard.{all_notified, notify-waiters, nobody_waits}
use unsend.Queue.{Queue, poll_result, in_queue}
use unsend.Queue.Split.{drop-none, drop-some}
use unsend.Queue.Occurs.{occurs, occurs-in, occurs-notify, occurs-drop}
use unsend.Queue.Polled.{poll-some, occurs-poll-none, occurs-poll-some}

-- Futures that arrived in the generation `g`, polled in turn, each at its address and by its task.
unfoldable pub poll_all : ℕ → List (ℕ × ℕ) → Shared Arrivals → List WaitResult × Shared Arrivals
unfolding wait
poll_all g [] s = ([], s)
poll_all g (x ∷ xs) s =
    let (r, _, s') = wait x.0 x.1 (arrived g) s in let (rs, s'') = poll_all g xs s' in (r ∷ rs, s'')

-- No two of these are at one address.
abbrev pub Apart : ℕ → List (ℕ × ℕ) → Type 0
Apart a [] = Unit {0}
Apart a (x ∷ xs) = (a ≢ x.0) × Apart a xs

abbrev pub Distinct : List (ℕ × ℕ) → Type 0
Distinct [] = Unit {0}
Distinct (x ∷ xs) = Apart x.0 xs × Distinct xs

-- All of them have a listener in the event.
abbrev Present : List (ℕ × ℕ) → Queue (Unit {0}) → Type 0
Present [] q = Unit {0}
Present (x ∷ xs) q = (1 ≤ occurs x.0 q) × Present xs q

present_in : (a : ℕ) (q : Queue (Unit {0})) → 1 ≤ occurs a q → in_queue a q ≡ true
present_in a q l = ground (arith, l, occurs-in a q)

stays :
    (a b v : ℕ) (q : Queue (Unit {0})) (t : Unit {0})
    → a ≢ b
    → q.waiters ≡ []
    → poll_result a q ≡ some t
    → 1 ≤ occurs b q
    → 1 ≤ occurs b (Queue.drop a (Queue.poll a v q))
stays a b v q t n w e l =
    ground
      (arith, n, l, occurs-drop b a (Queue.poll a v q), occurs-poll-some b a v q t e, ==_iff b a)

all_stay :
    (a v : ℕ) (xs : List (ℕ × ℕ)) (q : Queue (Unit {0})) (t : Unit {0})
    → Apart a xs
    → q.waiters ≡ []
    → poll_result a q ≡ some t
    → Present xs q
    → Present xs (Queue.drop a (Queue.poll a v q))
all_stay a v [] q t n w e p = tt
all_stay a v (x ∷ xs) q t (n, ns) w e (p, ps) =
    (stays a x.0 v q t n w e p, all_stay a v xs q t ns w e ps)

drop-nil : (a : ℕ) (q : Queue (Unit {0})) → q.waiters ≡ [] → (Queue.drop a q).waiters ≡ []
drop-nil a q w = elim (Option-cases (Queue.find_notice a q.notices)) [
  | inl f ↦ rw (drop-none a q f) (ap (Queue.erase_waiter a) w)
  | inr (x, f) ↦
      rw (drop-some a q x f) (notify-waiters 1 x.extra (λ _. x.tag) (Queue.without_notice a q) w)
]

-- All of them leave, none as the leader.
all_leave :
    (g : ℕ) (xs : List (ℕ × ℕ)) (s : Shared Arrivals)
    → g ≢ s.inner.generation
    → s.event.waiters ≡ []
    → Distinct xs
    → Present xs s.event
    → ((poll_all g xs s).0 ≡ repeat (length xs) follower) × ((poll_all g xs s).1.inner ≡ s.inner)
unfolding poll_all
all_leave g [] s n w d p = (refl, refl)
all_leave g (x ∷ xs) s n w (d, ds) (p, ps) =
    let (t, e) = all_notified x.0 s.event w (present_in x.0 s.event p) in
    let (r, i, k) = released g x.0 x.1 s t n e in
    let u = (wait x.0 x.1 (arrived g) s).2 in
    let polled = ap (λ q. q.waiters) (poll-some x.0 x.1 s.event t e).0 ∙ w in
    let (rs, j) =
      all_leave g xs u (λ h. n (h ∙ ap (λ z. z.generation) i))
        (ap (λ q. q.waiters) k ∙ drop-nil x.0 (Queue.poll x.0 x.1 s.event) polled) ds
        (subst (Present xs) (sym k) (all_stay x.0 x.1 xs s.event t d w e ps)) in
    (ap₂ ◌∷◌ r rs, j ∙ i)

-- A listener that is in the event stays there while others come.
wait_all-occurs :
    (b : ℕ) (xs : List (ℕ × ℕ)) (s : Shared Arrivals)
    → s.event.notices ≡ []
    → s.inner.count + length xs < s.inner.n
    → 1 ≤ occurs b s.event
    → 1 ≤ occurs b (wait_all xs s).1.event
unfolding wait_all poll_listener
wait_all-occurs b [] s e l p = p
wait_all-occurs b (x ∷ xs) s e l p =
    let s' = poll_listener x.0 x.1 (arrive s) in
    rw (wait_short x.0 x.1 s e (omega arith)) (
      wait_all-occurs b xs s' (poll_listener-notices x.0 x.1 (arrive s) e) (omega arith)
        (omega (arith, p, occurs-poll-none b x.0 x.1 s.event (unnotified x.0 s.event e))))

wait_all-Present :
    (xs : List (ℕ × ℕ)) (s : Shared Arrivals)
    → s.event.notices ≡ []
    → s.inner.count + length xs < s.inner.n
    → Present xs (wait_all xs s).1.event
unfolding wait_all poll_listener
wait_all-Present [] s e l = tt
wait_all-Present (x ∷ xs) s e l =
    let s' = poll_listener x.0 x.1 (arrive s) in
    let e' = poll_listener-notices x.0 x.1 (arrive s) e in
    rw (wait_short x.0 x.1 s e (omega arith)) (
      wait_all-occurs x.0 xs s' e' (omega arith) (
          ground (
            arith,
            ==_iff x.0 x.0,
            occurs-poll-none x.0 x.0 x.1 s.event (unnotified x.0 s.event e),
          )),
      wait_all-Present xs s' e' (omega arith),
    )

notify-Present :
    (xs : List (ℕ × ℕ)) (q : Queue (Unit {0}))
    → Present xs q
    → Present xs (Queue.notify usize_max false (λ _. tt) q)
notify-Present [] q p = tt
notify-Present (x ∷ xs) q (p, ps) =
    (omega (arith, p, occurs-notify x.0 usize_max false (λ _. tt) q), notify-Present xs q ps)

next_generation : (g : ℕ) → g < 2 ^ 64 → g ≢ (g + 1) % 2 ^ 64
next_generation g l e = omega (arith, l, e)

-- From the start of a round, with nobody notified and not more listeners than `usize::MAX`, the first
-- `n - 1` new futures of a barrier for `n` tasks wait and the next one is the leader; when those that
-- wait are polled again, in turn, each leaves, and not as the leader. Then the count is zero and the
-- next generation has begun.
pub whole_round :
    (xs : List (ℕ × ℕ)) (a v : ℕ) (s : Shared Arrivals)
    → s.event.notices ≡ []
    → s.inner.count ≡ 0
    → s.inner.generation < 2 ^ 64
    → length xs + 1 ≡ s.inner.n
    → length s.event.waiters + length xs ≤ usize_max
    → Distinct xs
    → let p = wait_all xs s in
      let r = wait a v unstarted p.1 in
      let q = poll_all s.inner.generation xs r.2 in
      (p.0 ≡ repeat (length xs) still_waiting)
      × (r.0 ≡ leader)
      × (q.0 ≡ repeat (length xs) follower)
      × (q.1.inner.count ≡ 0)
      × (q.1.inner.generation ≡ (s.inner.generation + 1) % 2 ^ 64)
unfolding lead
whole_round xs a v s e c b l m d =
    let (w, r, k, g, z) = rendezvous xs a v s e c l m in
    let u = (wait a v unstarted (wait_all xs s).1).2 in
    let h = gather xs s e (omega arith) in
    let last = wait_last a v (wait_all xs s).1 (omega (arith, h.counted, h.same_n)) in
    let (q, i) =
      all_leave s.inner.generation xs u (λ x. next_generation s.inner.generation b (x ∙ g))
        (nobody_waits u.event.waiters z) d
        (subst (λ t. Present xs t.2.event) (sym last)
          (notify-Present xs (wait_all xs s).1.event (wait_all-Present xs s e (omega arith)))) in
    (w, r, q, ap (λ t. t.count) i ∙ k, ap (λ t. t.generation) i ∙ g)

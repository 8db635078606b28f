-- ===== src/Lock/Wakeup.antt =====
-- A lock that one holder at a time can have never sleeps: while it is free and someone waits, a
-- future that waits was notified, and its poll takes the lock.
use unsend.Queue
use unsend.Queue.{
  Queue, Waiter, find_notice, poll_result, erase_waiter, set_waker, in_queue, without_notice,
}
use unsend.Base.{
  refl, ℕ, Bool, ◌≤◌, List, Option-cases, true, length, ◌≡◌, ◌≢◌, false, ◌⊎◌, none, some, inl,
  arith, ◌∷◌, inr, [], refl, ◌∙◌, ap,
}
use unsend.Lock.System.{
  Lock, try_step, begin_step, System, edit_step, cancel_step, poll_step, release_step, Reachable,
  starts, tries, begins, polls, cancels, releases, edits,
}
use unsend.Lock.Wait.{
  Shared, drop_listener, poll_listener, Future, finished, turn, at_top, enough, Progress,
  drop_future, notify_one, start, acquired, awaiting, pending, poll_future, looping,
}
use unsend.Queue.Split.{drop-none, drop-some}
use unsend.Queue.Occurs.{occurs, occurs-in}
use unsend.Lock.Invariant.{Reachable-Sound}
use unsend.Lock.Single.{waits}
use unsend.Lock.Turn.{turn_lem, Settled}
use unsend.Queue.Counts.{topped_up, notify_counts}
use unsend.Queue.Polled.{poll-none, listen-in}

-- Somebody was notified, or nobody waits.
abbrev pub Heard : Queue (Unit {0}) → Type 0
Heard q = (1 ≤ length q.notices) ⊎ (length q.waiters ≡ 0)

pub notify-Heard :
    (extra : Bool) (t : Unit {0}) (q : Queue (Unit {0})) → Heard (Queue.notify 1 extra (λ _. t) q)
unfolding topped_up
notify-Heard true t q = ground (arith, notify_counts 1 true (λ _. t) q)
notify-Heard false t q = ground (arith, notify_counts 1 false (λ _. t) q)

length-erase_waiter : (a : ℕ) (ws : List Waiter) → length (erase_waiter a ws) ≤ length ws
length-erase_waiter a [] = omega arith
length-erase_waiter a (w ∷ ws) = ground (arith, length-erase_waiter a ws)

pub length-set_waker : (a v : ℕ) (ws : List Waiter) → length (set_waker a v ws) ≡ length ws
length-set_waker a v [] = refl
length-set_waker a v (w ∷ ws) = ground (arith, length-set_waker a v ws)

pub drop-Heard : (a : ℕ) (q : Queue (Unit {0})) → Heard q → Heard (Queue.drop a q)
drop-Heard a q h = elim (Option-cases (find_notice a q.notices)) [
  | inl e ↦ rw (drop-none a q e) (ground (arith, length-erase_waiter a q.waiters))
  | inr (x, e) ↦ rw (drop-some a q x e) (notify-Heard x.extra x.tag (without_notice a q))
]

module _ {S : Type 0} (l : Lock S) where
  -- The lock is taken, or somebody was notified, or nobody waits.
  abbrev pub Awake : Shared S → Type 0
  Awake s = (l.free s.inner ≡ 0) ⊎ Heard s.event

  module _ (a v : ℕ) where
    abbrev Top : Shared S → Type 0
    Top s = l.free s.inner ≤ 1

    abbrev Await : Shared S → Type 0
    Await s =
        (l.free s.inner ≤ 1) × (Awake s) × ((l.free s.inner ≡ 0) ⊎ (in_queue a s.event ≡ true))

    abbrev Got : Shared S → Type 0
    Got s = l.free s.inner ≡ 0

    fails : (s : Shared S) → Top s → l.try s.inner ≡ none → Await s
    fails s t e = let z = l.try-none s.inner e in (omega arith, inl z, inl z)

    succeeds :
        (s : Shared S) (i : S)
        → Top s
        → l.try s.inner ≡ some i
        → Got (drop_listener a (record s { inner = i }))
    unfolding drop_listener
    succeeds s i t e = omega (arith, l.try-some s.inner i e)

    parks : (s : Shared S) → Await s → poll_result a s.event ≡ none → Awake (poll_listener a v s)
    unfolding poll_listener
    parks s (f, w, inl z) e = inl z
    parks s (f, inl z, w) e = inl z
    parks s (f, inr h, inr w) e = inr (
        rw (poll-none a v s.event e, listen-in a s.event w, length-set_waker a v s.event.waiters) h)

    wakes :
        (s : Shared S) (t : Unit {0})
        → Await s
        → poll_result a s.event ≡ some t
        → Top (poll_listener a v s)
    unfolding poll_listener
    wakes s t (f, w, q) e = f

    settled-Awake : (r : Progress) (s : Shared S) → Settled r (Got s) (Awake s) → Awake s
    settled-Awake acquired s x = inl x
    settled-Awake pending s x = x
    settled-Awake looping s x = absurd x

    turn-Awake :
        (f : Future) (s : Shared S)
        → f ≢ finished
        → occurs a s.event ≡ waits f
        → l.free s.inner ≤ 1
        → Awake s
        → Awake (turn (at_top f) (enough s) l.try a v s).1
    turn-Awake start s n o b w = settled-Awake _ (turn true (enough s) l.try a v s).1 (
        turn_lem l.try a v Top Await Got Awake fails succeeds parks wakes true (enough s) s
          (omega arith) b)
    turn-Awake awaiting s n o b w = settled-Awake _ (turn false (enough s) l.try a v s).1 (
        turn_lem l.try a v Top Await Got Awake fails succeeds parks wakes false (enough s) s
          (omega arith) (b, w, inr (ground (arith, occurs-in a s.event))))
    turn-Awake finished s n o b w = absurd (n refl)

  drop_future-Awake : (a : ℕ) (f : Future) (s : Shared S) → Awake s → Awake (drop_future a f s)
  unfolding drop_future drop_listener
  drop_future-Awake a start s w = w
  drop_future-Awake a awaiting s (inl z) = inl z
  drop_future-Awake a awaiting s (inr h) = inr (drop-Heard a s.event h)
  drop_future-Awake a finished s w = w

  release-Awake : (s : Shared S) → Awake (l.release s)
  unfolding notify_one
  release-Awake s = rw (l.release_lem s) (inr (notify-Heard false tt s.event))

  try_step-Awake :
      (s : System S) → l.free s.shared.inner ≤ 1 → Awake s.shared → Awake (try_step l s).shared
  unfolding try_step
  try_step-Awake s b w = elim (Option-cases (l.try s.shared.inner)) [
    | inl e ↦ rw (e, try_step) w
    | inr (i, e) ↦ rw (e, try_step) (inl (omega (arith, l.try-some s.shared.inner i e)))
  ]

  edit-Awake :
      (s : Shared S) (i : S) → l.free i ≡ l.free s.inner → Awake s → Awake (record s { inner = i })
  edit-Awake s i e (inl z) = inl (e ∙ z)
  edit-Awake s i e (inr h) = inr h

  module _ (single : l.capacity ≡ 1) where
    pub Reachable-Awake : (s : System S) → Reachable l s → Awake s.shared
    unfolding begin_step edit_step cancel_step poll_step poll_future release_step
    Reachable-Awake _ (starts s q e) = inr (inr (ap (λ t. length t.waiters) q))
    Reachable-Awake _ (tries s r) =
        let c = (Reachable-Sound l s r).conserved in
        try_step-Awake s (omega (arith, c)) (Reachable-Awake s r)
    Reachable-Awake _ (begins s a f r) = Reachable-Awake s r
    Reachable-Awake _ (polls s a v n r) =
        let h = Reachable-Sound l s r in
        let c = h.conserved in
        turn-Awake a v (s.futures a) s.shared n (h.occurring a) (omega (arith, c))
          (Reachable-Awake s r)
    Reachable-Awake _ (cancels s a r) =
        drop_future-Awake a (s.futures a) s.shared (Reachable-Awake s r)
    Reachable-Awake _ (releases s g r) = release-Awake s.shared
    Reachable-Awake _ (edits s i g e r) = edit-Awake s.shared i e (Reachable-Awake s r)

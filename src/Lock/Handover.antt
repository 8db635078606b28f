-- ===== src/Lock/Handover.antt =====
-- While a lock for one holder is free, a future that was notified takes it.
use unsend.Lock.Wait.{
  Future, turn, poll_listener, awaiting, poll_future, Shared, start, enough, acquired, finished,
  drop_listener,
}
use unsend.Queue.{Notice, Queue, poll_result, in_notices, find_notice, Waiter}
use unsend.Lock.System.{Lock, System, poll_step, Reachable}
use unsend.Base.{
  List, ◌≤◌, ◌≡◌, ℕ, ◌∷◌, [], Option, some, arith, Option-cases, inl, false, true, ap, inr, suc,
  refl, ◌∙◌, ==_iff, length, List-cases,
}
use unsend.Lock.Invariant.{Sound, Reachable-Sound}
use unsend.Lock.Single.{waits}
use unsend.Lock.Wakeup.{Heard, Awake, Reachable-Awake}
use unsend.Queue.Occurs.{occurs, count_waiters, count_notices}
use unsend.Queue.Split.{poll_result-some}

waits-awaiting : (f : Future) → 1 ≤ waits f → f ≡ awaiting
waits-awaiting start l = absurd (omega arith)
waits-awaiting awaiting l = refl
waits-awaiting finished l = absurd (omega arith)

pub poll_result-front :
    (x : Notice (Unit {0})) (q : Queue (Unit {0})) (xs : List (Notice (Unit {0})))
    → q.notices ≡ x ∷ xs
    → poll_result x.id q ≡ some x.tag
poll_result-front x q xs e =
    poll_result-some x.id q x (ap (find_notice x.id) e ∙ ground (arith, ==_iff x.id x.id))

-- A future that was notified takes a lock that is free.
pub turn-acquired :
    {S : Type 0} (try : S → Option S) (a v : ℕ) (s : Shared S) (t : Unit {0}) (i : S)
    → poll_result a s.event ≡ some t
    → try s.inner ≡ some i
    → turn false (enough s) try a v s
      ≡ (acquired, drop_listener a (record (poll_listener a v s) { inner = i }))
unfolding turn poll_listener
turn-acquired try a v s t i e f = rw (e, turn) (rw (f, turn) refl)

count_waiters-bound : (a : ℕ) (ws : List Waiter) → count_waiters a ws ≤ length ws
count_waiters-bound a [] = omega arith
count_waiters-bound a (w ∷ ws) = ground (arith, count_waiters-bound a ws)

-- When somebody was notified or nobody waits, and somebody is there, somebody was notified.
pub notified :
    (q : Queue (Unit {0})) (a : ℕ)
    → Heard q
    → occurs a q ≡ 1
    → (x : Notice (Unit {0})) × (xs : List (Notice (Unit {0}))) × (q.notices ≡ x ∷ xs)
notified q a h o = elim (List-cases q.notices) [
  | inl e ↦
      absurd
        (ground (arith, ap length e, ap (count_notices a) e, count_waiters-bound a q.waiters, h))
  | inr p ↦ p
]

module _ {S : Type 0} (l : Lock S) where
  try-free : (i : S) → l.free i ≡ 1 → (j : S) × (l.try i ≡ some j)
  try-free i f = elim (Option-cases (l.try i)) [
    | inl e ↦ absurd (omega (arith, l.try-none i e))
    | inr p ↦ p
  ]

  Awake-Heard : (s : System S) → l.free s.shared.inner ≡ 1 → Awake l s.shared → Heard s.shared.event
  Awake-Heard s f (inl z) = absurd (omega arith)
  Awake-Heard s f (inr h) = h

  front-awaiting :
      (s : System S) (x : Notice (Unit {0})) (xs : List (Notice (Unit {0})))
      → Sound l s
      → s.shared.event.notices ≡ x ∷ xs
      → s.futures x.id ≡ awaiting
  front-awaiting s x xs h p =
      waits-awaiting (s.futures x.id)
        (ground (arith, ap (count_notices x.id) p, ==_iff x.id x.id, h.occurring x.id))

  -- What a future that was notified can do.
  abbrev pub Served : ℕ → System S → Type 0
  Served b s =
      (s.futures b ≡ awaiting)
      × (in_notices b s.shared.event.notices ≡ true)
      × ((v : ℕ) → (poll_step l b v s).guards ≡ suc s.guards)

  pub handover :
      (s : System S) (a : ℕ)
      → l.capacity ≡ 1
      → Reachable l s
      → s.guards ≡ 0
      → s.futures a ≡ awaiting
      → (b : ℕ) × Served b s
  unfolding poll_step poll_future
  handover s a c r g w =
      let sound = Reachable-Sound l s r in
      let (i, e) = try-free s.shared.inner (omega (arith, sound.conserved)) in
      let heard = Awake-Heard s (omega (arith, sound.conserved)) (Reachable-Awake l c s r) in
      let (x, xs, p) = notified s.shared.event a heard (sound.occurring a ∙ ap waits w) in
      let t = poll_result-front x s.shared.event xs p in
      let aw = front-awaiting s x xs sound p in
      (
        x.id,
        (
          aw,
          ap (in_notices x.id) p ∙ ground (arith, ==_iff x.id x.id),
          λ v. rw (aw, turn-acquired l.try x.id v s.shared x.tag i t e) (omega arith),
        ),
      )

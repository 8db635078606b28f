-- ===== src/Lock/Turn.antt =====
-- The loop of a lock returns: each turn consumes a notification. What holds at its top and at its
-- `.await` carries over to its result.
use unsend.Lock.Wait.{
  Progress, acquired, pending, looping, Shared, drop_listener, poll_listener, turn,
}
use unsend.Base.{
  ℕ, Bool, true, false, ◌≡◌, some, none, suc, length, arith, Option, ap, Option-cases, inl, inr,
  ◌+◌, ◌≤◌, zero,
}
use unsend.Queue.{poll_result}
use unsend.Queue.Polled.{poll-some}

-- What a poll that made this progress leaves behind; it never runs out of fuel.
abbrev pub Settled : Progress → Type 0 → Type 0 → Type 0
Settled acquired A P = A
Settled pending A P = P
Settled looping A P = ⊥

abbrev pub At : Bool → Type 0 → Type 0 → Type 0
At true A B = A
At false A B = B

abbrev pub turns : Bool → ℕ
turns true = 2
turns false = 1

-- The loop of a lock: `Top` holds where it tries, `Await` where it polls its listener.
module _ {S : Type 0} (try : S → Option S) (a v : ℕ) (Top Await Got Parked : Shared S → Type 0)
    (fails : (s : Shared S) → Top s → try s.inner ≡ none → Await s)
    (succeeds : (s : Shared S) (i : S)
      → Top s
      → try s.inner ≡ some i
      → Got (drop_listener a (record s { inner = i })))
    (parks : (s : Shared S) → Await s → poll_result a s.event ≡ none → Parked (poll_listener a v s))
    (wakes : (s : Shared S) (t : Unit {0})
      → Await s
      → poll_result a s.event ≡ some t
      → Top (poll_listener a v s)) where
  -- The loop returns with the lock, or with its listener waiting.
  pub turn_lem :
      (top : Bool) (fuel : ℕ) (s : Shared S)
      → length s.event.notices + length s.event.notices + turns top ≤ fuel
      → At top (Top s) (Await s)
      → Settled
          (turn top fuel try a v s).0
          (Got (turn top fuel try a v s).1)
          (Parked (turn top fuel try a v s).1)
  unfolding turn poll_listener
  turn_lem true zero s l h = absurd (omega arith)
  turn_lem false zero s l h = absurd (omega arith)
  turn_lem true (suc fuel) s l h = elim (Option-cases (try s.inner)) [
    | inl e ↦ rw (e, turn) (turn_lem false fuel s (omega arith) (fails s h e))
    | inr (i, e) ↦ rw (e, turn) (succeeds s i h e)
  ]
  turn_lem false (suc fuel) s l h = elim (Option-cases (poll_result a s.event)) [
    | inl e ↦ rw (e, turn) (parks s h e)
    | inr (t, e) ↦
        let (p, q, _) = poll-some a v s.event t e in
        rw (e, turn)
          (turn_lem true fuel (poll_listener a v s) (omega (arith, q, ap (λ x. length x.notices) p))
            (wakes s t h e))
  ]

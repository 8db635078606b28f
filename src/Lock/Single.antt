-- ===== src/Lock/Single.antt =====
-- What one poll of a lock's future does to the listeners of the event and to what the lock keeps.
use unsend.Lock.Wait.{
  Future, Shared, start, drop_listener, poll_listener, awaiting, finished, turn, at_top, enough,
}
use unsend.Lock.System.{Lock}
use unsend.Base.{
  refl, ℕ, ◌==◌, ◌≡◌, false, suc, none, some, ◌≤◌, arith, ap, sym, ◌∙◌, ==_iff, ◌≢◌, true,
}
use unsend.Queue.{poll_result}
use unsend.Queue.Occurs.{occurs, occurs-drop}
use unsend.Lock.Turn.{Settled, turn_lem}
use unsend.Queue.Polled.{occurs-poll-some, occurs-poll-none}

abbrev pub waits : Future → ℕ
waits start = 0
waits awaiting = 1
waits finished = 0

-- The listeners of all futures but `a`.
abbrev pub SameButOne : {S : Type 0} → ℕ → Shared S → Shared S → Type 0
SameButOne a s s' = (b : ℕ) → (b == a) ≡ false → occurs b s'.event ≡ occurs b s.event

module _ {S : Type 0} (l : Lock S) (a v : ℕ) (s : Shared S) where
  unfoldable pub Top : Shared S → Type 0
  Top s' = (s'.inner ≡ s.inner) × SameButOne a s s' × (occurs a s'.event ≡ 0)

  unfoldable pub Await : Shared S → Type 0
  Await s' = (s'.inner ≡ s.inner) × SameButOne a s s' × (occurs a s'.event ≤ 1)

  unfoldable pub Got : Shared S → Type 0
  Got s' = (l.free s.inner ≡ suc (l.free s'.inner)) × SameButOne a s s' × (occurs a s'.event ≡ 0)

  unfoldable pub Waiting : Shared S → Type 0
  Waiting s' = (s'.inner ≡ s.inner) × SameButOne a s s' × (occurs a s'.event ≡ 1)

  fails : (s' : Shared S) → Top s' → l.try s'.inner ≡ none → Await s'
  unfolding Top Await
  fails s' (i, o, z) e = (i, o, omega arith)

  succeeds :
      (s' : Shared S) (j : S)
      → Top s'
      → l.try s'.inner ≡ some j
      → Got (drop_listener a (record s' { inner = j }))
  unfolding Top Got drop_listener
  succeeds s' j (i, o, z) e = (
    ap l.free (sym i) ∙ l.try-some s'.inner j e,
    λ b n. occurs-drop b a s'.event ∙ ground (arith, o b n),
    occurs-drop a a s'.event ∙ omega arith,
  )

  wakes :
      (s' : Shared S) (t : Unit {0})
      → Await s'
      → poll_result a s'.event ≡ some t
      → Top (poll_listener a v s')
  unfolding Top Await poll_listener
  wakes s' t (i, o, z) e = (
    i,
    λ b n. occurs-poll-some b a v s'.event t e ∙ ground (arith, o b n),
    occurs-poll-some a a v s'.event t e ∙ ground (arith, ==_iff a a),
  )

  parks :
      (s' : Shared S) → Await s' → poll_result a s'.event ≡ none → Waiting (poll_listener a v s')
  unfolding Waiting Await poll_listener
  parks s' (i, o, z) e = (
    i,
    λ b n. occurs-poll-none b a v s'.event e ∙ ground (arith, o b n),
    occurs-poll-none a a v s'.event e ∙ ground (arith, ==_iff a a),
  )

  -- A poll takes the lock, and its listener leaves the event, or its listener waits.
  pub turn-Settled :
      (f : Future)
      → f ≢ finished
      → occurs a s.event ≡ waits f
      → Settled
          (turn (at_top f) (enough s) l.try a v s).0
          (Got (turn (at_top f) (enough s) l.try a v s).1)
          (Waiting (turn (at_top f) (enough s) l.try a v s).1)
  unfolding Top Await
  turn-Settled start n w =
      turn_lem l.try a v Top Await Got Waiting fails succeeds parks wakes true (enough s) s
        (omega arith) (refl, λ b n. refl, w)
  turn-Settled awaiting n w =
      turn_lem l.try a v Top Await Got Waiting fails succeeds parks wakes false (enough s) s
        (omega arith) (refl, λ b n. refl, omega arith)
  turn-Settled finished n w = absurd (n refl)

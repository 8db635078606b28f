-- ===== src/Queue/Alone.antt =====
-- A queue in which one listener waits, and one in which nobody waits.
use unsend.Queue
use unsend.Base.{refl, some, [], ◌∷◌, List, ℕ, ◌≡◌, Bool, arith, ==_iff, append-nil, zero, suc}
use unsend.Queue.{Queue, Waiter, quota, drop_front, to_notices, Notice}

module _ {T : Type 0} (a v : ℕ) where
  -- The listener `a` waits alone, for the task `v`.
  abbrev pub only : Queue T
  only = record { notices = []; waiters = record { id = a; waker = some v } ∷ [] }

  pub poll-empty : Queue.poll a v (Queue.empty {T = T}) ≡ only
  unfolding Queue.poll Queue.registered Queue.listen Queue.insert
  poll-empty = ground (arith, ==_iff a a)

  pub drop-only : Queue.drop a only ≡ Queue.empty {T = T}
  unfolding Queue.drop
  drop-only = ground (arith, ==_iff a a)

  pub poll-only :
      (w : ℕ)
      → Queue.poll a w only ≡ record (only) { waiters = record { id = a; waker = some w } ∷ [] }
  unfolding Queue.poll Queue.registered Queue.listen Queue.insert
  poll-only w = ground (arith, ==_iff a a)

module _ {T : Type 0} where
  nobody_waits :
      (k : ℕ) (e : Bool) (f : ℕ → T) → (drop_front k [] ≡ []) × (to_notices k e f [] ≡ [])
  nobody_waits zero e f = (refl, refl)
  nobody_waits (suc k) e f = (refl, refl)

  -- A notification that nobody waits for changes nothing.
  pub notify-nil :
      (n : ℕ) (e : Bool) (f : ℕ → T) (ns : List (Notice T))
      → Queue.notify n e f (record { notices = ns; waiters = [] })
        ≡ record { notices = ns; waiters = [] }
  unfolding Queue.notify Queue.deliver
  notify-nil n e f ns =
      let (d, t) = nobody_waits (quota n e (record { notices = ns; waiters = [] })) e f in
      rw (d, t, append-nil ns) refl

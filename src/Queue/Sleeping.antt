-- ===== src/Queue/Sleeping.antt =====
-- A listener that was polled and not notified, and the waker that it waits with.
use unsend.Queue
use unsend.Queue.Polled.{notices-listen, poll-none, poll_result-find-none}
use unsend.Queue.Split.{in_queue-listen, find_notice-none}
use unsend.Base.{
  none, some, [], ◌∷◌, inl, inr, ℕ, Option, true, false, ◌≡◌, Bool, List, arith, ◌==◌,
  if◌then◌else◌, Bool-cases,
}
use unsend.Queue.{Waiter, Queue}

-- The listener `a` waits with the waker `v`.
abbrev pub has_waker : ℕ → Option ℕ → Bool
has_waker v none = false
has_waker v (some w) = v == w

abbrev pub sleeps : ℕ → ℕ → List Waiter → Bool
sleeps a v [] = false
sleeps a v (w ∷ ws) = if a == w.id then has_waker v w.waker else sleeps a v ws

sleeps-set_waker :
    (a v : ℕ) (ws : List Waiter)
    → Queue.in_waiters a ws ≡ true
    → sleeps a v (Queue.set_waker a v ws) ≡ true
sleeps-set_waker a v [] e = absurd (ground (arith, e))
sleeps-set_waker a v (w ∷ ws) e = elim (Bool-cases (a == w.id)) [
  | inl h ↦ ground (arith, h)
  | inr h ↦ ground (arith, h, e, sleeps-set_waker a v ws)
]

module _ {T : Type 0} where
  in-listen :
      (a : ℕ) (q : Queue T)
      → Queue.find_notice a q.notices ≡ none
      → Queue.in_waiters a (Queue.listen a q).waiters ≡ true
  in-listen a q e =
      ground (arith, e, in_queue-listen a q, notices-listen a q, find_notice-none a q.notices)

  -- A listener that is polled and was not notified waits with the waker of the poll.
  pub poll-sleeps :
      (a v : ℕ) (q : Queue T)
      → Queue.poll_result a q ≡ none
      → sleeps a v (Queue.poll a v q).waiters ≡ true
  poll-sleeps a v q e = rw (poll-none a v q e) (
      sleeps-set_waker a v (Queue.listen a q).waiters (in-listen a q (poll_result-find-none a q e)))

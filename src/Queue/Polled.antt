-- ===== src/Queue/Polled.antt =====
-- What a poll does to the queue, whether or not the listener was notified.
use unsend.Queue
use unsend.Base.{
  refl, none, some, ℕ, List, ◌≡◌, arith, true, max, ◌-◌, suc, Option-cases, if◌then◌else◌, length,
  ap, ◌==◌, inl, ◌∙◌, Bool-cases, ==_iff, inr, ◌∷◌, [],
}
use unsend.Queue.{
  listen, insert, Queue, Notice, poll_result, in_queue, find_notice, set_waker, without_notice,
  erase_notice, in_notices,
}
use unsend.Queue.Occurs.{
  occurs, one_if, count_waiters-set, occurs-in, count_notices-in, occurs-insert,
  count_notices-erase,
}
use unsend.Queue.Split.{
  registered-none, poll_result-none, poll_result-some, find_notice-some, registered-some,
}

module _ {T : Type 0} where
  pub length-erase_notice :
      (a : ℕ) (ns : List (Notice T)) (x : Notice T)
      → find_notice a ns ≡ some x
      → suc (length (erase_notice a ns)) ≡ length ns
  length-erase_notice a [] x e = absurd (ground arith)
  length-erase_notice a (n ∷ ns) x e = ground (arith, length-erase_notice a ns x)

  pub notices-listen : (a : ℕ) (q : Queue T) → (listen a q).notices ≡ q.notices
  unfolding listen insert
  notices-listen a q = ground arith

  pub poll_result-find-none :
      (a : ℕ) (q : Queue T) → poll_result a q ≡ none → find_notice a q.notices ≡ none
  poll_result-find-none a q e = elim (Option-cases (find_notice a q.notices)) [
    | inl h ↦ h
    | inr (x, h) ↦ absurd (ground (arith, e, poll_result-some a q x h))
  ]

  pub poll_result-find-some :
      (a : ℕ) (q : Queue T) (t : T)
      → poll_result a q ≡ some t
      → (x : Notice T) × (find_notice a q.notices ≡ some x)
  poll_result-find-some a q t e = elim (Option-cases (find_notice a q.notices)) [
    | inl h ↦ absurd (ground (arith, e, poll_result-none a q h))
    | inr (x, h) ↦ (x, h)
  ]

  pub poll-none :
      (a v : ℕ) (q : Queue T)
      → poll_result a q ≡ none
      → Queue.poll a v q ≡ record (listen a q) { waiters = set_waker a v (listen a q).waiters }
  unfolding Queue.poll
  poll-none a v q e =
      registered-none a v (listen a q)
        (ap (find_notice a) (notices-listen a q) ∙ poll_result-find-none a q e)

  pub listen-in : (a : ℕ) (q : Queue T) → in_queue a q ≡ true → listen a q ≡ q
  unfolding listen
  listen-in a q i = rw (i, if◌then◌else◌) refl

  pub poll-some :
      (a v : ℕ) (q : Queue T) (t : T)
      → poll_result a q ≡ some t
      → (Queue.poll a v q ≡ without_notice a q)
        × (suc (length (without_notice a q).notices) ≡ length q.notices)
        × (in_notices a q.notices ≡ true)
  unfolding Queue.poll
  poll-some a v q t e =
      let (x, h) = poll_result-find-some a q t e in
      let i = find_notice-some a q.notices x h in
      (
        rw (listen-in a q (ground arith)) (registered-some a v q x h),
        length-erase_notice a q.notices x h,
        i,
      )

  pub occurs-listen :
      (b a : ℕ) (q : Queue T) → occurs b (listen a q) ≡ max (one_if (b == a)) (occurs b q)
  unfolding listen
  occurs-listen b a q = elim (Bool-cases (in_queue a q)) [
    | inl i ↦ rw (i, if◌then◌else◌) (ground (arith, occurs-in a q, ==_iff b a))
    | inr o ↦ rw (o, if◌then◌else◌, occurs-insert b a q) (ground (arith, occurs-in a q, ==_iff b a))
  ]

  -- A listener that is polled and was not notified waits.
  pub occurs-poll-none :
      (b a v : ℕ) (q : Queue T)
      → poll_result a q ≡ none
      → occurs b (Queue.poll a v q) ≡ max (one_if (b == a)) (occurs b q)
  occurs-poll-none b a v q e =
      rw (poll-none a v q e, count_waiters-set b a v (listen a q).waiters) (occurs-listen b a q)

  -- A listener that was notified leaves the queue when it is polled.
  pub occurs-poll-some :
      (b a v : ℕ) (q : Queue T) (t : T)
      → poll_result a q ≡ some t
      → occurs b (Queue.poll a v q) ≡ occurs b q - one_if (b == a)
  occurs-poll-some b a v q t e =
      let (p, l, i) = poll-some a v q t e in
      rw p (
        ground (arith, ==_iff b a, count_notices-in a q.notices, count_notices-erase b a q.notices))

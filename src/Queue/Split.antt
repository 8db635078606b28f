-- ===== src/Queue/Split.antt =====
-- Where a listener stands in the queue.
use unsend.Queue
use unsend.Base.{
  ℕ, List, ◌≡◌, some, none, true, false, ◌++◌, arith, ◌∷◌, ◌∷◌, [], Bool-cases, refl, ◌==◌, inl,
  inr, ◌||◌, if◌then◌else◌, Bool, suc, zero, Option-cases,
}
use unsend.Queue.{
  Notice, Waiter, find_notice, in_waiters, in_notices, erase_waiter, erase_notice, set_waker, Queue,
  poll_result, listen, registered, insert, without_notice, in_queue, to_notices, drop_front, quota,
  without_waiter, drop_wakes, notify_wakes,
}

pub in_waiters-append :
    (a : ℕ) (vs ws : List Waiter) → in_waiters a (vs ++ ws) ≡ (in_waiters a vs || in_waiters a ws)
in_waiters-append a [] ws = refl
in_waiters-append a (v ∷ vs) ws = ground (arith, in_waiters-append a vs ws)

module _ {T : Type 0} where
  pub notice_split :
      (a : ℕ) (ns : List (Notice T)) (x : Notice T)
      → find_notice a ns ≡ some x
      → (ys : List (Notice T)) × (zs : List (Notice T)) × (ns ≡ ys ++ x ∷ zs)
        × (erase_notice a ns ≡ ys ++ zs)
        × (a ≡ x.id)
  notice_split a [] x e = absurd (ground arith)
  notice_split a (n ∷ ns) x e = elim (Bool-cases (a == n.id)) [
    | inl h ↦ ([], ns, ground arith, ground arith, ground arith)
    | inr h ↦
        let (ys, zs, p, q, r) = notice_split a ns x (ground arith) in
        (n ∷ ys, zs, ground arith, ground arith, r)
  ]

  pub find_notice-none :
      (a : ℕ) (ns : List (Notice T)) → find_notice a ns ≡ none → in_notices a ns ≡ false
  find_notice-none a [] e = refl
  find_notice-none a (n ∷ ns) e = ground (arith, find_notice-none a ns)

  pub find_notice-some :
      (a : ℕ) (ns : List (Notice T)) (x : Notice T)
      → find_notice a ns ≡ some x
      → in_notices a ns ≡ true
  find_notice-some a [] x e = ground arith
  find_notice-some a (n ∷ ns) x e = ground (arith, find_notice-some a ns x)

pub waiter_split :
    (a v : ℕ) (ws : List Waiter)
    → in_waiters a ws ≡ true
    → (ys : List Waiter) × (x : Waiter) × (zs : List Waiter) × (ws ≡ ys ++ x ∷ zs)
      × (erase_waiter a ws ≡ ys ++ zs)
      × (set_waker a v ws ≡ ys ++ record { id = a; waker = some v } ∷ zs)
      × (x.id ≡ a)
waiter_split a v [] e = absurd (ground arith)
waiter_split a v (w ∷ ws) e = elim (Bool-cases (a == w.id)) [
  | inl h ↦ ([], w, ws, ground arith, ground arith, ground arith, ground arith)
  | inr h ↦
      let (ys, x, zs, p, q, s, r) = waiter_split a v ws (ground arith) in
      (w ∷ ys, x, zs, ground arith, ground arith, ground arith, r)
]

pub erase_waiter-out : (a : ℕ) (ws : List Waiter) → in_waiters a ws ≡ false → erase_waiter a ws ≡ ws
erase_waiter-out a [] e = refl
erase_waiter-out a (w ∷ ws) e = ground (arith, erase_waiter-out a ws)

module _ {T : Type 0} (a : ℕ) (q : Queue T) where
  pub poll_result-none : find_notice a q.notices ≡ none → poll_result a q ≡ none
  unfolding poll_result
  poll_result-none e = rw (e, poll_result)

  pub poll_result-some :
      (x : Notice T) → find_notice a q.notices ≡ some x → poll_result a q ≡ some x.tag
  unfolding poll_result
  poll_result-some x e = rw (e, poll_result)

  pub in_queue-listen : in_queue a (listen a q) ≡ true
  unfolding listen insert
  in_queue-listen = elim (Bool-cases (in_queue a q)) [
    | inl i ↦ rw (i, if◌then◌else◌) i
    | inr o ↦
        rw (o, if◌then◌else◌)
          (ground (arith, in_waiters-append a q.waiters (record { id = a; waker = none } ∷ [])))
  ]

  pub poll_result-listen : poll_result a (listen a q) ≡ poll_result a q
  unfolding listen insert poll_result
  poll_result-listen = ground arith

module _ {T : Type 0} (a v : ℕ) (q : Queue T) where
  pub registered-none :
      find_notice a q.notices ≡ none
      → registered a v q ≡ record q { waiters = set_waker a v q.waiters }
  unfolding registered
  registered-none e = rw (e, registered)

  pub registered-some :
      (x : Notice T) → find_notice a q.notices ≡ some x → registered a v q ≡ without_notice a q
  unfolding registered
  registered-some x e = rw (e, registered)

module _ {T : Type 0} where
  pub in_notices-append :
      (a : ℕ) (ms ns : List (Notice T))
      → in_notices a (ms ++ ns) ≡ (in_notices a ms || in_notices a ns)
  in_notices-append a [] ns = refl
  in_notices-append a (m ∷ ms) ns = ground (arith, in_notices-append a ms ns)

  in_queue-split :
      (a k : ℕ) (extra : Bool) (f : ℕ → T) (ws : List Waiter)
      → (in_notices a (to_notices k extra f ws) || in_waiters a (drop_front k ws)) ≡ in_waiters a ws
  in_queue-split a zero extra f ws = refl
  in_queue-split a (suc k) extra f [] = refl
  in_queue-split a (suc k) extra f (w ∷ ws) =
      ground (arith, in_queue-split a k extra (λ i. f (suc i)) ws)

  -- A notification moves listeners inside the queue.
  pub in_queue-notify :
      (a count : ℕ) (extra : Bool) (f : ℕ → T) (q : Queue T)
      → in_queue a (Queue.notify count extra f q) ≡ in_queue a q
  unfolding Queue.notify
  in_queue-notify a count extra f q = ground (
    arith,
    in_notices-append a q.notices (to_notices (quota count extra q) extra f q.waiters),
    in_queue-split a (quota count extra q) extra f q.waiters,
  )

module _ {T : Type 0} (a : ℕ) (q : Queue T) where
  pub drop-none : find_notice a q.notices ≡ none → Queue.drop a q ≡ without_waiter a q
  unfolding Queue.drop
  drop-none e = rw (e, Queue.drop)

  pub drop-some :
      (x : Notice T)
      → find_notice a q.notices ≡ some x
      → Queue.drop a q ≡ Queue.notify 1 x.extra (λ _. x.tag) (without_notice a q)
  unfolding Queue.drop
  drop-some x e = rw (e, Queue.drop)

  pub drop_wakes-none : find_notice a q.notices ≡ none → drop_wakes a q ≡ []
  unfolding drop_wakes
  drop_wakes-none e = rw (e, drop_wakes)

  pub drop_wakes-some :
      (x : Notice T)
      → find_notice a q.notices ≡ some x
      → drop_wakes a q ≡ notify_wakes 1 x.extra (without_notice a q)
  unfolding drop_wakes
  drop_wakes-some x e = rw (e, drop_wakes)

  pub find_notice-out : in_notices a q.notices ≡ false → find_notice a q.notices ≡ none
  find_notice-out o = elim (Option-cases (find_notice a q.notices)) [
    | inl e ↦ e
    | inr (x, e) ↦ absurd (ground (arith, find_notice-some a q.notices x))
  ]

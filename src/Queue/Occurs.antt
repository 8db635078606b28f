-- ===== src/Queue/Occurs.antt =====
-- How often a listener stands in the queue, before and after each operation.
use unsend.Queue
use unsend.Base.{
  Bool, ℕ, List, true, ◌≡◌, ◌+◌, false, arith, ◌∷◌, ◌++◌, ◌↔◌, ◌==◌, ◌-◌, [], suc, refl, zero, none,
  Option-cases, inl, ==_iff, inr,
}
use unsend.Queue.{
  Queue, Waiter, Notice, in_waiters, set_waker, erase_waiter, in_notices, erase_notice, to_notices,
  drop_front, quota, insert, in_queue, find_notice, without_notice,
}
use unsend.Queue.Split.{drop-none, find_notice-none, drop-some, find_notice-some}

abbrev pub one_if : Bool → ℕ
one_if true = 1
one_if false = 0

abbrev pub count_waiters : ℕ → List Waiter → ℕ
count_waiters b [] = 0
count_waiters b (w ∷ ws) = one_if (b == w.id) + count_waiters b ws

pub count_waiters-append :
    (b : ℕ) (vs ws : List Waiter)
    → count_waiters b (vs ++ ws) ≡ count_waiters b vs + count_waiters b ws
count_waiters-append b [] ws = omega arith
count_waiters-append b (v ∷ vs) ws = omega (arith, count_waiters-append b vs ws)

pub count_waiters-in : (b : ℕ) (ws : List Waiter) → in_waiters b ws ≡ false ↔ count_waiters b ws ≡ 0
count_waiters-in b [] = (λ _. refl, λ _. refl)
count_waiters-in b (w ∷ ws) = ground (arith, count_waiters-in b ws)

pub count_waiters-set :
    (b a v : ℕ) (ws : List Waiter) → count_waiters b (set_waker a v ws) ≡ count_waiters b ws
count_waiters-set b a v [] = refl
count_waiters-set b a v (w ∷ ws) = ground (arith, count_waiters-set b a v ws)

pub count_waiters-erase :
    (b a : ℕ) (ws : List Waiter)
    → count_waiters b (erase_waiter a ws) ≡ count_waiters b ws - one_if (b == a)
count_waiters-erase b a [] = ground arith
count_waiters-erase b a (w ∷ ws) = ground (arith, count_waiters-erase b a ws)

module _ {T : Type 0} where
  abbrev pub count_notices : ℕ → List (Notice T) → ℕ
  count_notices b [] = 0
  count_notices b (x ∷ xs) = one_if (b == x.id) + count_notices b xs

  abbrev pub occurs : ℕ → Queue T → ℕ
  occurs b q = count_notices b q.notices + count_waiters b q.waiters

  pub count_notices-append :
      (b : ℕ) (xs ys : List (Notice T))
      → count_notices b (xs ++ ys) ≡ count_notices b xs + count_notices b ys
  count_notices-append b [] ys = omega arith
  count_notices-append b (x ∷ xs) ys = omega (arith, count_notices-append b xs ys)

  pub count_notices-in :
      (b : ℕ) (xs : List (Notice T)) → in_notices b xs ≡ false ↔ count_notices b xs ≡ 0
  count_notices-in b [] = (λ _. refl, λ _. refl)
  count_notices-in b (x ∷ xs) = ground (arith, count_notices-in b xs)

  pub count_notices-erase :
      (b a : ℕ) (xs : List (Notice T))
      → count_notices b (erase_notice a xs) ≡ count_notices b xs - one_if (b == a)
  count_notices-erase b a [] = ground arith
  count_notices-erase b a (x ∷ xs) = ground (arith, count_notices-erase b a xs)

  count-deliver :
      (b k : ℕ) (extra : Bool) (f : ℕ → T) (ws : List Waiter)
      → count_notices b (to_notices k extra f ws) + count_waiters b (drop_front k ws)
        ≡ count_waiters b ws
  count-deliver b zero extra f ws = omega arith
  count-deliver b (suc k) extra f [] = omega arith
  count-deliver b (suc k) extra f (w ∷ ws) =
      omega (arith, count-deliver b k extra (λ i. f (suc i)) ws)

  pub occurs-notify :
      (b count : ℕ) (extra : Bool) (f : ℕ → T) (q : Queue T)
      → occurs b (Queue.notify count extra f q) ≡ occurs b q
  unfolding Queue.notify
  occurs-notify b count extra f q = omega (
    arith,
    count_notices-append b q.notices (to_notices (quota count extra q) extra f q.waiters),
    count-deliver b (quota count extra q) extra f q.waiters,
  )

  pub occurs-insert :
      (b a : ℕ) (q : Queue T) → occurs b (Queue.insert a q) ≡ occurs b q + one_if (b == a)
  unfolding insert
  occurs-insert b a q =
      omega (arith, count_waiters-append b q.waiters (record { id = a; waker = none } ∷ []))

  pub occurs-in : (b : ℕ) (q : Queue T) → in_queue b q ≡ false ↔ occurs b q ≡ 0
  occurs-in b q = ground (arith, count_notices-in b q.notices, count_waiters-in b q.waiters)

  -- A listener that is dropped leaves the queue.
  pub occurs-drop :
      (b a : ℕ) (q : Queue T) → occurs b (Queue.drop a q) ≡ occurs b q - one_if (b == a)
  occurs-drop b a q = elim (Option-cases (find_notice a q.notices)) [
    | inl e ↦ rw (drop-none a q e) (
        ground (
          arith,
          find_notice-none a q.notices e,
          ==_iff b a,
          count_notices-in a q.notices,
          count_waiters-erase b a q.waiters,
        ))
    | inr (x, e) ↦
        rw (drop-some a q x e, occurs-notify b 1 x.extra (λ _. x.tag) (without_notice a q))
          (ground (
            arith,
            find_notice-some a q.notices x e,
            ==_iff b a,
            count_notices-in a q.notices,
            count_notices-erase b a q.notices,
          ))
  ]

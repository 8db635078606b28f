-- ===== src/Queue/Counts.antt =====
-- How many listeners a notification moves, and how many stay.
use unsend.Queue
use unsend.Base.{
  max, ℕ, List, Bool, min, ◌≡◌, length, ◌+◌, arith, true, ◌-◌, false, suc, ◌∷◌, ap, zero, [], refl,
  length-append,
}
use unsend.Queue.{delivered, Waiter, Queue, drop_front, to_notices, quota}

pub delivered-min : (k : ℕ) (ws : List Waiter) → delivered k ws ≡ min k (length ws)
unfolding delivered
delivered-min zero ws = omega arith
delivered-min (suc k) [] = omega arith
delivered-min (suc k) (w ∷ ws) = omega (arith, delivered-min k ws)

pub length-drop_front : (k : ℕ) (ws : List Waiter) → length (drop_front k ws) ≡ length ws - k
length-drop_front zero ws = omega arith
length-drop_front (suc k) [] = omega arith
length-drop_front (suc k) (w ∷ ws) = omega (arith, length-drop_front k ws)

-- What the counters of the header become: an additional notification is for `count` more
-- listeners, and a plain one tops up those notified to `count`.
unfoldable pub topped_up : ℕ → Bool → ℕ → ℕ → ℕ
topped_up count true notified len = min (notified + count) len
topped_up count false notified len = max notified (min count len)

module _ {T : Type 0} where
  pub length-to_notices :
      (k : ℕ) (extra : Bool) (f : ℕ → T) (ws : List Waiter)
      → length (to_notices k extra f ws) ≡ delivered k ws
  unfolding delivered
  length-to_notices zero extra f ws = refl
  length-to_notices (suc k) extra f [] = refl
  length-to_notices (suc k) extra f (w ∷ ws) =
      ap suc (length-to_notices k extra (λ i. f (suc i)) ws)

  pub notify_counts :
      (count : ℕ) (extra : Bool) (f : ℕ → T) (q : Queue T)
      → let n = length q.notices in
        let len = n + length q.waiters in
        let q' = Queue.notify count extra f q in
        (length q'.notices ≡ topped_up count extra n len)
        × (delivered (quota count extra q) q.waiters ≡ topped_up count extra n len - n)
        × (length q'.notices + length q'.waiters ≡ len)
  unfolding Queue.notify quota topped_up
  notify_counts count true f q = omega (
    arith,
    length-append q.notices (to_notices count true f q.waiters),
    length-to_notices count true f q.waiters,
    delivered-min count q.waiters,
    length-drop_front count q.waiters,
  )
  notify_counts count false f q = omega (
    arith,
    length-append q.notices (to_notices (count - length q.notices) false f q.waiters),
    length-to_notices (count - length q.notices) false f q.waiters,
    delivered-min (count - length q.notices) q.waiters,
    length-drop_front (count - length q.notices) q.waiters,
  )

-- ===== src/Lock/OnceHeard.antt =====
-- Who hears of the value of the cell of src/lock/once_cell.rs.
use unsend.Queue
use unsend.Event.Notification.{usize_max}
use unsend.Lock.Handover.{turn-acquired}
use unsend.Lock.Wait.{poll_future, acquired, awaiting}
use unsend.Queue.Counts.{topped_up, notify_counts}
use unsend.Queue.Split.{in_queue-notify, drop-some, drop-none, poll_result-some}
use unsend.Base.{
  ==_iff, refl, some, [], ℕ, false, true, ◌≡◌, inl, inr, List, ◌∷◌, suc, zero, arith, ap, length,
  ◌≤◌, ◌≢◌, Option-cases, ◌∙◌, Bool-cases, ◌==◌, Bool,
}
use unsend.Lock.OnceCell.{
  Answer, success, got_value, listening, get_or_try_init, set_value, init_turn, store, try_init,
  unwrite, drop_active, OnceCell, poll_active,
}
use unsend.Queue.{Waiter, Queue, Notice}
use unsend.Lock.OnceReady.{wait, ready, for_waiters}

pub nobody_waits : (ws : List Waiter) → length ws ≡ 0 → ws ≡ []
nobody_waits [] e = refl
nobody_waits (w ∷ ws) e = absurd (omega (arith, e))

drop_front-nil : (k : ℕ) → Queue.drop_front k [] ≡ []
drop_front-nil zero = refl
drop_front-nil (suc k) = refl

module _ {T : Type 0} where
  -- A notification of all listeners leaves none that waits.
  notify_all-waiters :
      (f : ℕ → T) (q : Queue T)
      → length q.waiters ≤ usize_max
      → (Queue.notify usize_max true f q).waiters ≡ []
  unfolding topped_up
  notify_all-waiters f q l =
      nobody_waits (Queue.notify usize_max true f q).waiters
        (omega (arith, l, notify_counts usize_max true f q))

  find-in :
      (a : ℕ) (xs : List (Notice T))
      → Queue.in_notices a xs ≡ true
      → (x : Notice T) × (Queue.find_notice a xs ≡ some x)
  find-in a [] e = absurd (ground (arith, e))
  find-in a (x ∷ xs) e = elim (Bool-cases (a == x.id)) [
    | inl h ↦ (x, ground (arith, h))
    | inr h ↦ let (y, f) = find-in a xs (ground (arith, e, h)) in (y, ground (arith, h, f))
  ]

  -- Where no listener waits, each that is there is notified.
  pub all_notified :
      (a : ℕ) (q : Queue T)
      → q.waiters ≡ []
      → Queue.in_queue a q ≡ true
      → (t : T) × (Queue.poll_result a q ≡ some t)
  all_notified a q e i =
      let (x, f) = find-in a q.notices (ground (arith, e, i)) in (x.tag, poll_result-some a q x f)

  pub notify-waiters :
      (count : ℕ) (extra : Bool) (f : ℕ → T) (q : Queue T)
      → q.waiters ≡ []
      → (Queue.notify count extra f q).waiters ≡ []
  unfolding Queue.notify Queue.deliver
  notify-waiters count extra f q e =
      let k = Queue.quota count extra q in ap (Queue.drop_front k) e ∙ drop_front-nil k

  in_notices-erase :
      (a b : ℕ) (xs : List (Notice T))
      → a ≢ b
      → Queue.in_notices b (Queue.erase_notice a xs) ≡ Queue.in_notices b xs
  in_notices-erase a b [] n = refl
  in_notices-erase a b (x ∷ xs) n = elim (Bool-cases (a == x.id)) [
    | inl h ↦ ground (arith, h, n, ==_iff a x.id, ==_iff b x.id)
    | inr h ↦ ground (arith, h, in_notices-erase a b xs n)
  ]

  to_notices-nil : (k : ℕ) (extra : Bool) (f : ℕ → T) → Queue.to_notices k extra f [] ≡ []
  to_notices-nil zero extra f = refl
  to_notices-nil (suc k) extra f = refl

  -- Where no listener waits, the drop of a listener leaves the others notified.
  pub drop-others :
      (a b : ℕ) (q : Queue T)
      → a ≢ b
      → q.waiters ≡ []
      → Queue.in_queue b q ≡ true
      → ((Queue.drop a q).waiters ≡ []) × (Queue.in_queue b (Queue.drop a q) ≡ true)
  drop-others a b q n e i = elim (Option-cases (Queue.find_notice a q.notices)) [
    | inl f ↦
        rw (drop-none a q f)
          (ap (Queue.erase_waiter a) e, ground (arith, e, i, ap (Queue.erase_waiter a) e))
    | inr (x, f) ↦
        let q' = Queue.without_notice a q in
        rw (drop-some a q x f) (
          notify-waiters 1 x.extra (λ _. x.tag) q' e,
          in_queue-notify b 1 x.extra (λ _. x.tag) q'
              ∙ ground (arith, e, i, in_notices-erase a b q.notices n),
        )
  ]

module _ {T : Type 0} (E : Type 0) where
  wait-set_value :
      (w a v : ℕ) (t : T) (s : OnceCell T)
      → Queue.in_queue a s.passive ≡ true
      → length s.passive.waiters ≤ usize_max
      → (wait a v awaiting (set_value {E = E} w (success t) s).1).0 ≡ acquired
  unfolding wait poll_future set_value store unwrite drop_active
  wait-set_value w a v t s i l =
      let q = Queue.notify usize_max true (λ _. tt) s.passive in
      let u = (set_value {E = E} w (success t) s).1 in
      let (x, f) =
        all_notified a q (notify_all-waiters (λ _. tt) s.passive l)
          (in_queue-notify a usize_max true (λ _. tt) s.passive ∙ i) in
      rw (turn-acquired ready a v (for_waiters u) x (some t) f refl) refl

  get_or_try_init-set_value :
      (w b v : ℕ) (t : T) (r : Answer T E) (s : OnceCell T)
      → w ≢ b
      → Queue.in_queue b s.active ≡ true
      → length s.active.waiters ≤ usize_max
      → (get_or_try_init b v r listening (set_value {E = E} w (success t) s).1).0 ≡ got_value t
  unfolding get_or_try_init init_turn try_init set_value store unwrite drop_active poll_active
  get_or_try_init-set_value w b v t r s n i l =
      let q = Queue.notify usize_max true (λ _. tt) s.active in
      let q' = Queue.notify 1 false (λ _. tt) q in
      let e = notify-waiters 1 false (λ _. tt) q (notify_all-waiters (λ _. tt) s.active l) in
      let j =
        in_queue-notify b 1 false (λ _. tt) q
        ∙ in_queue-notify b usize_max true (λ _. tt) s.active
        ∙ i in
      let (e', j') = drop-others w b q' n e j in
      let (x, f) = all_notified b (Queue.drop w q') e' j' in rw (f, init_turn) refl

  -- Once the future of a writer gives the value, a `wait` future and any other `get_or_try_init` future
  -- whose listener is in its event, be it notified or not, return at their next poll, the latter with
  -- that value, whatever number of listeners there are up to `usize::MAX`.
  pub set_value-heard :
      (w a b v : ℕ) (t : T) (r : Answer T E) (s : OnceCell T)
      → w ≢ b
      → Queue.in_queue a s.passive ≡ true
      → length s.passive.waiters ≤ usize_max
      → Queue.in_queue b s.active ≡ true
      → length s.active.waiters ≤ usize_max
      → let u = (set_value {E = E} w (success t) s).1 in
        ((wait a v awaiting u).0 ≡ acquired) × ((get_or_try_init b v r listening u).0 ≡ got_value t)
  set_value-heard w a b v t r s n i l j k =
      (wait-set_value w a v t s i l, get_or_try_init-set_value w b v t r s n j k)

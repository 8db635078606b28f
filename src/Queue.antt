-- ===== src/Queue.antt =====
-- What an event promises, with no pointers: the listeners that wait, in the order in which they
-- came, behind those that were notified and have not been removed. Specification of event.rs.
pub mod Split
pub mod Counts
pub mod Occurs
pub mod Polled
pub mod Sleeping
pub mod Front
pub mod Flying
pub mod Alone
use unsend.Base.{
  ℕ, zero, suc, ◌+◌, ◌-◌, Bool, true, false, Option, none, some, List, [], ◌∷◌, ◌++◌, map, ◌==◌,
  leb, if◌then◌else◌, is_some, ◌||◌, length, to_list,
}

-- A listener that was notified with a tag, and whether the notification was additional.
pub record Notice (T : Type 0) : Type 0 where
  pub id : ℕ
  pub tag : T
  pub extra : Bool

-- A listener that waits; it has no waker until it is polled.
pub record Waiter : Type 0 where
  pub id : ℕ
  pub waker : Option ℕ

pub record Queue (T : Type 0) : Type 0 where
  pub notices : List (Notice T)
  pub waiters : List Waiter

module _ {T : Type 0} where
  abbrev pub empty : Queue T
  empty = record { notices = []; waiters = [] }

  abbrev pub in_notices : ℕ → List (Notice T) → Bool
  in_notices a [] = false
  in_notices a (x ∷ xs) = (a == x.id) || in_notices a xs

abbrev pub in_waiters : ℕ → List Waiter → Bool
in_waiters a [] = false
in_waiters a (x ∷ xs) = (a == x.id) || in_waiters a xs

-- The wakers that are called when the first `k` waiters are notified.
unfoldable pub wakers : ℕ → List Waiter → List ℕ
wakers zero ws = []
wakers (suc k) [] = []
wakers (suc k) (w ∷ ws) = to_list w.waker ++ wakers k ws

-- How many waiters are notified when `k` are asked for.
unfoldable pub delivered : ℕ → List Waiter → ℕ
delivered zero ws = 0
delivered (suc k) [] = 0
delivered (suc k) (w ∷ ws) = suc (delivered k ws)

-- The waiters behind the first `k`.
abbrev pub drop_front : ℕ → List Waiter → List Waiter
drop_front zero ws = ws
drop_front (suc k) [] = []
drop_front (suc k) (w ∷ ws) = drop_front k ws

abbrev pub erase_waiter : ℕ → List Waiter → List Waiter
erase_waiter a [] = []
erase_waiter a (w ∷ ws) = if a == w.id then ws else w ∷ erase_waiter a ws

abbrev pub set_waker : ℕ → ℕ → List Waiter → List Waiter
set_waker a v [] = []
set_waker a v (w ∷ ws) =
    if a == w.id then record w { waker = some v } ∷ ws else w ∷ set_waker a v ws

module _ {T : Type 0} where
  abbrev pub to_notices : ℕ → Bool → (ℕ → T) → List Waiter → List (Notice T)
  to_notices zero extra f ws = []
  to_notices (suc k) extra f [] = []
  to_notices (suc k) extra f (w ∷ ws) =
      record { id = w.id; tag = f 0; extra = extra } ∷ to_notices k extra (λ i. f (suc i)) ws

  -- Notifies the first `k` waiters, with the tags `f 0`, `f 1` and so on.
  unfoldable pub deliver : ℕ → Bool → (ℕ → T) → Queue T → Queue T
  deliver k extra f q = record {
    notices = q.notices ++ to_notices k extra f q.waiters;
    waiters = drop_front k q.waiters;
  }

  -- How many waiters a notification is for: one that is not additional counts those notified.
  unfoldable pub quota : ℕ → Bool → Queue T → ℕ
  quota count true q = count
  quota count false q = count - length q.notices

  unfoldable pub notify : ℕ → Bool → (ℕ → T) → Queue T → Queue T
  unfolding deliver quota
  notify count extra f q = deliver (quota count extra q) extra f q

  -- The wakers that `notify` calls, in order.
  unfoldable pub notify_wakes : ℕ → Bool → Queue T → List ℕ
  unfolding quota wakers
  notify_wakes count extra q = wakers (quota count extra q) q.waiters

  abbrev pub find_notice : ℕ → List (Notice T) → Option (Notice T)
  find_notice a [] = none
  find_notice a (x ∷ xs) = if a == x.id then some x else find_notice a xs

  abbrev pub erase_notice : ℕ → List (Notice T) → List (Notice T)
  erase_notice a [] = []
  erase_notice a (x ∷ xs) = if a == x.id then xs else x ∷ erase_notice a xs

  abbrev pub in_queue : ℕ → Queue T → Bool
  in_queue a q = in_notices a q.notices || in_waiters a q.waiters

  -- A new listener waits behind all others.
  unfoldable pub insert : ℕ → Queue T → Queue T
  insert a q = record q { waiters = q.waiters ++ record { id = a; waker = none } ∷ [] }

  unfoldable pub listen : ℕ → Queue T → Queue T
  unfolding insert
  listen a q = if in_queue a q then q else insert a q

  -- The queue without the notice, or the waiter, of the listener `a`.
  abbrev pub without_notice : ℕ → Queue T → Queue T
  without_notice a q = record q { notices = erase_notice a q.notices }

  abbrev pub without_waiter : ℕ → Queue T → Queue T
  without_waiter a q = record q { waiters = erase_waiter a q.waiters }

  -- A poll takes the tag of a listener that was notified; any other waits under the given waker.
  unfoldable pub registered : ℕ → ℕ → Queue T → Queue T
  registered a v q = elim (find_notice a q.notices) [
    | none ↦ record q { waiters = set_waker a v q.waiters }
    | some x ↦ without_notice a q
  ]

  unfoldable pub poll : ℕ → ℕ → Queue T → Queue T
  unfolding listen registered
  poll a v q = registered a v (listen a q)

  unfoldable pub poll_result : ℕ → Queue T → Option T
  poll_result a q = elim (find_notice a q.notices) [ none ↦ none | some x ↦ some x.tag ]

  -- A listener that was notified and is dropped hands its notification on.
  unfoldable pub drop : ℕ → Queue T → Queue T
  unfolding notify
  drop a q = elim (find_notice a q.notices) [
    | none ↦ without_waiter a q
    | some x ↦ notify 1 x.extra (λ _. x.tag) (without_notice a q)
  ]

  unfoldable pub drop_wakes : ℕ → Queue T → List ℕ
  unfolding notify_wakes
  drop_wakes a q = elim (find_notice a q.notices) [
    | none ↦ []
    | some x ↦ notify_wakes 1 x.extra (without_notice a q)
  ]

module _ {T : Type 0} where
  -- The closure `|| x.take()`, which gives `x` once.
  abbrev pub take_item : T → ℕ → Option T
  take_item t zero = some t
  take_item t (suc i) = none

  -- The item that is lost when the listener `a` is dropped: it was notified with one, and no other
  -- listener is notified in its place.
  unfoldable pub lost_by : ℕ → Queue (Option T) → List T
  lost_by a q = elim (find_notice a q.notices) [
    | none ↦ []
    | some x ↦
        let q' = without_notice a q in
        if delivered (quota 1 x.extra q') q'.waiters == 0 then to_list x.tag else []
  ]

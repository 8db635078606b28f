-- ===== src/Event/Rep.antt =====
-- The refinement relation: a world whose list, header and counters stand for a queue.
use unsend.Base.{
  Option, List, ◌++◌, ◌≡◌, ◌∷◌, ap, none, ◌==◌, ◌∙◌, length, ◌||◌, ap₂, ◌+◌, some, [], refl,
  Bool-cases, inl, arith, inr,
}
use unsend.Queue.{Notice, Waiter, Queue, in_notices, in_waiters, in_queue}
use unsend.Event.World.{World, Pointer, Waker, State, created, notified, waiting, Listener}
use unsend.Event.Chain.{
  Cells, has, has-append, has-append, first_or, has-append, has-append, has-append, has-append,
  has-append, has-append, has-append, has-append, has-in_list,
}
use unsend.Event.Linked.{Linked}

module _ {T : Type 0} where
  abbrev pub waiter_state : Option Waker → State T
  waiter_state none = created
  waiter_state (some v) = waiting v

  abbrev pub notice_cell : Notice T → Pointer × State T
  notice_cell n = (n.id, notified n.tag n.extra)

  abbrev pub waiter_cell : Waiter → Pointer × State T
  waiter_cell w = (w.id, waiter_state w.waker)

  abbrev pub notice_cells : List (Notice T) → Cells T
  notice_cells [] = []
  notice_cells (n ∷ ns) = notice_cell n ∷ notice_cells ns

  abbrev pub waiter_cells : List Waiter → Cells T
  waiter_cells [] = []
  waiter_cells (w ∷ ws) = waiter_cell w ∷ waiter_cells ws

  abbrev pub cells : Queue T → Cells T
  cells q = notice_cells q.notices ++ waiter_cells q.waiters

  pub record Rep (w : World T) (q : Queue T) : Type 0 where
    pub linked : Linked w (cells q)
    pub first : w.inner.first ≡ first_or (waiter_cells q.waiters) none
    pub notified : w.inner.notified ≡ length q.notices
    pub len : w.inner.len ≡ length q.notices + length q.waiters

  pub notice_cells-append :
      (ms ns : List (Notice T)) → notice_cells (ms ++ ns) ≡ notice_cells ms ++ notice_cells ns
  notice_cells-append [] ns = refl
  notice_cells-append (m ∷ ms) ns = ap (λ xs. notice_cell m ∷ xs) (notice_cells-append ms ns)

  pub waiter_cells-append :
      (vs ws : List Waiter) → waiter_cells (vs ++ ws) ≡ waiter_cells vs ++ waiter_cells ws
  waiter_cells-append [] ws = refl
  waiter_cells-append (v ∷ vs) ws = ap (λ xs. waiter_cell v ∷ xs) (waiter_cells-append vs ws)

  pub has-notice_cells :
      (a : Pointer) (ns : List (Notice T)) → has a (notice_cells ns) ≡ in_notices a ns
  has-notice_cells a [] = refl
  has-notice_cells a (n ∷ ns) = ap (λ b. (a == n.id) || b) (has-notice_cells a ns)

pub has-waiter_cells :
    (T : Type 0) (a : Pointer) (ws : List Waiter)
    → has {T = T} a (waiter_cells ws) ≡ in_waiters a ws
has-waiter_cells T a [] = refl
has-waiter_cells T a (w ∷ ws) = ap (λ b. (a == w.id) || b) (has-waiter_cells T a ws)

module _ {T : Type 0} where
  pub has-cells : (a : Pointer) (q : Queue T) → has a (cells q) ≡ in_queue a q
  has-cells a q =
      has-append a (notice_cells q.notices) (waiter_cells q.waiters)
      ∙ ap₂ ◌||◌ (has-notice_cells a q.notices) (has-waiter_cells T a q.waiters)

  -- The flag in a listener says whether the queue has it.
  pub in_list-in_queue :
      (w : World T) (q : Queue T) (a : Pointer) (l : Listener T)
      → Rep w q
      → w.memory a ≡ some l
      → l.in_list ≡ in_queue a q
  in_list-in_queue w q a l r e = elim (Bool-cases (has a (cells q))) [
    | inl i ↦
        let (l', e', i') = has-in_list w.memory none (cells q) none a r.linked.chain i in
        ground (arith, has-cells a q)
    | inr o ↦ ground (arith, has-cells a q, r.linked.outside a l o e)
  ]

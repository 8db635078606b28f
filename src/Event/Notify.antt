-- ===== src/Event/Notify.antt =====
-- `Inner::notify` and `Event::notify` refine the queue's `notify`.
use unsend.Event.Returns
use unsend.Event.Inner
use unsend.Queue.{notify, Queue, quota, notify_wakes, delivered, Waiter}
use unsend.Event.Notification.{Notification}
use unsend.Base.{
  ℕ, ◌≤◌, suc, arith, ◌≡◌, Bool, Bool-cases, zero, inl, sym, if◌then◌else◌, true, inr, refl, leb,
  ◌==◌, false, ltb, List, none, ◌∙◌, ==_iff, length, ◌∷◌, [],
}
use unsend.Event.World.{World, pure}
use unsend.Event.Deliver.{Draws, drawn, notify_loop_lem, Becomes}
use unsend.Event.Rep.{Rep, waiter_cells}
use unsend.Event.Inner.{notify_loop, inner_notify}
use unsend.Event.Returns.{Returns}
use unsend.Event.Chain.{first_or}

Draws-le :
    {N T : Type 0} (n : Notification N T) (j k : ℕ) (s : N) (f : ℕ → T)
    → j ≤ k
    → Draws n k s f
    → Draws n j s f
Draws-le n zero k s f h d = tt
Draws-le n (suc j) zero s f h d = elim h [ ]
Draws-le n (suc j) (suc k) s f h (s', e, d) = (s', e, Draws-le n j k s' _ (omega arith) d)

waiter_cells-none :
    (T : Type 0) (ws : List Waiter) → length ws ≡ 0 → first_or {T = T} (waiter_cells ws) none ≡ none
waiter_cells-none T [] h = refl
waiter_cells-none T (x ∷ ws) h = absurd (omega arith)

loop-idle :
    {N T : Type 0} (n : Notification N T) (extra : Bool) (k : ℕ) (s : N) (w : World T)
    → w.inner.first ≡ none
    → notify_loop n extra k s 0 w ≡ pure (0, s) w
unfolding notify_loop
loop-idle n extra zero s w h = refl
loop-idle n extra (suc k) s w h = rw h

module _ {N T : Type 0} (n : Notification N T) (s : N) (f : ℕ → T) (w : World T) (q : Queue T) where
  -- What a notification does to the world and the queue: the result is how many waiters it reached,
  -- and the state in which it leaves the source of tags.
  abbrev pub Notified : ℕ × N → World T → Type 0
  Notified (k, s') w' =
      let count = quota (n.count s) (n.is_additional s) q in
      (k ≡ delivered count q.waiters)
      × (s' ≡ drawn n (delivered count q.waiters) s)
      × Becomes w (notify (n.count s) (n.is_additional s) f q)
          (notify_wakes (n.count s) (n.is_additional s) q) w'

  module _ (r : Rep w q) where
    loop-Notified :
        (extra : Bool) (k : ℕ)
        → n.is_additional s ≡ extra
        → k ≡ quota (n.count s) extra q
        → Draws n k s f
        → Returns Notified (notify_loop n extra k s 0 w)
    unfolding notify notify_wakes
    loop-Notified extra k e c d =
        Returns.mono (notify_loop_lem n extra k s 0 f w q.notices q.waiters d r)
          λ (k', s') w' (result, b). rw (e, ← c) (ground arith, ground arith, b)

    nothing-Notified :
        (extra : Bool)
        → n.is_additional s ≡ extra
        → quota (n.count s) extra q ≡ 0
        → Returns Notified (pure (0, s) w)
    unfolding notify_loop
    nothing-Notified extra e c = loop-Notified extra 0 e (sym c) tt

    pub inner_notify_lem : Draws n (n.count s) s f → Returns Notified (inner_notify n s w)
    unfolding inner_notify quota
    inner_notify_lem d = elim (Bool-cases (n.is_additional s)) [
      | inl e ↦ rw (e, if◌then◌else◌) (loop-Notified true _ e refl d)
      | inr e ↦
          rw (e, if◌then◌else◌)
            (elim (Bool-cases (leb (n.count s) w.inner.notified)) [
              | inl few ↦
                  rw (few, if◌then◌else◌) (nothing-Notified false e (ground (arith, r.notified)))
              | inr more ↦
                  rw (more, if◌then◌else◌)
                    (loop-Notified false _ e (ground (arith, r.notified))
                      (Draws-le n _ _ s f (omega arith) d))
            ])
    ]

    pub notify_lem : Draws n (n.count s) s f → Returns Notified (Inner.notify n s w)
    unfolding Inner.notify quota
    notify_lem d = elim (Bool-cases (n.is_additional s)) [
      | inl e ↦
          rw (e, if◌then◌else◌)
            (elim (Bool-cases (w.inner.len == 0)) [
              | inl none_left ↦
                  rw (none_left, if◌then◌else◌)
                    (rw
                      (← loop-idle n true (n.count s) s w (
                        r.first
                        ∙ waiter_cells-none T q.waiters
                            (omega (arith, r.len, (==_iff w.inner.len 0).0 none_left))))
                      (loop-Notified true _ e refl d))
              | inr more ↦ rw (more, if◌then◌else◌) (inner_notify_lem d)
            ])
      | inr e ↦
          rw (e, if◌then◌else◌)
            (elim (Bool-cases (ltb (n.count s) w.inner.notified)) [
              | inl few ↦
                  rw (few, if◌then◌else◌) (nothing-Notified false e (ground (arith, r.notified)))
              | inr more ↦ rw (more, if◌then◌else◌) (inner_notify_lem d)
            ])
    ]

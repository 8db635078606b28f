-- ===== src/Event/Dropping.antt =====
-- `Listener::remove` refines the queue: what it returns, and whom it notifies.
use unsend.Event.Returns
use unsend.Event.Listener.{decrement_notified, settle, remove}
use unsend.Event.Notification.{single}
use unsend.Event.World.{World, Cmd, Waker, ok, and_then, notified}
use unsend.Base.{
  Bool, Option, List, ◌<◌, some, ◌≡◌, ◌-◌, none, refl, ◌==◌, ◌++◌, false, ◌∷◌, arith, [],
  length-append, true, ◌∙◌, sym, append-nil,
}
use unsend.Event.Deliver.{Draws, Becomes, queue}
use unsend.Queue.{Queue, Notice, Waiter, notify, notify_wakes}
use unsend.Event.Returns.{Returns, returns}
use unsend.Event.Rep.{waiter_state, Rep, notice_cells, notice_cell, waiter_cells}
use unsend.Event.Linked.{Linked}
use unsend.Event.Remove.{Unlinked, remove_lem}
use unsend.Event.Unlink.{cells-notice, cells-waiter, Rep-unlink_notice, Rep-unlink_waiter}
use unsend.Event.Notify.{inner_notify_lem}

module _ {T : Type 0} where
  after_decrement_notified :
      {A : Type 0} {P : A → World T → Type 0} (w : World T) (k : Unit {0} → Cmd T A)
      → 0 < w.inner.notified
      → Returns P (k tt (record w { inner = record w.inner { notified = w.inner.notified - 1 } }))
      → Returns P (and_then (decrement_notified w.inner w) k)
  unfolding decrement_notified
  after_decrement_notified w k pos r =
      let e : (w.inner.notified == 0) ≡ false = ground arith in rw (e, decrement_notified) r

  one_tag :
      (extra : Bool) (t : T) → Draws single 1 (record { additional = extra; tag = some t }) (λ _. t)
  unfolding single
  one_tag extra t = (record { additional = extra; tag = none }, refl, tt)

  -- The outcome of a removal: its result, the queue that is left, and the wakers called.
  abbrev pub Outcome : World T → Option T → Queue T → List Waker → Option T → World T → Type 0
  Outcome w r q vs r' w' = (r' ≡ r) × Becomes w q vs w'

  module _ (w : World T) (ys : List (Notice T)) (x : Notice T) (zs : List (Notice T))
      (ws : List Waiter) (r : Rep w (queue (ys ++ x ∷ zs) ws)) where
    linked : Linked w (notice_cells ys ++ notice_cell x ∷ (notice_cells zs ++ waiter_cells ws))
    linked = rw (← cells-notice ys x zs ws) r.linked

    some_len : 0 < w.inner.len
    some_len = omega (arith, r.len, length-append ys (x ∷ zs))

    module _ (u : World T)
        (k : Unlinked w x.id (notice_cells ys) (notice_cells zs ++ waiter_cells ws) u) where
      some_notified : 0 < u.inner.notified
      some_notified = omega (arith, k.notified, r.notified, length-append ys (x ∷ zs))

      settle_keep :
          Returns
            (Outcome w (some x.tag) (queue (ys ++ zs) ws) [])
            (settle false (notified x.tag x.extra) u)
      unfolding settle
      settle_keep = after_decrement_notified u _ some_notified (
          returns (
            refl,
            record {
              rep = Rep-unlink_notice w u ys x zs ws r k;
              woken = k.woken ∙ sym (append-nil w.woken);
              live = k.live;
            },
          ))

      settle_pass :
          let q = queue (ys ++ zs) ws in
          Returns
            (Outcome w none (notify 1 x.extra (λ _. x.tag) q) (notify_wakes 1 x.extra q))
            (settle true (notified x.tag x.extra) u)
      unfolding settle single
      settle_pass = after_decrement_notified u _ some_notified (
          Returns.bind
            (inner_notify_lem single _ (λ _. x.tag) _ _ (Rep-unlink_notice w u ys x zs ws r k)
              (one_tag x.extra x.tag))
            λ _ w' (_, _, b). returns (
              refl,
              record {
                rep = b.rep;
                woken = rw (← k.woken) b.woken;
                live = λ a. b.live a ∙ k.live a;
              },
            ))

    pub remove_keep :
        Returns (Outcome w (some x.tag) (queue (ys ++ zs) ws) []) (remove x.id false w)
    remove_keep = remove_lem w x.id _ _ _ linked false some_len settle_keep

    pub remove_pass :
        let q = queue (ys ++ zs) ws in
        Returns
          (Outcome w none (notify 1 x.extra (λ _. x.tag) q) (notify_wakes 1 x.extra q))
          (remove x.id true w)
    remove_pass = remove_lem w x.id _ _ _ linked true some_len settle_pass

  settle-waiter_state :
      (propagate : Bool) (o : Option Waker) (u : World T)
      → settle propagate (waiter_state o) u ≡ ok (none, u)
  unfolding settle
  settle-waiter_state propagate none u = refl
  settle-waiter_state propagate (some v) u = refl

  pub remove_waiter :
      (w : World T) (propagate : Bool) (ns : List (Notice T)) (ys : List Waiter) (x : Waiter)
      (zs : List Waiter)
      → Rep w (queue ns (ys ++ x ∷ zs))
      → Returns (Outcome w none (queue ns (ys ++ zs)) []) (remove x.id propagate w)
  remove_waiter w propagate ns ys x zs r =
      remove_lem w x.id (waiter_state x.waker) _ _ (rw (← cells-waiter ns ys (x ∷ zs)) r.linked)
        propagate (omega (arith, r.len, length-append ys (x ∷ zs)))
        λ u k. rw (settle-waiter_state propagate x.waker u) (
          returns (
            refl,
            record {
              rep = Rep-unlink_waiter w u ns ys x zs r k;
              woken = k.woken ∙ sym (append-nil w.woken);
              live = k.live;
            },
          ))

-- ===== src/Event/Freeing.antt =====
-- `Drop` of a listener: it leaves the list before its memory goes.
use unsend.Event.Returns
use unsend.Event.Listener
use unsend.Queue
use unsend.Event.World.{World, Pointer, update, Listener, Waker, put, ◌>>◌, notified}
use unsend.Queue.{
  Queue, in_queue, Notice, Waiter, drop_wakes, notify_wakes, find_notice, in_waiters,
}
use unsend.Event.Rep.{
  Rep, cells, has-cells, in_list-in_queue, notice_cells, waiter_cells, waiter_state,
}
use unsend.Base.{
  ◌≡◌, false, none, some, is_some, arith, List, ◌++◌, if◌then◌else◌, ◌∷◌, ◌==◌, [], true,
  Option-cases, subst, inr, ◌∙◌, inl, Bool-cases, sym, append-nil, refl, Option,
}
use unsend.Event.Chain.{frame, has-in_list, Distinct-middle}
use unsend.Event.Returns.{Returns, returns}
use unsend.Event.Deliver.{Becomes, queue}
use unsend.Event.Linked.{load-ok}
use unsend.Event.Dropping.{remove_pass, remove_waiter, Outcome}
use unsend.Queue.Split.{
  notice_split, in_queue-notify, find_notice-some, drop-some, drop_wakes-some, waiter_split,
  find_notice-none, drop-none, drop_wakes-none, erase_waiter-out,
}
use unsend.Event.Unlink.{cells-without_notice, cells-waiter, cells-notice}

module _ {T : Type 0} where
  -- Memory that no entry lives in may go.
  Rep-free :
      (w : World T) (q : Queue T) (a : Pointer)
      → Rep w q
      → in_queue a q ≡ false
      → Rep (record w { memory = update w.memory a none }) q
  Rep-free w q a r o = record {
    linked = record {
      head = r.linked.head;
      tail = r.linked.tail;
      chain =
          frame w.memory _ none (cells q) none r.linked.chain λ b i. ground (arith, has-cells a q);
      distinct = r.linked.distinct;
      outside = λ b l out e. ground (arith, r.linked.outside b l);
    };
    first = r.first;
    notified = r.notified;
    len = r.len;
  }

  -- A fresh listener is not in the list.
  pub Rep-new :
      (w : World T) (q : Queue T) (a : Pointer)
      → Rep w q
      → w.memory a ≡ none
      → Rep
          (record w {
            memory =
                update w.memory a (some (record { in_list = false; entry = Listener.empty_entry }));
          })
          q
  Rep-new w q a r e = record {
    linked = record {
      head = r.linked.head;
      tail = r.linked.tail;
      chain = frame w.memory _ none (cells q) none r.linked.chain λ b i.
          let (l', e', _) = has-in_list w.memory none (cells q) none b r.linked.chain i in
          ground arith;
      distinct = r.linked.distinct;
      outside = λ b l out h. ground (arith, r.linked.outside b l);
    };
    first = r.first;
    notified = r.notified;
    len = r.len;
  }

  -- What is left when the listener at `a` is dropped.
  pub record Dropped (w : World T) (q : Queue T) (a : Pointer) (vs : List Waker) (w' : World T)
      : Type 0 where
    pub rep : Rep w' q
    pub woken : w'.woken ≡ w.woken ++ vs
    pub live :
        (b : Pointer) → is_some (w'.memory b) ≡ (if b == a then false else is_some (w.memory b))

  Dropped-Becomes :
      (w : World T) (q : Queue T) (a : Pointer) (vs : List Waker) (w' : World T)
      → Becomes w q vs w'
      → in_queue a q ≡ false
      → Returns (λ _. Dropped w q a vs) (put a none w')
  Dropped-Becomes w q a vs w' b o = returns (record {
    rep = Rep-free w' q a b.rep o;
    woken = b.woken;
    live = λ c. ground (arith, b.live c);
  })

  drop_in_list_lem :
      (a : Pointer) {w : World T} {r : Option T} {q : Queue T} {vs : List Waker}
      → Returns (Outcome w r q vs) (Listener.remove a true w)
      → Returns (λ _. Becomes w q vs) (Listener.drop_in_list a true w)
  unfolding Listener.drop_in_list
  drop_in_list_lem a h = Returns.bind h λ _ w' o. returns o.1

  drop_notice :
      (w : World T) (q : Queue T) (x : Notice T) (ys zs : List (Notice T))
      → Rep w q
      → q.notices ≡ ys ++ x ∷ zs
      → Returns
          (λ _.
            Dropped w
              (Queue.notify 1 x.extra (λ _. x.tag) (queue (ys ++ zs) q.waiters))
              x.id
              (notify_wakes 1 x.extra (queue (ys ++ zs) q.waiters)))
          ((Listener.drop_in_list x.id true >> put x.id none) w)
  drop_notice w q x ys zs r p =
      let r' : Rep w (queue (ys ++ x ∷ zs) q.waiters) =
        subst (λ ns. Rep w (queue ns q.waiters)) p r in
      Returns.bind (drop_in_list_lem x.id (remove_pass w ys x zs q.waiters r')) λ _ w' b.
        Dropped-Becomes w _ x.id _ w' b (
          in_queue-notify x.id 1 x.extra (λ _. x.tag) (queue (ys ++ zs) q.waiters)
          ∙ sym (has-cells x.id (queue (ys ++ zs) q.waiters))
          ∙ rw (cells-without_notice ys zs q.waiters) (
              Distinct-middle (notice_cells ys) x.id (notified x.tag x.extra) _
                (rw (← cells-notice ys x zs q.waiters) r'.linked.distinct)))

  drop_waiter :
      (w : World T) (q : Queue T) (x : Waiter) (ys zs : List Waiter)
      → Rep w q
      → q.waiters ≡ ys ++ x ∷ zs
      → Returns
          (λ _. Dropped w (queue q.notices (ys ++ zs)) x.id [])
          ((Listener.drop_in_list x.id true >> put x.id none) w)
  drop_waiter w q x ys zs r p =
      let r' : Rep w (queue q.notices (ys ++ x ∷ zs)) =
        subst (λ ws. Rep w (queue q.notices ws)) p r in
      Returns.bind (drop_in_list_lem x.id (remove_waiter w true q.notices ys x zs r')) λ _ w' b.
        Dropped-Becomes w _ x.id _ w' b (
          sym (has-cells x.id (queue q.notices (ys ++ zs)))
          ∙ rw (cells-waiter q.notices ys zs) (
              Distinct-middle (notice_cells q.notices ++ waiter_cells ys) x.id
                (waiter_state x.waker) _
                (rw (← cells-waiter q.notices ys (x ∷ zs)) r'.linked.distinct)))

  pub drop_lem :
      (w : World T) (q : Queue T) (a : Pointer) (l : Listener T)
      → Rep w q
      → w.memory a ≡ some l
      → Returns (λ _. Dropped w (Queue.drop a q) a (drop_wakes a q)) (Listener.drop a w)
  unfolding Listener.drop Listener.drop_in_list
  drop_lem w q a l r e =
      rw (load-ok w a e, in_list-in_queue w q a l r e)
        (elim (Option-cases (find_notice a q.notices)) [
          | inr (x, f) ↦
              let (ys, zs, p, s, h) = notice_split a q.notices x f in
              let i = find_notice-some a q.notices x f in
              rw (i, drop-some a q x f, drop_wakes-some a q x f, s, h) (drop_notice w q x ys zs r p)
          | inl f ↦ elim (Bool-cases (in_waiters a q.waiters)) [
            | inl i ↦
                let (ys, x, zs, p, s, _, h) = waiter_split a 0 q.waiters i in
                rw
                  (
                    find_notice-none a q.notices f,
                    i,
                    drop-none a q f,
                    drop_wakes-none a q f,
                    s,
                    ← h,
                  )
                  (drop_waiter w q x ys zs r p)
            | inr o ↦
                rw
                  (
                    find_notice-none a q.notices f,
                    o,
                    drop-none a q f,
                    drop_wakes-none a q f,
                    erase_waiter-out a q.waiters o,
                  )
                  (Dropped-Becomes w q a [] w
                    (record { rep = r; woken = sym (append-nil w.woken); live = λ b. refl })
                    (ground (arith, find_notice-none a q.notices f)))
          ]
        ])

-- ===== src/Event/Polling.antt =====
-- `new`, `listen` and `poll` of a listener refine the queue's operations.
use unsend.Event.Returns
use unsend.Event.Listener
use unsend.Queue
use unsend.Event.World.{
  ◌>>◌, World, Pointer, Listener, Waker, created, notified, waiting, set_state, pure,
}
use unsend.Queue.{Queue, in_queue, Waiter, Notice, registered, find_notice}
use unsend.Event.Rep.{
  Rep, in_list-in_queue, cells, waiter_cells, notice_cells, notice_cell, waiter_cell, waiter_state,
}
use unsend.Base.{
  ◌≡◌, some, [], Bool-cases, List, inl, if◌then◌else◌, ◌++◌, none, sym, ◌∷◌, is_none, append-nil,
  arith, inr, ◌∙◌, length-append, refl, ap, Option, true, append_assoc, Option-cases, ◌==◌, subst,
}
use unsend.Event.Returns.{Returns, returns}
use unsend.Event.Deliver.{Becomes, queue}
use unsend.Event.Linked.{load-ok, Linked, Linked-set_state, after_load, after_store, update_self}
use unsend.Event.Insert.{Inserted, insert_lem}
use unsend.Event.Chain.{first_or, Chain-append_right}
use unsend.Event.Dropping.{Outcome, remove_keep}
use unsend.Event.Unlink.{cells-waiter, cells-notice}
use unsend.Queue.Split.{
  waiter_split, find_notice-none, notice_split, poll_result-none, in_queue-listen, registered-none,
  poll_result-listen, poll_result-some, registered-some,
}

first-set_waker :
    (T : Type 0) (ys : List Waiter) (x x' : Waiter) (zs : List Waiter)
    → x.id ≡ x'.id
    → first_or {T = T} (waiter_cells (ys ++ x ∷ zs)) none
      ≡ first_or {T = T} (waiter_cells (ys ++ x' ∷ zs)) none
first-set_waker T [] x x' zs e = ap some e
first-set_waker T (y ∷ ys) x x' zs e = refl

module _ {T : Type 0} where
  Inserted-Becomes :
      (w w' : World T) (q : Queue T) (a : Pointer)
      → Rep w q
      → Inserted w a (cells q) w'
      → Becomes w (Queue.insert a q) [] w'
  unfolding Queue.insert
  Inserted-Becomes w w' q a r k = record {
    rep = record {
      linked =
          rw (cells-waiter q.notices q.waiters (record { id = a; waker = none } ∷ [])) k.linked;
      first = inserted_first q.waiters r.first k.first;
      notified = k.notified ∙ r.notified;
      len =
          omega
            (arith, k.len, r.len, length-append q.waiters (record { id = a; waker = none } ∷ []));
    };
    woken = k.woken ∙ sym (append-nil w.woken);
    live = k.live;
  }
    where
      inserted_first :
          (ws : List Waiter)
          → w.inner.first ≡ first_or {T = T} (waiter_cells ws) none
          → w'.inner.first ≡ (if is_none w.inner.first then some a else w.inner.first)
          → w'.inner.first
            ≡ first_or {T = T} (waiter_cells (ws ++ record { id = a; waker = none } ∷ [])) none
      inserted_first [] e h = ground arith
      inserted_first (y ∷ ws) e h = ground arith

  pub listen_lem :
      (w : World T) (q : Queue T) (a : Pointer) (l : Listener T)
      → Rep w q
      → w.memory a ≡ some l
      → Returns (λ _. Becomes w (Queue.listen a q) []) (Listener.listen a w)
  unfolding Listener.listen Queue.listen
  listen_lem w q a l r e =
      rw (load-ok w a e, in_list-in_queue w q a l r e)
        (elim (Bool-cases (in_queue a q)) [
          | inl i ↦
              rw (i, if◌then◌else◌)
                (returns (record { rep = r; woken = sym (append-nil w.woken); live = λ b. refl }))
          | inr o ↦
              rw (o, if◌then◌else◌)
                (Returns.mono (insert_lem e (in_list-in_queue w q a l r e ∙ o) (cells q) r.linked)
                  λ _ w'. Inserted-Becomes w w' q a r)
        ])

  -- Two writes to the state of a notified listener that end with the state it had.
  register_notice :
      (w : World T) (v : Waker) (ys : List (Notice T)) (x : Notice T) (zs : List (Notice T))
      (ws : List Waiter)
      → Rep w (queue (ys ++ x ∷ zs) ws)
      → Returns (Outcome w (some x.tag) (queue (ys ++ zs) ws) []) (Listener.register x.id v w)
  unfolding Listener.register Listener.register_state
  register_notice w v ys x zs ws r =
      let k : Linked w (notice_cells ys ++ notice_cell x ∷ (notice_cells zs ++ waiter_cells ws)) =
        rw (← cells-notice ys x zs ws) r.linked in
      let held = (Chain-append_right w.memory none (notice_cells ys) _ none k.chain).0 in
      let k₁ = Linked-set_state w (notice_cells ys) _ x.id _ created k in
      let k₂ = Linked-set_state _ (notice_cells ys) _ x.id _ (notified x.tag x.extra) k₁ in
      let r₂ : Rep _ (queue (ys ++ x ∷ zs) ws) = record {
        linked = rw (cells-notice ys x zs ws) k₂;
        first = r.first;
        notified = r.notified;
        len = r.len;
      } in
      after_load w x.id _ held (
        after_store w x.id _ _ held (
          after_store _ x.id _ _ (update_self w.memory x.id _) (
            Returns.bind (remove_keep _ ys x zs ws r₂) λ t w' (e, b). rw e (
              returns (
                refl,
                record {
                  rep = b.rep;
                  woken = b.woken;
                  live = λ c. b.live c ∙ ground (arith, held);
                },
              )))))

  register_state-waiter :
      (a : Pointer) (v : Waker) (o : Option Waker) (u : World T)
      → Listener.register_state a v (waiter_state o) u
        ≡ (do set_state a (waiting v); pure {T = T} {A = Option T} none) u
  unfolding Listener.register_state
  register_state-waiter a v none u = refl
  register_state-waiter a v (some task) u =
      let e : (if task == v then task else v) ≡ v = ground arith in rw e

  register_waiter :
      (w : World T) (v : Waker) (ns : List (Notice T)) (ys : List Waiter) (x : Waiter)
      (zs : List Waiter)
      → Rep w (queue ns (ys ++ x ∷ zs))
      → Returns
          (Outcome w none (queue ns (ys ++ record { id = x.id; waker = some v } ∷ zs)) [])
          (Listener.register x.id v w)
  unfolding Listener.register
  register_waiter w v ns ys x zs r =
      let k : Linked w ((notice_cells ns ++ waiter_cells ys) ++ waiter_cell x ∷ waiter_cells zs) =
        rw (← cells-waiter ns ys (x ∷ zs)) r.linked in
      let held =
        (Chain-append_right w.memory none (notice_cells ns ++ waiter_cells ys) _ none k.chain).0 in
      after_load w x.id _ held (
        after_store w x.id _ _ held (
          rw (register_state-waiter x.id v x.waker) (
            after_store _ x.id _ _ (update_self w.memory x.id _) (
              returns (
                refl,
                record {
                  rep = record {
                    linked = rw (cells-waiter ns ys (x' ∷ zs)) (
                        Linked-set_state _ _ _ x.id _ (waiting v)
                          (Linked-set_state w _ _ x.id _ created k));
                    first = r.first ∙ first-set_waker T ys x x' zs refl;
                    notified = r.notified;
                    len =
                        omega (arith, r.len, length-append ys (x ∷ zs), length-append ys (x' ∷ zs));
                  };
                  woken = sym (append-nil w.woken);
                  live = λ c. ground (arith, held);
                },
              )))))
    where
      x' : Waiter
      x' = record { id = x.id; waker = some v }

  -- `register` at a listener of the queue.
  register_lem :
      (w : World T) (q : Queue T) (a : Pointer) (v : Waker)
      → Rep w q
      → in_queue a q ≡ true
      → Returns (Outcome w (Queue.poll_result a q) (registered a v q) []) (Listener.register a v w)
  register_lem w q a v r i = elim (Option-cases (find_notice a q.notices)) [
    | inl e ↦
        let (ys, x, zs, p, _, s, h) =
          waiter_split a v q.waiters (ground (arith, find_notice-none a q.notices)) in
        rw (poll_result-none a q e, registered-none a v q e, s, ← h)
          (register_waiter w v q.notices ys x zs (subst (λ ws. Rep w (queue q.notices ws)) p r))
    | inr (x, e) ↦
        let (ys, zs, p, s, h) = notice_split a q.notices x e in
        rw (poll_result-some a q x e, registered-some a v q x e, s, h)
          (register_notice w v ys x zs q.waiters (subst (λ ns. Rep w (queue ns q.waiters)) p r))
  ]

  -- `poll` takes the tag of a listener that was notified, and leaves any other waiting.
  pub poll_lem :
      (w : World T) (q : Queue T) (a : Pointer) (v : Waker) (l : Listener T)
      → Rep w q
      → w.memory a ≡ some l
      → Returns (Outcome w (Queue.poll_result a q) (Queue.poll a v q) []) (Listener.poll a v w)
  unfolding Listener.poll Queue.poll
  poll_lem w q a v l r e = Returns.bind (listen_lem w q a l r e) λ _ w' b.
      Returns.mono (register_lem w' (Queue.listen a q) a v b.rep (in_queue-listen a q))
        λ t w'' (h, c). (
          h ∙ poll_result-listen a q,
          record {
            rep = c.rep;
            woken = c.woken ∙ ap (λ vs. vs ++ []) b.woken ∙ append_assoc w.woken [] [];
            live = λ d. c.live d ∙ b.live d;
          },
        )

-- ===== src/Event/Simulation.antt =====
-- What each operation of src/event.rs over the pointers does to the queue that specifies it.
use unsend.Event.Returns
use unsend.Event.Listener
use unsend.Event.Inner
use unsend.Queue
use unsend.Event.World.{World, Pointer, Waker, Listener}
use unsend.Event.Program.{set_live, tagged, Spec}
use unsend.Base.{
  Bool, ℕ, ◌≡◌, List, is_some, [], true, ◌+◌, ◌++◌, ◌∙◌, ap, append-nil, some, Option-cases, inl,
  arith, inr, false, suc, none, sym, zero, if◌then◌else◌, ◌==◌, ==_iff,
}
use unsend.Queue.{Queue, delivered, quota, notify_wakes, drop_wakes}
use unsend.Event.Rep.{Rep}
use unsend.Event.Deliver.{Becomes, Draws}
use unsend.Event.Returns.{Returns, returns}
use unsend.Event.Freeing.{Rep-new, drop_lem}
use unsend.Event.Polling.{listen_lem, poll_lem}
use unsend.Event.Notify.{notify_lem}

pub set_live-same : (live : Pointer → Bool) (a : Pointer) (x : Bool) → set_live live a x a ≡ x
set_live-same live a x = ground (arith, ==_iff a a)

pub set_live-kept :
    (live : Pointer → Bool) (a : Pointer) (x : Bool)
    → live a ≡ x
    → (b : Pointer) → live b ≡ set_live live a x b
set_live-kept live a x h b = ground (arith, h, ==_iff b a)

pub set_live-twice :
    (live : Pointer → Bool) (a : Pointer) (x y : Bool) (b : Pointer)
    → set_live (set_live live a x) a y b ≡ set_live live a y b
set_live-twice live a x y b = ground arith

module _ {T : Type 0} where
  pub record Sim (w : World T) (s : Spec T) : Type 0 where
    pub rep : Rep w s.queue
    pub woken : w.woken ≡ s.woken
    pub live : (a : Pointer) → is_some (w.memory a) ≡ s.live a

  Sim-Becomes :
      (w w' : World T) (s : Spec T) (q : Queue T) (vs : List Waker)
      → Sim w s
      → Becomes w q vs w'
      → Sim w' (record s { queue = q; woken = s.woken ++ vs })
  Sim-Becomes w w' s q vs m b = record {
    rep = b.rep;
    woken = b.woken ∙ ap (λ us. us ++ vs) m.woken;
    live = λ a. b.live a ∙ m.live a;
  }

  Sim-quiet :
      (w w' : World T) (s : Spec T) (q : Queue T)
      → Sim w s
      → Becomes w q [] w'
      → Sim w' (record s { queue = q })
  Sim-quiet w w' s q m b = record {
    rep = b.rep;
    woken = b.woken ∙ append-nil w.woken ∙ m.woken;
    live = λ a. b.live a ∙ m.live a;
  }

  live-some :
      (w : World T) (s : Spec T) (a : Pointer)
      → Sim w s
      → s.live a ≡ true
      → (l : Listener T) × (w.memory a ≡ some l)
  live-some w s a m h = elim (Option-cases (w.memory a)) [
    | inl e ↦ absurd (ground (arith, m.live a))
    | inr p ↦ p
  ]

  dead-none :
      (w : World T) (s : Spec T) (a : Pointer) → Sim w s → s.live a ≡ false → w.memory a ≡ none
  dead-none w s a m h = elim (Option-cases (w.memory a)) [
    | inl e ↦ e
    | inr (l, e) ↦ absurd (ground (arith, m.live a))
  ]

  tagged-Draws :
      (extra : Bool) (f g : ℕ → T) (k count i : ℕ)
      → ((j : ℕ) → g j ≡ f (i + j))
      → Draws (tagged extra f) k (count, i) g
  unfolding tagged
  tagged-Draws extra f g zero count i h = tt
  tagged-Draws true f g (suc k) count i h = (
    (count, suc i),
    ap (λ t. some (t, (count, suc i))) (sym (h 0 ∙ ap f (omega arith))),
    tagged-Draws true f (λ j. g (suc j)) k count (suc i) λ j. h (suc j) ∙ ap f (omega arith),
  )
  tagged-Draws false f g (suc k) count i h = (
    (count, suc i),
    ap (λ t. some (t, (count, suc i))) (sym (h 0 ∙ ap f (omega arith))),
    tagged-Draws false f (λ j. g (suc j)) k count (suc i) λ j. h (suc j) ∙ ap f (omega arith),
  )

  pub notify_refines :
      (count : ℕ) (extra : Bool) (f : ℕ → T) (w : World T) (s : Spec T)
      → Sim w s
      → Returns
          (λ r w'.
            (r.0 ≡ delivered (quota count extra s.queue) s.queue.waiters)
            × Becomes w (Queue.notify count extra f s.queue) (notify_wakes count extra s.queue) w')
          (Inner.notify (tagged extra f) (count, 0) w)
  unfolding tagged
  notify_refines count true f w s m =
      Returns.mono
        (notify_lem (tagged true f) (count, 0) f w s.queue m.rep
          (tagged-Draws true f f count count 0 λ j. ap f (omega arith)))
        λ r w' (p, _, b). (p, b)
  notify_refines count false f w s m =
      Returns.mono
        (notify_lem (tagged false f) (count, 0) f w s.queue m.rep
          (tagged-Draws false f f count count 0 λ j. ap f (omega arith)))
        λ r w' (p, _, b). (p, b)

  pub new-Sim :
      (a : Pointer) (w : World T) (s : Spec T)
      → Sim w s
      → s.live a ≡ false
      → Returns (λ r w'. Sim w' (record s { live = set_live s.live a true })) (Listener.new a w)
  unfolding Listener.new
  new-Sim a w s m h = returns (record {
    rep = Rep-new w s.queue a m.rep (dead-none w s a m h);
    woken = m.woken;
    live = λ b. ground (arith, m.live b);
  })

  pub listen-Sim :
      (a : Pointer) (w : World T) (s : Spec T)
      → Sim w s
      → s.live a ≡ true
      → Returns (λ r w'. Sim w' (record s { queue = Queue.listen a s.queue })) (Listener.listen a w)
  listen-Sim a w s m h =
      let (l, e) = live-some w s a m h in
      Returns.mono (listen_lem w s.queue a l m.rep e) λ _ w' b. Sim-quiet w w' s _ m b

  pub poll-Sim :
      (a : Pointer) (v : Waker) (w : World T) (s : Spec T)
      → Sim w s
      → s.live a ≡ true
      → Returns
          (λ r w'.
            (r ≡ Queue.poll_result a s.queue)
            × Sim w' (record s { queue = Queue.poll a v s.queue }))
          (Listener.poll a v w)
  poll-Sim a v w s m h =
      let (l, e) = live-some w s a m h in
      Returns.mono (poll_lem w s.queue a v l m.rep e) λ r w' (p, b). (p, Sim-quiet w w' s _ m b)

  pub drop-Sim :
      (a : Pointer) (w : World T) (s : Spec T)
      → Sim w s
      → s.live a ≡ true
      → Returns
          (λ r w'. Sim w' (record {
            queue = Queue.drop a s.queue;
            woken = s.woken ++ drop_wakes a s.queue;
            live = set_live s.live a false;
          }))
          (Listener.drop a w)
  drop-Sim a w s m h =
      let (l, e) = live-some w s a m h in
      Returns.mono (drop_lem w s.queue a l m.rep e) λ _ w' d. record {
        rep = d.rep;
        woken = d.woken ∙ ap (λ us. us ++ drop_wakes a s.queue) m.woken;
        live = λ b. d.live b ∙ ap (λ c. if b == a then false else c) (m.live b);
      }

  pub notify-Sim :
      (count : ℕ) (extra : Bool) (f : ℕ → T) (w : World T) (s : Spec T)
      → Sim w s
      → Returns
          (λ r w'.
            (r.0 ≡ delivered (quota count extra s.queue) s.queue.waiters)
            × Sim w' (record s {
              queue = Queue.notify count extra f s.queue;
              woken = s.woken ++ notify_wakes count extra s.queue;
            }))
          (Inner.notify (tagged extra f) (count, 0) w)
  notify-Sim count extra f w s m =
      Returns.mono (notify_refines count extra f w s m)
        λ r w' (p, b). (p, Sim-Becomes w w' s _ _ m b)

-- ===== src/Event/Deliver.antt =====
-- The loop of `Inner::notify` delivers to the front of the waiters.
use unsend.Event.Returns
use unsend.Event.Notification.{Notification}
use unsend.Base.{
  List, ℕ, Option, Bool, suc, ◌≡◌, some, ◌++◌, ◌∷◌, to_list, [], zero, append-nil, ◌+◌, none, refl,
  append_assoc, arith, length-append, sym, ◌∙◌, ap, subst,
}
use unsend.Event.World.{
  World, Waker, ok, update, notified, Pointer, Waker, Waker, Waker, Waker, Waker, Waker, Waker,
  Waker, Waker, Waker, Waker, Waker, Waker, Waker, Waker, Waker, Waker, Waker, Waker, Waker, Waker,
  Waker, Waker, Waker, Waker,
}
use unsend.Event.Inner.{wake_state, notify_loop, next_tag}
use unsend.Queue.{Notice, Queue, Waiter, deliver, delivered, wakers, drop_front}
use unsend.Event.Rep.{
  Rep, waiter_state, cells, notice_cells, notice_cell, waiter_cells, notice_cells-append,
}
use unsend.Event.Linked.{SameLive, Linked-set_state, after_load, after_store, Linked-header}
use unsend.Event.Returns.{Returns, returns}
use unsend.Event.Chain.{first_or, cell, last_or, Chain-append_right}

-- `n` in the state `s` hands out the tags `f 0`, `f 1` and so on, `k` times.
abbrev pub Draws : {N T : Type 0} → Notification N T → ℕ → N → (ℕ → T) → Type 0
Draws n zero s f = Unit {0}
Draws {N} n (suc k) s f = (s' : N) × (n.next_tag s ≡ some (f 0, s')) × Draws n k s' (λ i. f (suc i))

-- The state of the notification after `k` tags.
unfoldable pub drawn : {N T : Type 0} → Notification N T → ℕ → N → N
drawn n zero s = s
drawn n (suc k) s = elim (n.next_tag s) [ none ↦ s | some (t, s') ↦ drawn n k s' ]

module _ {T : Type 0} where
  abbrev pub queue : List (Notice T) → List Waiter → Queue T
  queue ns ws = record { notices = ns; waiters = ws }

  -- `w'` stands for `q`, the wakers `vs` were called, and no listener came or went.
  pub record Becomes (w : World T) (q : Queue T) (vs : List Waker) (w' : World T) : Type 0 where
    pub rep : Rep w' q
    pub woken : w'.woken ≡ w.woken ++ vs
    pub live : SameLive w w'

  wake_state-ok :
      (o : Option Waker) (w : World T)
      → wake_state (waiter_state o) w ≡ ok (tt, record w { woken = w.woken ++ to_list o })
  unfolding wake_state
  wake_state-ok none w = rw (append-nil w.woken)
  wake_state-ok (some v) w = refl

  cells-deliver_one :
      (ns : List (Notice T)) (n : Notice T) (ws : List Waiter)
      → cells (queue (ns ++ n ∷ []) ws) ≡ notice_cells ns ++ notice_cell n ∷ waiter_cells ws
  cells-deliver_one ns n ws = rw (notice_cells-append ns (n ∷ []), append_assoc (notice_cells ns))

  -- The first waiter becomes the last notice.
  Rep-deliver_one :
      (w : World T) (ns : List (Notice T)) (x : Waiter) (ws : List Waiter) (t : T) (extra : Bool)
      (vs : List Waker)
      → Rep w (queue ns (x ∷ ws))
      → let xs = notice_cells ns in
        Rep
          (record {
            inner = record w.inner {
              first = first_or {T = T} (waiter_cells ws) none;
              notified = w.inner.notified + 1;
            };
            memory = update w.memory x.id (
                cell
                  (last_or none xs)
                  (first_or {T = T} (waiter_cells ws) none)
                  (notified t extra));
            woken = vs;
          })
          (queue (ns ++ record { id = x.id; tag = t; extra = extra } ∷ []) ws)
  Rep-deliver_one w ns x ws t extra vs r =
      let k =
        Linked-set_state w (notice_cells ns) (waiter_cells ws) x.id (waiter_state x.waker)
          (notified t extra) r.linked in
      let e = cells-deliver_one ns (record { id = x.id; tag = t; extra = extra }) ws in
      record {
        linked = rw e (Linked-header _ _ _ vs k);
        first = refl;
        notified = omega (
          arith,
          r.notified,
          length-append ns (record { id = x.id; tag = t; extra = extra } ∷ []),
        );
        len =
            omega
              (arith, r.len, length-append ns (record { id = x.id; tag = t; extra = extra } ∷ []));
      }

  Rep-first :
      (w : World T) (o : Option Pointer) (q : Queue T)
      → Rep w q
      → o ≡ first_or {T = T} (waiter_cells q.waiters) none
      → Rep (record w { inner = record w.inner { first = o } }) q
  Rep-first w o q r e = record {
    linked = Linked-header o _ _ w.woken r.linked;
    first = e;
    notified = r.notified;
    len = r.len;
  }

next_tag-ok :
    {N T : Type 0} (n : Notification N T) (s : N) {r : T × N} {w : World T}
    → n.next_tag s ≡ some r
    → next_tag n s w ≡ ok (r, w)
unfolding next_tag
next_tag-ok n s e = rw (e, next_tag)

module _ {N T : Type 0} (n : Notification N T) (extra : Bool) where
  pub notify_loop_lem :
      (count : ℕ) (s : N) (done : ℕ) (f : ℕ → T) (w : World T) (ns : List (Notice T))
      (ws : List Waiter)
      → Draws n count s f
      → Rep w (queue ns ws)
      → Returns
          (λ r w'.
            (r ≡ (done + delivered count ws, drawn n (delivered count ws) s))
            × Becomes w (deliver count extra f (queue ns ws)) (wakers count ws) w')
          (notify_loop n extra count s done w)
  unfolding notify_loop deliver delivered drawn wakers
  notify_loop_lem zero s done f w ns ws d r = returns (
    ground arith,
    record { rep = rw (append-nil ns) r; woken = sym (append-nil w.woken); live = λ a. refl },
  )
  notify_loop_lem (suc count) s done f w ns [] d r = rw r.first (
      returns (
        ground arith,
        record {
          rep = rw (append-nil ns) (Rep-first w none (queue ns []) r refl);
          woken = sym (append-nil w.woken);
          live = λ a. refl;
        },
      ))
  notify_loop_lem (suc count) s done f w ns (x ∷ ws) (s', e, d) r =
      let held =
        Chain-append_right w.memory none (notice_cells ns) (waiter_cells (x ∷ ws)) none
          r.linked.chain in
      let vs = w.woken ++ to_list x.waker in
      rw r.first (
        after_load _ x.id _ held.0 (
          rw (next_tag-ok n s e) (
            after_store _ x.id _ _ held.0 (
              rw (wake_state-ok x.waker) (
                Returns.mono
                  (notify_loop_lem count s' (done + 1) (λ i. f (suc i)) _ _ ws d
                    (Rep-deliver_one w ns x ws (f 0) extra vs r))
                  λ r' w' (result, b). (
                    rw (e, drawn)
                        (result ∙ ap (λ k. (k, drawn n (delivered count ws) s')) (omega arith)),
                    record {
                      rep =
                          subst (λ ms. Rep w' (queue ms (drop_front count ws)))
                            (append_assoc ns _ _) b.rep;
                      woken = b.woken ∙ append_assoc w.woken _ _;
                      live = λ a. b.live a ∙ ground (arith, held.0);
                    },
                  ))))))

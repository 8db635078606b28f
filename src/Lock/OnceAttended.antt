-- ===== src/Lock/OnceAttended.antt =====
-- Who is in the `active` event of the cell of src/lock/once_cell.rs in any use, and who writes.
use unsend.Queue
use unsend.Lock.OnceCell
use unsend.Base.{
  refl, inl, inr, ℕ, ◌≡◌, ◌≢◌, true, false, if◌then◌else◌, ◌==◌, arith, ==_iff, ◌∙◌, sym,
}
use unsend.Lock.OnceCell.{
  OnceCell, Answer, unready, success, failure, InitFuture, fresh, listening, setting, over,
  InitPoll, get_or_try_init, set_value, init_turn, init_after, init_fuel, drop_init, got_value,
  failed, sets, poll_active, unwrite, drop_active, try_init,
}
use unsend.Lock.OnceUse.{Polled, is_setting, init-Polled}
use unsend.Lock.OnceCell.{listens, without_fuel, store}
use unsend.Lock.OnceSole.{
  Initializers, Initialized, unwritten, begins_init, polls_init, drops_init, init_step,
  drop_init_step, set_init, Initialized-Sole,
}
use unsend.Lock.OnceAwake.{listens_on, Awake, get_or_try_init-After, drop_init-Awake}
use unsend.Queue.{in_notices, poll_result, Notice}
use unsend.Queue.Occurs.{occurs, occurs-drop, occurs-notify}

module _ {T : Type 0} where
  -- The listeners in the event are those of the futures that listen, and when somebody writes, it is
  -- one of the futures.
  pub record Attended (s : Initializers T) : Type 0 where
    pub occurring : (b : ℕ) → occurs b s.cell.active ≡ listens_on (s.futures b)
    pub awake : Awake s.cell
    pub writer : s.cell.writing ≡ true → (b : ℕ) × (s.futures b ≡ setting)

  drop_init-occurs :
      (b a : ℕ) (f : InitFuture) (c : OnceCell T)
      → occurs a c.active ≡ listens_on f
      → occurs b (drop_init a f c).active ≡ (if b == a then 0 else occurs b c.active)
  unfolding drop_init drop_active unwrite
  drop_init-occurs b a fresh c o = ground (arith, o, ==_iff b a)
  drop_init-occurs b a listening c o = ground (arith, o, ==_iff b a, occurs-drop b a c.active)
  drop_init-occurs b a setting c o = ground (
    arith,
    o,
    ==_iff b a,
    occurs-drop b a (Queue.notify 1 false (λ _. tt) c.active),
    occurs-notify b 1 false (λ _. tt) c.active,
  )
  drop_init-occurs b a over c o = ground (arith, o, ==_iff b a)

  setting-after : {E : Type 0} (p : InitPoll T E) → is_setting p ≡ true → init_after p ≡ setting
  setting-after (got_value t) e = absurd (ground (arith, e))
  setting-after (failed x) e = absurd (ground (arith, e))
  setting-after listens e = absurd (ground (arith, e))
  setting-after sets e = refl
  setting-after without_fuel e = absurd (ground (arith, e))

  abbrev Writer : Initializers T → Type 0
  Writer s = (b : ℕ) × (s.futures b ≡ setting)

  turn-Writer :
      {E : Type 0} (a : ℕ) (s : Initializers T) (p : InitPoll T E × OnceCell T)
      → s.futures a ≢ setting
      → Polled s.cell p
      → p.1.writing ≡ true
      → (s.cell.writing ≡ true → Writer s)
      → Writer (record { cell = p.1; futures = set_init s.futures a (init_after p.0) })
  turn-Writer a s p n (_, inl (i, v, w)) h k =
      let (b, f) = k (sym w ∙ h) in (b, ground (arith, ==_iff b a, n, f))
  turn-Writer a s p n (_, inr (v, w, k, o)) h _ =
      (a, ground (arith, setting-after p.0, sym k ∙ h, ==_iff a a))

  drop-Writer :
      (a : ℕ) (f : InitFuture) (s : Initializers T)
      → s.futures a ≡ f
      → (drop_init a f s.cell).writing ≡ true
      → (s.cell.writing ≡ true → Writer s)
      → Writer (record { cell = drop_init a f s.cell; futures = set_init s.futures a over })
  unfolding drop_init drop_active unwrite
  drop-Writer a fresh s e h k = let (b, f) = k h in (b, ground (arith, ==_iff b a, e, f))
  drop-Writer a listening s e h k = let (b, f) = k h in (b, ground (arith, ==_iff b a, e, f))
  drop-Writer a setting s e h k = absurd (ground (arith, h))
  drop-Writer a over s e h k = let (b, f) = k h in (b, ground (arith, ==_iff b a, e, f))

  -- Whether a future that is polled writes afterwards.
  writes_on :
      {E : Type 0} (a v : ℕ) (r : Answer T E) (f : InitFuture) (s : Initializers T)
      → f ≢ over
      → s.futures a ≡ f
      → let (p, c) = get_or_try_init a v r f s.cell in
        c.writing ≡ true
        → (s.cell.writing ≡ true → (b : ℕ) × (s.futures b ≡ setting))
        → (b : ℕ) × (set_init s.futures a (init_after p) b ≡ setting)
  unfolding get_or_try_init set_value unwrite store drop_active
  writes_on a v r fresh s n e h w =
      turn-Writer a s (get_or_try_init a v r fresh s.cell) (λ q. ground (arith, e, q))
        (init-Polled a v r false s.cell) h w
  writes_on a v r listening s n e h w =
      turn-Writer a s (get_or_try_init a v r listening s.cell) (λ q. ground (arith, e, q))
        (init-Polled a v r true s.cell) h w
  writes_on a v unready setting s n e h w = (a, ground (arith, ==_iff a a))
  writes_on a v (success t) setting s n e h w = absurd (ground (arith, h))
  writes_on a v (failure x) setting s n e h w = absurd (ground (arith, h))
  writes_on a v r over s n e h w = absurd (n refl)

  pub Initialized-Attended : {E : Type 0} (s : Initializers T) → Initialized E s → Attended s
  unfolding init_step drop_init_step OnceCell.new
  Initialized-Attended _ unwritten = record {
    occurring = λ b. refl;
    awake = inr (inr refl);
    writer = λ w. absurd (ground arith);
  }
  Initialized-Attended _ (begins_init s a e u) =
      let h = Initialized-Attended s u in
      record {
        occurring = λ b. ground (arith, h.occurring b, h.occurring a, ==_iff b a, e);
        awake = h.awake;
        writer = λ w. let (b, f) = h.writer w in (b, ground (arith, ==_iff b a, e, f));
      }
  Initialized-Attended _ (polls_init s a v r n u) =
      let h = Initialized-Attended s u in
      let (o, w) =
        get_or_try_init-After a v r (s.futures a) s.cell n (h.occurring a)
          ((Initialized-Sole s u).marked a) h.awake in
      record {
        occurring = λ b. ground (arith, o b, h.occurring b, ==_iff b a);
        awake = w;
        writer = λ w. writes_on a v r (s.futures a) s n refl w h.writer;
      }
  Initialized-Attended _ (drops_init s a u) =
      let h = Initialized-Attended s u in
      record {
        occurring = λ b. ground (
          arith,
          drop_init-occurs b a (s.futures a) s.cell (h.occurring a),
          h.occurring b,
          ==_iff b a,
        );
        awake = drop_init-Awake a (s.futures a) s.cell h.awake;
        writer = λ w. drop-Writer a (s.futures a) s refl w h.writer;
      }

-- ===== src/Lock/OnceSole.antt =====
-- Any use of the cell of src/lock/once_cell.rs by `get_or_try_init` futures, and who writes.
use unsend.Lock.OnceCell
use unsend.Base.{
  refl, none, ℕ, ◌≡◌, true, if◌then◌else◌, ◌≢◌, ◌==◌, arith, ==_iff, inl, ◌∙◌, sym, inr, ap, false,
}
use unsend.Lock.OnceCell.{
  OnceCell, over, get_or_try_init, drop_init, set_value, InitFuture, Answer, fresh, InitPoll,
  unwrite, init_after, setting, store, drop_active, success, failure, unready, got_value, failed,
  listens, sets, without_fuel, listening,
}
use unsend.Lock.OnceUse.{Polled, is_setting, init-Polled}

pub record Initializers (T : Type 0) : Type 0 where
  pub cell : OnceCell T
  pub futures : ℕ → InitFuture

abbrev pub set_init : (ℕ → InitFuture) → ℕ → InitFuture → ℕ → InitFuture
set_init fs a f b = if b == a then f else fs b

module _ {T : Type 0} where
  abbrev pub no_initializers : Initializers T
  no_initializers = record { cell = OnceCell.new; futures = λ a. over }

  unfoldable pub init_step : {E : Type 0} → ℕ → ℕ → Answer T E → Initializers T → Initializers T
  unfolding get_or_try_init
  init_step a v r s =
      let (p, c) = get_or_try_init a v r (s.futures a) s.cell in
      record { cell = c; futures = set_init s.futures a (init_after p) }

  unfoldable pub drop_init_step : ℕ → Initializers T → Initializers T
  unfolding drop_init
  drop_init_step a s = record {
    cell = drop_init a (s.futures a) s.cell;
    futures = set_init s.futures a over;
  }

  pub data Initialized (E : Type 0) : Initializers T → Type 0 where
    unwritten : Initialized E no_initializers
    begins_init :
        (s : Initializers T) (a : ℕ)
        → s.futures a ≡ over
        → Initialized E s
        → Initialized E (record s { futures = set_init s.futures a fresh })
    polls_init :
        (s : Initializers T) (a v : ℕ) (r : Answer T E)
        → s.futures a ≢ over
        → Initialized E s
        → Initialized E (init_step a v r s)
    drops_init : (s : Initializers T) (a : ℕ) → Initialized E s → Initialized E (drop_init_step a s)

  -- A future writes only while `writing` holds and the cell is empty, and no two futures do.
  pub record Sole (s : Initializers T) : Type 0 where
    pub empty_cell : s.cell.writing ≡ true → s.cell.value ≡ none
    pub marked : (a : ℕ) → s.futures a ≡ setting → s.cell.writing ≡ true
    pub alone : (a b : ℕ) → s.futures a ≡ setting → s.futures b ≡ setting → a ≡ b

  after-setting : {E : Type 0} (p : InitPoll T E) → init_after p ≡ setting → is_setting p ≡ true
  after-setting (got_value t) e = absurd (ground arith)
  after-setting (failed x) e = absurd (ground arith)
  after-setting listens e = absurd (ground arith)
  after-setting sets e = refl
  after-setting without_fuel e = absurd (ground arith)

  settled_lem :
      {E : Type 0} (a : ℕ) (s : Initializers T) (p : InitPoll T E) (c : OnceCell T)
      → Sole s
      → s.futures a ≢ setting
      → Polled s.cell (p, c)
      → Sole (record { cell = c; futures = set_init s.futures a (init_after p) })
  settled_lem a s p c h n (e, inl (i, v, w)) = record {
    empty_cell = λ q. v ∙ h.empty_cell (sym w ∙ q);
    marked = λ b f. w ∙ h.marked b (ground (arith, after-setting p, i, f));
    alone = λ b d f g.
        h.alone b d (ground (arith, after-setting p, i, f)) (ground (arith, after-setting p, i, g));
  }
  settled_lem a s p c h n (e, inr (v, w, k, o)) = record {
    empty_cell =
        λ q. elim o [ inl z ↦ z | inr (t, z, y) ↦ absurd (ground (arith, ap is_setting z, k, q)) ];
    marked = λ b f. ground (arith, after-setting p, k, w, h.marked b, f);
    alone = λ b d f g. ground (arith, w, h.marked b, h.marked d, f, g, ==_iff b a, ==_iff d a);
  }

  set_lem :
      {E : Type 0} (a : ℕ) (r : Answer T E) (s : Initializers T)
      → Sole s
      → s.futures a ≡ setting
      → Sole (record {
        cell = (set_value a r s.cell).1;
        futures = set_init s.futures a (init_after (set_value a r s.cell).0);
      })
  unfolding set_value unwrite store drop_active
  set_lem a unready s h e = record {
    empty_cell = h.empty_cell;
    marked = λ b f. h.marked a e;
    alone =
        λ b c f g. ground (arith, h.alone b c, h.alone a b, h.alone a c, ==_iff b a, ==_iff c a);
  }
  set_lem a (success t) s h e = record {
    empty_cell = λ q. absurd (ground arith);
    marked = λ b f. absurd (ground (arith, h.alone b a, f, e, ==_iff b a));
    alone = λ b d f g. absurd (ground (arith, h.alone b a, f, e, ==_iff b a));
  }
  set_lem a (failure x) s h e = record {
    empty_cell = λ q. absurd (ground arith);
    marked = λ b f. absurd (ground (arith, h.alone b a, f, e, ==_iff b a));
    alone = λ b d f g. absurd (ground (arith, h.alone b a, f, e, ==_iff b a));
  }

  polled_lem :
      {E : Type 0} (a v : ℕ) (r : Answer T E) (s : Initializers T) (f : InitFuture)
      → Sole s
      → s.futures a ≡ f
      → f ≢ over
      → Sole (record {
        cell = (get_or_try_init a v r f s.cell).1;
        futures = set_init s.futures a (init_after (get_or_try_init a v r f s.cell).0);
      })
  unfolding get_or_try_init
  polled_lem a v r s fresh h e n =
      let p = get_or_try_init a v r fresh s.cell in
      settled_lem a s p.0 p.1 h (λ x. ground (arith, x, e)) (init-Polled a v r false s.cell)
  polled_lem a v r s listening h e n =
      let p = get_or_try_init a v r listening s.cell in
      settled_lem a s p.0 p.1 h (λ x. ground (arith, x, e)) (init-Polled a v r true s.cell)
  polled_lem a v r s setting h e n = set_lem a r s h e
  polled_lem a v r s over h e n = absurd (n refl)

  dropped_lem :
      (a : ℕ) (s : Initializers T) (f : InitFuture)
      → Sole s
      → s.futures a ≡ f
      → Sole (record { cell = drop_init a f s.cell; futures = set_init s.futures a over })
  unfolding drop_init drop_active unwrite
  dropped_lem a s fresh h e = record {
    empty_cell = h.empty_cell;
    marked = λ b f. ground (arith, h.marked b, f);
    alone = λ b d f g. ground (arith, h.alone b d, f, g);
  }
  dropped_lem a s listening h e = record {
    empty_cell = h.empty_cell;
    marked = λ b f. ground (arith, h.marked b, f);
    alone = λ b d f g. ground (arith, h.alone b d, f, g);
  }
  dropped_lem a s setting h e = record {
    empty_cell = λ q. absurd (ground arith);
    marked = λ b f. absurd (ground (arith, h.alone b a, f, e, ==_iff b a));
    alone = λ b d f g. absurd (ground (arith, h.alone b a, f, e, ==_iff b a));
  }
  dropped_lem a s over h e = record {
    empty_cell = h.empty_cell;
    marked = λ b f. ground (arith, h.marked b, f);
    alone = λ b d f g. ground (arith, h.alone b d, f, g);
  }

  -- However a cell is used by `get_or_try_init` futures, a future that goes on writing does so while
  -- `writing` holds, it is the only one, and while `writing` holds the cell is empty.
  pub Initialized-Sole : {E : Type 0} (s : Initializers T) → Initialized E s → Sole s
  unfolding init_step drop_init_step OnceCell.new
  Initialized-Sole _ unwritten = record {
    empty_cell = λ q. refl;
    marked = λ b f. absurd (ground arith);
    alone = λ b d f g. absurd (ground arith);
  }
  Initialized-Sole _ (begins_init s a e u) =
      let h = Initialized-Sole s u in
      record {
        empty_cell = h.empty_cell;
        marked = λ b f. ground (arith, h.marked b, f);
        alone = λ b d f g. ground (arith, h.alone b d, f, g);
      }
  Initialized-Sole _ (polls_init s a v r n u) =
      polled_lem a v r s (s.futures a) (Initialized-Sole s u) refl n
  Initialized-Sole _ (drops_init s a u) = dropped_lem a s (s.futures a) (Initialized-Sole s u) refl

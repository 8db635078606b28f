-- ===== src/Executor/Sole.antt =====
-- The tickers on the mainstream in any use of the executor of src/executor.rs.
use unsend.Executor.Crates.{Crates}
use unsend.Base.{
  sym, ◌∙◌, ◌≢◌, refl, inl, inr, ℕ, true, false, ◌≡◌, Bool, ◌==◌, if◌then◌else◌, ap, arith, ==_iff,
  Bool-cases,
}
use unsend.Executor.Use.{
  Driven, creates, wakes_task, spawns_task, tries_tick, makes_ticker, begins_tick, polls_tick,
  drops_tick, drops_ticker, TickerState, set_ticker, tick_step, drop_tick_step, drop_ticker_step,
  ExecSystem, no_ticker,
}
use unsend.Executor.{State, with_thread_id, schedule, spawn, try_tick}
use unsend.Executor.Turns.{Kept, Turned, tick-Turned, drop_tick-Kept, drop_ticker-Kept}
use unsend.Executor.Walk.{Keeps, schedule-Keeps, spawn-Keeps, try_tick-Keeps}
use unsend.Executor.Ticker.{
  TickPoll, tick_after, tick_start, tick, drop_tick, tick_done, drop_ticker,
}

abbrev pub flag : {Q A S R : Type 0} → State Q A S R → Bool
flag s = s.thread_state.is_mainstream_listening

-- `is_mainstream_listening` holds exactly when some ticker is on the mainstream, which is then the
-- only one. A ticker that is gone is not on the mainstream.
pub record Sole (ts : ℕ → TickerState) (l : Bool) : Type 0 where
  pub claimed : (a : ℕ) → (ts a).is_mainstream ≡ true → l ≡ true
  pub sole : (a b : ℕ) → (ts a).is_mainstream ≡ true → (ts b).is_mainstream ≡ true → a ≡ b
  pub held : l ≡ true → (a : ℕ) × ((ts a).is_mainstream ≡ true)
  pub gone : (a : ℕ) → (ts a).live ≡ false → (ts a).is_mainstream ≡ false

role_lem :
    (ts : ℕ → TickerState) (a b : ℕ) (t : TickerState)
    → t.is_mainstream ≡ (ts a).is_mainstream
    → (set_ticker ts a t b).is_mainstream ≡ (ts b).is_mainstream
role_lem ts a b t e = elim (Bool-cases (b == a)) [
  | inl h ↦ rw h (e ∙ ap (λ x. (ts x).is_mainstream) (sym ((==_iff b a).0 h)))
  | inr h ↦ rw h refl
]

gone_lem :
    (ts : ℕ → TickerState) (l : Bool) (a : ℕ) (t : TickerState)
    → (t.live ≡ false → t.is_mainstream ≡ false)
    → Sole ts l
    → (b : ℕ) → (set_ticker ts a t b).live ≡ false
    → (set_ticker ts a t b).is_mainstream ≡ false
gone_lem ts l a t o h b g = elim (Bool-cases (b == a)) [
  | inl e ↦ ground (arith, e, g, o)
  | inr e ↦ ground (arith, e, g, h.gone b)
]

-- A ticker whose role stays as it was.
same_role :
    (ts : ℕ → TickerState) (l : Bool) (a : ℕ) (t : TickerState)
    → t.is_mainstream ≡ (ts a).is_mainstream
    → (t.live ≡ false → t.is_mainstream ≡ false)
    → Sole ts l
    → Sole (set_ticker ts a t) l
same_role ts l a t e o h = record {
  gone = gone_lem ts l a t o h;
  claimed = λ b g. h.claimed b (sym (role_lem ts a b t e) ∙ g);
  sole = λ b d g k. h.sole b d (sym (role_lem ts a b t e) ∙ g) (sym (role_lem ts a d t e) ∙ k);
  held = λ g. let (b, k) = h.held g in (b, role_lem ts a b t e ∙ k);
}

-- A ticker that takes a mainstream that nobody has.
takes_role :
    (ts : ℕ → TickerState) (l : Bool) (a : ℕ) (t : TickerState)
    → t.is_mainstream ≡ true
    → l ≡ false
    → t.live ≡ true
    → Sole ts l
    → Sole (set_ticker ts a t) true
takes_role ts l a t e f i h = record {
  gone = gone_lem ts l a t (λ g. absurd (ground (arith, g, i))) h;
  claimed = λ b g. refl;
  sole = λ b d g k. ground (arith, e, f, h.claimed b, h.claimed d, g, k, ==_iff b a, ==_iff d a);
  held = λ g. (a, ground (arith, e, ==_iff a a));
}

-- A ticker that gives its role up, if it has one.
leaves_role :
    (ts : ℕ → TickerState) (l : Bool) (a : ℕ) (t : TickerState)
    → t.is_mainstream ≡ false
    → Sole ts l
    → Sole (set_ticker ts a t) (if (ts a).is_mainstream then false else l)
leaves_role ts l a t e h = elim (Bool-cases (ts a).is_mainstream) [
  | inl m ↦
      let nobody : (b : ℕ) → (set_ticker ts a t b).is_mainstream ≢ true =
        λ b g. ground (arith, e, m, g, h.sole b a, ==_iff b a) in
      rw m (record {
        gone = gone_lem ts l a t (λ g. e) h;
        claimed = λ b g. absurd (nobody b g);
        sole = λ b d g k. absurd (nobody b g);
        held = λ g. absurd (ground (arith, g));
      })
  | inr m ↦ rw m (same_role ts l a t (e ∙ sym m) (λ g. e) h)
]

module _ {Q A S W R : Type 0} (c : Crates Q A S W R) where
  -- The event of the tickers plays no part.
  abbrev Flagged : Bool → State Q A S R → Type 0
  Flagged l s = Kept c (λ q. Unit {0}) (λ f q h. h) (λ a v q h. h) (λ a q h. h) l s

  flagged : (s : State Q A S R) → Flagged (flag s) s
  unfolding Keeps
  flagged s = (tt, refl)

  kept_flag : (l : Bool) (s : State Q A S R) → Flagged l s → flag s ≡ l
  unfolding Keeps
  kept_flag l s h = h.1

  Turned-Sole :
      (ts : ℕ → TickerState) (l : Bool) (a : ℕ) (p : TickPoll × Bool × State Q A S R)
      → Sole ts l
      → (ts a).live ≡ true
      → Turned c (λ q. Unit {0}) (λ f q h. h) (λ a v q h. h) (λ a q h. h) l (ts a).is_mainstream p
      → Sole
          (set_ticker ts a (record (ts a) { is_mainstream = p.1; future = tick_after p.0 }))
          (flag p.2)
  Turned-Sole ts l a p h i (inl (k, e)) = rw (kept_flag l p.2 k) (
      same_role ts l a (record (ts a) { is_mainstream = p.1; future = tick_after p.0 }) e
        (λ g. absurd (ground (arith, g, i))) h)
  Turned-Sole ts l a p h i (inr (f, k, e)) =
      rw (kept_flag true p.2 k)
        (takes_role ts l a (record (ts a) { is_mainstream = p.1; future = tick_after p.0 }) e f i h)

  -- However an executor is used, `is_mainstream_listening` holds exactly when some ticker is on the
  -- mainstream, and no two tickers are.
  pub Driven-Sole : (s : ExecSystem Q A S R) → Driven c s → Sole s.tickers (flag s.state)
  unfolding with_thread_id tick_step drop_tick_step drop_ticker_step
  Driven-Sole _ (creates origin) = record {
    claimed = λ a g. absurd (ground (arith, g));
    sole = λ a b g k. absurd (ground (arith, g));
    gone = λ a g. refl;
    held = λ g. absurd (ground (arith, g));
  }
  Driven-Sole _ (wakes_task s current r d) =
      rw
        (kept_flag (flag s.state) (schedule c current r s.state) (
          schedule-Keeps c (λ q. Unit {0}) (flag s.state) (λ f q h. h) current r s.state
            (flagged s.state)))
        (Driven-Sole s d)
  Driven-Sole _ (spawns_task s r d) =
      rw
        (kept_flag (flag s.state) (spawn c r s.state)
          (spawn-Keeps c (λ q. Unit {0}) (flag s.state) (λ f q h. h) r s.state (flagged s.state)))
        (Driven-Sole s d)
  Driven-Sole _ (tries_tick s d) =
      rw
        (kept_flag (flag s.state) (try_tick c s.state).1
          (try_tick-Keeps c (λ q. Unit {0}) (flag s.state) (λ f q h. h) s.state (flagged s.state)))
        (Driven-Sole s d)
  Driven-Sole _ (makes_ticker s a l d) =
      let h = Driven-Sole s d in
      same_role s.tickers (flag s.state) a
        (record { live = true; is_mainstream = false; future = tick_done }) (sym (h.gone a l))
        (λ g. refl) h
  Driven-Sole _ (begins_tick s a l f d) =
      same_role s.tickers (flag s.state) a (record (s.tickers a) { future = tick_start }) refl
        ((Driven-Sole s d).gone a) (Driven-Sole s d)
  Driven-Sole _ (polls_tick s a v racing l f d) =
      Turned-Sole s.tickers (flag s.state) a
        (tick c a v racing (s.tickers a).future (s.tickers a).is_mainstream s.state)
        (Driven-Sole s d) l
        (tick-Turned c (λ q. Unit {0}) (λ f q h. h) (λ a v q h. h) (λ a q h. h) (flag s.state) a v
          racing (s.tickers a).future (s.tickers a).is_mainstream s.state (flagged s.state))
  Driven-Sole _ (drops_tick s a d) =
      rw
        (kept_flag (flag s.state) (drop_tick c a (s.tickers a).future s.state) (
          drop_tick-Kept c (λ q. Unit {0}) (λ f q h. h) (λ a v q h. h) (λ a q h. h) (flag s.state) a
            (s.tickers a).future s.state (flagged s.state)))
        (same_role s.tickers (flag s.state) a (record (s.tickers a) { future = tick_done }) refl
          ((Driven-Sole s d).gone a) (Driven-Sole s d))
  Driven-Sole _ (drops_ticker s a f d) =
      rw
        (kept_flag (if (s.tickers a).is_mainstream then false else flag s.state)
          (drop_ticker c (s.tickers a).is_mainstream s.state)
          (drop_ticker-Kept c (λ q. Unit {0}) (λ f q h. h) (λ a v q h. h) (λ a q h. h)
            (flag s.state) (s.tickers a).is_mainstream s.state (flagged s.state)))
        (leaves_role s.tickers (flag s.state) a no_ticker refl (Driven-Sole s d))

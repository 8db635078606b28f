-- ===== src/Executor/Draining.antt =====
-- `Executor::run` of src/executor.rs with tasks that at most end as they run.
use unsend.Executor.Crates.{Crates, only_ends}
use unsend.Base.{
  Bool-cases, refl, [], ◌∷◌, ◌++◌, inl, inr, ap, List, ℕ, ◌≡◌, suc, zero, ◌∙◌, sym, true, Bool,
  if◌then◌else◌, length, ◌+◌, append-nil, append_assoc, arith,
}
use unsend.Executor.Ticker.{tick_pending, tick_start, run_turns}
use unsend.Executor.{State}
use unsend.Executor.Fuel.{run_turns-ticked, run_turns-waits}
use unsend.Executor.Alone.{Stands, nobody, tick-idle, tick-pop, tick-local}

module _ {Q A S W R : Type 0} (c : Crates Q A S W R)
    (idle : (xs : List R) (r : R) → only_ends (c.runs xs r) ≡ true) where
  -- Whether a ticker is on the mainstream, or will take it.
  abbrev pub leads : Bool → State Q A S R → Bool
  leads m s = if s.thread_state.is_mainstream_listening then m else true

  leads-true : (s : State Q A S R) → leads true s ≡ true
  leads-true s = elim (Bool-cases s.thread_state.is_mainstream_listening) [
    | inl e ↦ rw e refl
    | inr e ↦ rw e refl
  ]

  drains :
      (fuel : ℕ) (xs ys zs : List R) (a v : ℕ) (m : Bool) (s : State Q A S R)
      → fuel ≡ suc (length xs + length ys)
      → Stands c idle xs ys zs s
      → leads m s ≡ true
      → let p = run_turns c fuel a v (nobody c idle) tick_start m s in
        (p.0 ≡ tick_pending) × (p.2.ran ≡ zs ++ (xs ++ ys))
  drains zero xs ys zs a v m s l h f = absurd (omega (arith, l))
  drains (suc fuel) [] [] zs a v m s l h f =
      let (t, e, k) = tick-idle c idle zs a v m s h f in
      let g = run_turns-waits c fuel a v (nobody c idle) m true s t e in
      (ap (λ x. x.0) g, ap (λ x. x.2.ran) g ∙ k ∙ sym (append-nil zs))
  drains (suc fuel) [] (r ∷ ys) zs a v m s l h f =
      let (t, e, k) = tick-pop c idle r ys zs a v m s h f in
      let g = run_turns-ticked c fuel a v (nobody c idle) m true s t e in
      let (p, q) =
        drains fuel [] ys (zs ++ r ∷ []) a v true t (omega (arith, l)) k (leads-true t) in
      (ap (λ x. x.0) g ∙ p, ap (λ x. x.2.ran) g ∙ q ∙ append_assoc zs (r ∷ []) ys)
  drains (suc fuel) (r ∷ xs) ys zs a v m s l h f =
      let (t, e, k, b) = tick-local c idle r xs ys zs a v (nobody c idle) m s h in
      let g = run_turns-ticked c fuel a v (nobody c idle) m m s t e in
      let (p, q) =
        drains fuel xs ys (zs ++ r ∷ []) a v m t (omega (arith, l)) k
          (ap (λ b'. if b' then m else true) b ∙ f) in
      (ap (λ x. x.0) g ∙ p, ap (λ x. x.2.ran) g ∙ q ∙ append_assoc zs (r ∷ []) (xs ++ ys))

  -- When tasks schedule and spawn nothing as they run, whether or not they end then, no other ticker is
  -- in the event or on the mainstream, and no other thread pushes, one poll of `run` runs all runnables, those of the thread-local queue
  -- first, each queue in order, and then waits: it needs one tick for each, and one.
  pub run_turns-drains :
      (xs ys zs : List R) (a v : ℕ) (m : Bool) (s : State Q A S R)
      → Stands c idle xs ys zs s
      → leads m s ≡ true
      → let p = run_turns c (suc (length xs + length ys)) a v (nobody c idle) tick_start m s in
        (p.0 ≡ tick_pending) × (p.2.ran ≡ zs ++ (xs ++ ys))
  run_turns-drains xs ys zs a v m s h f =
      drains (suc (length xs + length ys)) xs ys zs a v m s refl h f

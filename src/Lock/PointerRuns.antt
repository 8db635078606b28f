-- ===== src/Lock/PointerRuns.antt =====
-- Any use of a lock of src/lock/ over the event's list in memory.
use unsend.Event.Listener
use unsend.Event.Returns
use unsend.Queue
use unsend.Base.{
  refl, ℕ, Bool, none, some, suc, ◌+◌, ◌-◌, ◌≡◌, false, ap, ap₂, ◌∙◌, sym, subst, Option-cases,
  Bool-cases, inl, inr, ==_iff, ◌==◌, if◌then◌else◌, List, [], ◌∷◌,
}
use unsend.Event.World.{World}
use unsend.Event.Returns.{Returns, returns}
use unsend.Event.Program.{set_live}
use unsend.Event.Simulation.{Sim, notify-Sim}
use unsend.Event.Refinement.{empty-Sim}
use unsend.Lock.Wait.{Future, start, finished, after, poll_future, drop_future, notify_one}
use unsend.Lock.System.{
  Lock, System, set_future, granted, try_step, begin_step, poll_step, cancel_step, release_step,
}
use unsend.Lock.Invariant.{drop_future-inner}
use unsend.Lock.Pointers.{
  Op, tries, begins, polls, cancels, releases, Held, pointer_step, pointer_run, system_step,
  system_run, Owned, AllOwned,
}
use unsend.Lock.PointerTurns.{lives, spec_of, Sim-live, poll_refines, drop_refines}

abbrev pub listening : (ℕ → Future) → ℕ → Bool
listening fs b = lives (fs b)

listening-set :
    (fs : ℕ → Future) (a : ℕ) (f : Future) (b : ℕ)
    → set_live (listening fs) a (lives f) b ≡ listening (set_future fs a f) b
listening-set fs a f b = elim (Bool-cases (b == a)) [
  | inl e ↦ rw (e, if◌then◌else◌) refl
  | inr e ↦ rw (e, if◌then◌else◌) refl
]

listening-begun :
    (fs : ℕ → Future) (a : ℕ)
    → fs a ≡ finished
    → (b : ℕ) → listening fs b ≡ listening (set_future fs a start) b
listening-begun fs a h b = elim (Bool-cases (b == a)) [
  | inl e ↦ rw (e, if◌then◌else◌) (ap (listening fs) ((==_iff b a).0 e) ∙ ap lives h)
  | inr e ↦ rw (e, if◌then◌else◌) refl
]

module _ {S : Type 0} where
  abbrev pub held : System S → Held S
  held s = record { inner = s.shared.inner; futures = s.futures; guards = s.guards }

  -- The state of the lock, and a world whose event stands for the queue and has a listener for each
  -- future that awaits.
  abbrev pub Matches : Held S → World (Unit {0}) → System S → Type 0
  Matches t w s = (t ≡ held s) × Sim w (spec_of s.shared (listening s.futures))

module _ {S : Type 0} (l : Lock S) where
  -- The outcome of one operation over the list.
  abbrev pub Stepped : Op → System S → Held S → World (Unit {0}) → Type 0
  Stepped o s t w = Matches t w (system_step l o s)

  try_step-none : (s : System S) → l.try s.shared.inner ≡ none → try_step l s ≡ s
  unfolding try_step
  try_step-none s e = rw (e, try_step) refl

  try_step-some :
      (s : System S) (i : S)
      → l.try s.shared.inner ≡ some i
      → try_step l s ≡ record s { shared = record s.shared { inner = i }; guards = suc s.guards }
  unfolding try_step
  try_step-some s i e = rw (e, try_step) refl

  tries_refines :
      (s : System S) (w : World (Unit {0}))
      → Sim w (spec_of s.shared (listening s.futures))
      → Returns (Stepped tries s) (pointer_step l tries (held s) w)
  unfolding system_step pointer_step
  tries_refines s w m = elim (Option-cases (l.try s.shared.inner)) [
    | inl e ↦
        rw (e, pointer_step)
          (returns (subst (Matches (held s) w) (sym (try_step-none s e)) (refl, m)))
    | inr (i, e) ↦
        let u = record s { shared = record s.shared { inner = i }; guards = suc s.guards } in
        rw (e, pointer_step)
          (returns (subst (Matches (held u) w) (sym (try_step-some s i e)) (refl, m)))
  ]

  step_refines :
      (o : Op) (s : System S) (w : World (Unit {0}))
      → Owned l o s
      → Sim w (spec_of s.shared (listening s.futures))
      → Returns (Stepped o s) (pointer_step l o (held s) w)
  unfolding system_step pointer_step begin_step poll_step poll_future cancel_step release_step
      notify_one
  step_refines tries s w h m = tries_refines s w m
  step_refines (begins a) s w h m =
      returns (refl, Sim-live w s.shared _ _ (listening-begun s.futures a h) m)
  step_refines (polls a v) s w h m =
      let fs = s.futures in
      let p = poll_future l.try a v (fs a) s.shared in
      Returns.bind (poll_refines l.try a v (listening fs) (fs a) s.shared w h refl m)
        λ r w' (e, i, k). returns (
          ap₂
              (λ x y. record {
                inner = y;
                futures = set_future fs a (after x);
                guards = granted x + s.guards;
              })
              e i,
          Sim-live w' p.2 _ _
              (λ b.
                ap (λ x. set_live (listening fs) a (lives (after x)) b) e
                ∙ listening-set fs a (after p.0) b)
              k,
        )
  step_refines (cancels a) s w h m =
      let fs = s.futures in
      let u = drop_future a (fs a) s.shared in
      Returns.bind (drop_refines a (listening fs) (fs a) s.shared w refl m) λ _ w' k. returns (
        ap (λ i. record { inner = i; futures = set_future fs a finished; guards = s.guards })
            (sym (drop_future-inner l a (fs a) s.shared)),
        Sim-live w' u _ _ (listening-set fs a finished) k,
      )
  step_refines releases s w h m =
      let e = sym (l.release_lem s.shared) in
      Returns.bind (notify-Sim 1 false (λ _. tt) w (spec_of s.shared (listening s.futures)) m)
        λ r w' (_, k). returns (
          ap (λ u. record { inner = u.inner; futures = s.futures; guards = s.guards - 1 }) e,
          subst (λ u. Sim w' (spec_of u (listening s.futures))) e k,
        )

  pub run_refines :
      (os : List Op) (s : System S) (w : World (Unit {0}))
      → AllOwned l os s
      → Sim w (spec_of s.shared (listening s.futures))
      → Returns (λ t w'. Matches t w' (system_run l os s)) (pointer_run l os (held s) w)
  unfolding pointer_run system_run
  run_refines [] s w h m = returns (refl, m)
  run_refines (o ∷ os) s w (h, hs) m = Returns.bind (step_refines o s w h m) λ t w' (e, n).
      subst
        (λ t'.
          Returns (λ u w''. Matches u w'' (system_run l os (system_step l o s)))
            (pointer_run l os t' w'))
        (sym e) (run_refines os (system_step l o s) w' hs n)

  -- The empty event stands for the empty queue.
  unused-Sim :
      (i : S)
      → Sim Listener.new_event (
          spec_of
            (record { event = Queue.empty; woken = []; inner = i })
            (listening (λ a. finished)))
  unused-Sim i = empty-Sim

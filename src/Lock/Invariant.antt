-- ===== src/Lock/Invariant.antt =====
-- What every use of a lock keeps: guards are neither made nor lost, and exactly the futures that
-- await have a listener in the event.
use unsend.Lock.Wait.{
  Future, Shared, start, drop_listener, awaiting, finished, poll_future, Progress, after,
  notify_one, drop_future, acquired, pending, looping,
}
use unsend.Lock.System.{
  Lock, System, set_future, poll_step, granted, cancel_step, release_step, try_step, begin_step,
  edit_step, Reachable, starts, tries, begins, polls, cancels, releases, edits,
}
use unsend.Base.{
  refl, ℕ, ◌+◌, ◌==◌, ◌≡◌, false, ◌≤◌, arith, ap, ◌∙◌, ==_iff, ◌≢◌, Option-cases, inl, inr, ◌-◌,
}
use unsend.Queue.Occurs.{occurs, occurs-drop, occurs-notify, one_if}
use unsend.Lock.Turn.{Settled}
use unsend.Lock.Single.{waits, Got, Waiting, turn-Settled}

pub record Sound {S : Type 0} (l : Lock S) (s : System S) : Type 0 where
  pub conserved : l.free s.shared.inner + s.guards ≡ l.capacity
  pub occurring : (b : ℕ) → occurs b s.shared.event ≡ waits (s.futures b)

module _ {S : Type 0} (l : Lock S) where
  abbrev progressed : ℕ → System S → Progress → Shared S → System S
  progressed a s r s' = record {
    shared = s';
    futures = set_future s.futures a (after r);
    guards = granted r + s.guards;
  }

  Got-Sound :
      (a v : ℕ) (s : System S) (s' : Shared S)
      → Sound l s
      → Got l a v s.shared s'
      → Sound l (progressed a s acquired s')
  unfolding Got
  Got-Sound a v s s' h (i, o, z) = record {
    conserved = omega (arith, i, h.conserved);
    occurring = λ b. ground (arith, o b, z, h.occurring b, ==_iff b a);
  }

  Waiting-Sound :
      (a v : ℕ) (s : System S) (s' : Shared S)
      → Sound l s
      → Waiting l a v s.shared s'
      → Sound l (progressed a s pending s')
  unfolding Waiting
  Waiting-Sound a v s s' h (i, o, z) = record {
    conserved = omega (arith, ap l.free i, h.conserved);
    occurring = λ b. ground (arith, o b, z, h.occurring b, ==_iff b a);
  }

  settled-Sound :
      (a v : ℕ) (s : System S) (r : Progress) (s' : Shared S)
      → Sound l s
      → Settled r (Got l a v s.shared s') (Waiting l a v s.shared s')
      → Sound l (progressed a s r s')
  settled-Sound a v s acquired s' h x = Got-Sound a v s s' h x
  settled-Sound a v s pending s' h x = Waiting-Sound a v s s' h x
  settled-Sound a v s looping s' h x = absurd x

  poll_step-Sound :
      (a v : ℕ) (s : System S) → s.futures a ≢ finished → Sound l s → Sound l (poll_step l a v s)
  unfolding poll_step poll_future
  poll_step-Sound a v s n h =
      settled-Sound a v s _ _ h (turn-Settled l a v s.shared (s.futures a) n (h.occurring a))

  notify_one-occurs : (b : ℕ) (s : Shared S) → occurs b (notify_one s).event ≡ occurs b s.event
  unfolding notify_one
  notify_one-occurs b s = occurs-notify b 1 false (λ _. tt) s.event

  drop_future-occurs :
      (a b : ℕ) (f : Future) (s : Shared S)
      → occurs a s.event ≡ waits f
      → occurs b (drop_future a f s).event ≡ occurs b s.event - one_if (b == a)
  unfolding drop_future drop_listener
  drop_future-occurs a b start s o = ground (arith, ==_iff b a)
  drop_future-occurs a b awaiting s o = occurs-drop b a s.event
  drop_future-occurs a b finished s o = ground (arith, ==_iff b a)

  pub drop_future-inner : (a : ℕ) (f : Future) (s : Shared S) → (drop_future a f s).inner ≡ s.inner
  unfolding drop_future drop_listener
  drop_future-inner a start s = refl
  drop_future-inner a awaiting s = refl
  drop_future-inner a finished s = refl

  cancel_step-Sound : (a : ℕ) (s : System S) → Sound l s → Sound l (cancel_step a s)
  unfolding cancel_step
  cancel_step-Sound a s h = record {
    conserved =
        ap (λ j. l.free j + s.guards) (drop_future-inner a (s.futures a) s.shared) ∙ h.conserved;
    occurring = λ b. ground (
      arith,
      drop_future-occurs a b (s.futures a) s.shared (h.occurring a),
      h.occurring b,
      h.occurring a,
      ==_iff b a,
    );
  }

  release_step-Sound : (s : System S) → 1 ≤ s.guards → Sound l s → Sound l (release_step l s)
  unfolding release_step notify_one
  release_step-Sound s g h = record {
    conserved =
        ap (λ t. l.free t.inner + (s.guards - 1)) (l.release_lem s.shared)
        ∙ omega (arith, l.free-put s.shared.inner, h.conserved);
    occurring = λ b.
        ap (λ t. occurs b t.event) (l.release_lem s.shared)
        ∙ notify_one-occurs b s.shared
        ∙ h.occurring b;
  }

  try_step-Sound : (s : System S) → Sound l s → Sound l (try_step l s)
  unfolding try_step
  try_step-Sound s h = elim (Option-cases (l.try s.shared.inner)) [
    | inl e ↦ rw (e, try_step) h
    | inr (i, e) ↦
        rw (e, try_step)
          (record {
            conserved = omega (arith, l.try-some s.shared.inner i e, h.conserved);
            occurring = h.occurring;
          })
  ]

  -- Every use of a lock keeps the number of permits, and the event holds exactly the listeners of
  -- the futures that await.
  pub Reachable-Sound : (s : System S) → Reachable l s → Sound l s
  unfolding begin_step edit_step
  Reachable-Sound _ (starts s q e) = record {
    conserved = omega (arith, e);
    occurring = λ b. ap (occurs b) q ∙ omega arith;
  }
  Reachable-Sound _ (tries s r) = try_step-Sound s (Reachable-Sound s r)
  Reachable-Sound _ (begins s a f r) =
      let h = Reachable-Sound s r in
      record {
        conserved = h.conserved;
        occurring = λ b. ground (arith, h.occurring b, h.occurring a, ==_iff b a);
      }
  Reachable-Sound _ (polls s a v n r) = poll_step-Sound a v s n (Reachable-Sound s r)
  Reachable-Sound _ (cancels s a r) = cancel_step-Sound a s (Reachable-Sound s r)
  Reachable-Sound _ (releases s g r) = release_step-Sound s g (Reachable-Sound s r)
  Reachable-Sound _ (edits s i g e r) =
      let h = Reachable-Sound s r in
      record { conserved = omega (arith, h.conserved); occurring = h.occurring }

-- ===== src/Lock/PointerLocks.antt =====
-- What the users of a lock of src/lock/ get from it over the event's list in memory.
use unsend.Event.Listener
use unsend.Event.Returns
use unsend.Queue
use unsend.Base.{refl, [], ◌∷◌, List, ◌+◌, ◌≡◌, ap, ◌∙◌}
use unsend.Event.Returns.{Returns, returns}
use unsend.Event.Simulation.{Sim}
use unsend.Event.Refinement.{empty-Sim}
use unsend.Lock.System.{Lock, System, Reachable, unused}
use unsend.Lock.Invariant.{Reachable-Sound}
use unsend.Lock.Pointers.{
  Op, tries, begins, polls, cancels, releases, pointer_run, system_step, system_run, Owned,
  AllOwned,
}
use unsend.Lock.PointerTurns.{spec_of}
use unsend.Lock.PointerRuns.{held, listening, run_refines}

module _ {S : Type 0} (l : Lock S) where
  step-Reachable :
      (o : Op) (s : System S) → Owned l o s → Reachable l s → Reachable l (system_step l o s)
  unfolding system_step
  step-Reachable tries s h r = Reachable.tries s r
  step-Reachable (begins a) s h r = Reachable.begins s a h r
  step-Reachable (polls a v) s h r = Reachable.polls s a v h r
  step-Reachable (cancels a) s h r = Reachable.cancels s a r
  step-Reachable releases s h r = Reachable.releases s h r

  run-Reachable :
      (os : List Op) (s : System S)
      → AllOwned l os s
      → Reachable l s
      → Reachable l (system_run l os s)
  unfolding system_run
  run-Reachable [] s h r = r
  run-Reachable (o ∷ os) s (h, hs) r =
      run-Reachable os (system_step l o s) hs (step-Reachable o s h r)

  abbrev pub brand_new : S → System S
  brand_new i = unused (record { event = Queue.empty; woken = []; inner = i })

  -- A lock with the interface of Lock/System over the list of its event in memory: whatever its users
  -- try, poll, cancel and release, as far as ownership allows, it runs with no fault and no panic; the
  -- futures, the guards and the lock's own state are those that it has over the queue; the world
  -- stands for that queue, with the same wakers called and a listener in memory for exactly the
  -- futures that await; and permits and guards add up to those that the lock was made with.
  pub lock_refines :
      (os : List Op) (i : S)
      → l.free i ≡ l.capacity
      → AllOwned l os (brand_new i)
      → Returns
          (λ t w.
            (t ≡ held (system_run l os (brand_new i)))
            × Sim w (
                spec_of
                  (system_run l os (brand_new i)).shared
                  (listening (system_run l os (brand_new i)).futures))
            × (l.free t.inner + t.guards ≡ l.capacity))
          (pointer_run l os (held (brand_new i)) Listener.new_event)
  lock_refines os i f h =
      let u = system_run l os (brand_new i) in
      let c =
        (Reachable-Sound l u (
          run-Reachable os (brand_new i) h
            (Reachable.starts (brand_new i).shared refl f))).conserved in
      Returns.mono (run_refines l os (brand_new i) Listener.new_event h empty-Sim)
        λ t w (e, m). (e, m, ap (λ x. l.free x.inner + x.guards) e ∙ c)

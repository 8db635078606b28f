-- ===== src/Event/Refinement.antt =====
-- The pointer code of src/event.rs and the queue that specifies it, over whole programs.
use unsend.Event.Returns
use unsend.Event.Listener
use unsend.Event.World.{World}
use unsend.Event.Handles.{create_with-new, listen_with-listen, poll_with-poll}
use unsend.Event.Program.{
  listen, poll, release, notify, Call, step, Spec, spec_step, Reply, spec_reply, Allowed, create,
  run, spec_run, spec_replies, AllAllowed, polled, reached, empty_spec,
}
use unsend.Base.{◌≡◌, List, [], ap, arith, ◌∷◌, ap₂, refl}
use unsend.Event.Returns.{Returns, returns}
use unsend.Event.Simulation.{Sim, new-Sim, listen-Sim, poll-Sim, drop-Sim, notify-Sim}

module _ {T : Type 0} where
  abbrev pub Refines : Call T → Spec T → Reply T → World T → Type 0
  Refines c s r w' = (r ≡ spec_reply c s) × Sim w' (spec_step c s)

  step-Refines :
      (c : Call T) (w : World T) (s : Spec T)
      → Sim w s
      → Allowed c s.live
      → Returns (Refines c s) (step c w)
  unfolding step spec_step spec_reply
  step-Refines (create k a) w s m h =
      rw (create_with-new {T = T} k a)
        (Returns.bind (new-Sim a w s m h) λ _ w' n. returns (refl, n))
  step-Refines (listen k a) w s m h =
      rw (listen_with-listen {T = T} k a)
        (Returns.bind (listen-Sim a w s m h) λ _ w' n. returns (refl, n))
  step-Refines (poll k a v) w s m h =
      rw (poll_with-poll {T = T} k a v)
        (Returns.bind (poll-Sim a v w s m h) λ r w' (p, n). returns (ap polled p, n))
  step-Refines (release a) w s m h = Returns.bind (drop-Sim a w s m h) λ _ w' n. returns (refl, n)
  step-Refines (notify count extra f) w s m h =
      Returns.bind (notify-Sim count extra f w s m) λ r w' (p, n). returns (ap reached p, n)

  -- Every allowed program runs to its end, and does what the specification says.
  pub run_refines :
      (cs : List (Call T)) (w : World T) (s : Spec T)
      → Sim w s
      → AllAllowed cs s
      → Returns (λ rs w'. (rs ≡ spec_replies cs s) × Sim w' (spec_run cs s)) (run cs w)
  unfolding run spec_run spec_replies
  run_refines [] w s m h = returns (refl, m)
  run_refines (c ∷ cs) w s m (h, hs) = Returns.bind (step-Refines c w s m h) λ r w' (p, m').
      Returns.bind (run_refines cs w' (spec_step c s) m' hs)
        λ rs w'' (q, m''). returns (ap₂ ◌∷◌ p q, m'')

  pub empty-Sim : Sim {T = T} Listener.new_event empty_spec
  unfolding Listener.new_event
  empty-Sim = record {
    rep = record {
      linked = record {
        head = refl;
        tail = refl;
        chain = tt;
        distinct = tt;
        outside = λ a l o e. absurd (ground arith);
      };
      first = refl;
      notified = refl;
      len = refl;
    };
    woken = refl;
    live = λ a. refl;
  }

  -- Every program of listener creations, listens, polls, drops and notifications on one new event that
  -- ownership allows, its listeners of whatever kind, runs over the pointers with no fault and no
  -- panic, returns the replies of the queue specification, and ends in a state that stands for the
  -- specification's queue, wake-ups and live listeners.
  pub program_refines :
      (cs : List (Call T))
      → AllAllowed cs empty_spec
      → Returns
          (λ rs w'. (rs ≡ spec_replies cs empty_spec) × Sim w' (spec_run cs empty_spec))
          (run cs Listener.new_event)
  program_refines cs h = run_refines cs Listener.new_event empty_spec empty-Sim h

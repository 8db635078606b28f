-- ===== src/Event/Counters.antt =====
-- What `Event::notify` returns, and what it does to the header's counters.
use unsend.Event.Returns
use unsend.Event.Inner
use unsend.Base.{ℕ, Bool, ◌≡◌, ◌-◌, arith}
use unsend.Event.World.{World}
use unsend.Event.Program.{Spec, tagged}
use unsend.Event.Simulation.{Sim, notify_refines}
use unsend.Event.Returns.{Returns}
use unsend.Queue.Counts.{topped_up, notify_counts}

module _ {T : Type 0} where
  -- From any state that stands for a queue, `notify` terminates with no fault and no panic. An
  -- additional notification raises `notified` by `count`, a plain one tops it up to `count`, both
  -- within `len`; the result is the increase, and `len` stays.
  pub notify-topped_up :
      (count : ℕ) (extra : Bool) (f : ℕ → T) (w : World T) (s : Spec T)
      → Sim w s
      → Returns
          (λ r w'.
            (w'.inner.notified ≡ topped_up count extra w.inner.notified w.inner.len)
            × (r.0 ≡ w'.inner.notified - w.inner.notified)
            × (w'.inner.len ≡ w.inner.len))
          (Inner.notify (tagged extra f) (count, 0) w)
  notify-topped_up count extra f w s m =
      Returns.mono (notify_refines count extra f w s m) λ r w' (p, b).
        let (c, d, e) = notify_counts count extra f s.queue in
        ground (arith, b.rep.notified, b.rep.len, m.rep.notified, m.rep.len, p, c, d, e)

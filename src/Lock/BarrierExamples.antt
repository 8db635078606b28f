-- ===== src/Lock/BarrierExamples.antt =====
-- Runs of the barrier at concrete values.
use unsend.Lock.Barrier
use unsend.Base.{refl, [], List, ℕ, ◌∷◌, ◌≡◌, arith}
use unsend.Lock.Barrier.{
  wait, WaitResult, unstarted, Arrivals, arrived, follower, still_waiting, leader,
}
use unsend.Lock.Wait.{Shared}
use unsend.Lock.Rendezvous.{wait_all, repeat}
use unsend.Lock.Departures.{whole_round, Distinct, poll_all}

-- Two tasks arrive at a barrier for three.
abbrev early : List (ℕ × ℕ)
early = (1, 10) ∷ (2, 20) ∷ []

abbrev at_barrier : List WaitResult × Shared Arrivals
at_barrier = wait_all early (Barrier.new 3)

early-Distinct : Distinct early
early-Distinct = ((ground arith, tt), (tt, tt))

whole_round_example :
    let r = wait 3 30 unstarted at_barrier.1 in
    let q = poll_all 0 early r.2 in
    (at_barrier.0 ≡ repeat 2 still_waiting)
    × (r.0 ≡ leader)
    × (q.0 ≡ repeat 2 follower)
    × (q.1.inner.count ≡ 0)
    × (q.1.inner.generation ≡ 1)
unfolding Barrier.new
whole_round_example =
    whole_round early 3 30 (Barrier.new 3) refl refl (omega arith) refl (omega arith) early-Distinct

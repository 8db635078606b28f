-- ===== src/Event/Returns.antt =====
-- Total correctness of a run: no panic, no fault, and a postcondition.
use unsend.Event.World.{World, Run, ok, Cmd, and_then}

pub data Returns {T A : Type 0} (P : A → World T → Type 0) : Run (A × World T) → Type 0 where
  returns : {a : A} {w : World T} → P a w → Returns P (ok (a, w))

module _ {T A : Type 0} {P : A → World T → Type 0} where
  pub bind :
      {B : Type 0} {Q : B → World T → Type 0} {r : Run (A × World T)} {k : A → Cmd T B}
      → Returns P r
      → ((a : A) (w : World T) → P a w → Returns Q (k a w))
      → Returns Q (and_then r k)
  bind (returns p) next = next _ _ p

  pub mono :
      {Q : A → World T → Type 0} {r : Run (A × World T)}
      → Returns P r
      → ((a : A) (w : World T) → P a w → Q a w)
      → Returns Q r
  mono (returns p) weaken = returns (weaken _ _ p)

  pub outcome : {r : Run (A × World T)} → Returns P r → (a : A) × (w : World T) × P a w
  outcome (returns p) = (_, _, p)

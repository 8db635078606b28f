-- ===== src/Executor/Crates.antt =====
-- What src/executor.rs uses of the crates concurrent-queue, atomic-waker, slab and async-task: their
-- operations as parameters, with what their documentation says of them.
use unsend.Base.{
  none, some, [], Option, ℕ, List, Bool, ◌≡◌, ◌++◌, if◌then◌else◌, ◌∷◌, ◌==◌, is_nil, is_some, true,
  false, List-cases, inl, arith, inr,
}

-- `concurrent_queue::ConcurrentQueue`, which nobody closes. `push` gives nothing when it fails.
pub record Concurrent (Q R : Type 0) : Type 0 where
  pub unbounded : Q
  pub push : R → Q → Option Q
  pub pop : Q → Option (R × Q)
  pub is_empty : Q → Bool
  -- The items, the oldest first.
  pub items : Q → List R
  pub items-unbounded : items unbounded ≡ []
  pub items-push : (r : R) (q q' : Q) → push r q ≡ some q' → items q' ≡ items q ++ r ∷ []
  pub pop-nil : (q : Q) → items q ≡ [] → pop q ≡ none
  pub pop-cons :
      (r : R) (rs : List R) (q : Q)
      → items q ≡ r ∷ rs
      → (q' : Q) × (pop q ≡ some (r, q')) × (items q' ≡ rs)
  pub is_empty_lem : (q : Q) → is_empty q ≡ is_nil (items q)

-- `atomic_waker::AtomicWaker`: `take` and `wake` give what it holds and leave it `cleared`.
pub record Atomic (A : Type 0) : Type 0 where
  pub new : A
  pub register : ℕ → A → A
  pub cleared : A → A
  pub holds : A → Option ℕ
  pub holds-new : holds new ≡ none
  pub holds-register : (v : ℕ) (a : A) → holds (register v a) ≡ some v
  pub holds-cleared : (a : A) → holds (cleared a) ≡ none

-- `slab::Slab`. `insert` uses the key that `vacant_key` gives; `drained` is the slab after a drain,
-- which removes every value, however many of them were taken, `first` the value taken first and
-- `others` the values that are left for the drain to drop.
pub record Slab (S W : Type 0) : Type 0 where
  pub new : S
  pub vacant_key : S → ℕ
  pub insert : W → S → S
  pub try_remove : ℕ → S → S
  pub first : S → Option W
  pub others : S → List W
  pub drained : S → S
  pub get : S → ℕ → Option W
  pub get-new : (k : ℕ) → get new k ≡ none
  pub get-vacant : (s : S) → get s (vacant_key s) ≡ none
  pub get-insert :
      (w : W) (s : S) (k : ℕ) → get (insert w s) k ≡ (if k == vacant_key s then some w else get s k)
  pub get-try_remove :
      (i : ℕ) (s : S) (k : ℕ) → get (try_remove i s) k ≡ (if k == i then none else get s k)
  pub get-drained : (s : S) (k : ℕ) → get (drained s) k ≡ none
  pub first-none : (s : S) → ((k : ℕ) → get s k ≡ none) → first s ≡ none
  pub others-none : (s : S) → ((k : ℕ) → get s k ≡ none) → others s ≡ []
  pub first-some : (s : S) (k : ℕ) (w : W) → get s k ≡ some w → is_some (first s) ≡ true

-- What a task does to its executor: it wakes a task, from the thread `current`, it spawns one, or it
-- ends.
pub data Call (R : Type 0) : Type 0 where
  schedules : Option ℕ → R → Call R
  spawns : R → Call R
  ends : ℕ → Call R

-- Whether the calls are ends of tasks only.
abbrev pub only_ends : {R : Type 0} → List (Call R) → Bool
only_ends [] = true
only_ends (schedules current r ∷ xs) = false
only_ends (spawns r ∷ xs) = false
only_ends (ends index ∷ xs) = only_ends xs

-- All of them, with the waker of a runnable, and what a runnable does when it runs after others. A
-- waker that is woken, or one that is dropped, may schedule a runnable, and a runnable that is
-- dropped drops its future.
pub record Crates (Q A S W R : Type 0) : Type 0 where
  pub queue : Concurrent Q R
  pub atomic : Atomic A
  pub slab : Slab S W
  pub waker : R → W
  pub runs : List R → R → List (Call R)
  pub wakes : W → Option R
  pub forgets : W → Option R
  pub drops : R → List (Call R)

module _ {Q R : Type 0} (c : Concurrent Q R) where
  -- A pop takes the oldest item.
  pub pop-some : (q : Q) (r : R) (q' : Q) → c.pop q ≡ some (r, q') → c.items q ≡ r ∷ c.items q'
  pop-some q r q' e = elim (List-cases (c.items q)) [
    | inl n ↦ absurd (ground (arith, e, c.pop-nil q n))
    | inr (x, xs, n) ↦ let (q'', f, i) = c.pop-cons x xs q n in ground (arith, n, e, f, i)
  ]

  pub pop-none : (q : Q) → c.pop q ≡ none → c.items q ≡ []
  pop-none q e = elim (List-cases (c.items q)) [
    | inl n ↦ n
    | inr (x, xs, n) ↦ let (q'', f, i) = c.pop-cons x xs q n in absurd (ground (arith, e, f))
  ]

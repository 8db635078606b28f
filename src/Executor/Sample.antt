-- ===== src/Executor/Sample.antt =====
-- The crates that src/executor.rs uses, as lists, to run the executor on concrete inputs.
use unsend.Executor.Crates.{Crates, Call, Concurrent, Atomic, Slab}
use unsend.Base.{
  refl, none, some, [], ◌∷◌, ap, ◌++◌, List, ℕ, ◌≡◌, suc, zero, Option, length, is_nil, ◌==◌,
  if◌then◌else◌, is_some, true, arith,
}

abbrev pub pop_list : {R : Type 0} → List R → Option (R × List R)
pop_list [] = none
pop_list (r ∷ rs) = some (r, rs)

pub pop_list-nil : {R : Type 0} (q : List R) → q ≡ [] → pop_list q ≡ none
pop_list-nil q e = ap pop_list e

pub list-push :
    {R : Type 0} (r : R) (q q' : List R) → Option.some (q ++ r ∷ []) ≡ some q' → q' ≡ q ++ r ∷ []
list-push r q q' e = ground (arith, e)

abbrev pub list_queue : (R : Type 0) → Concurrent (List R) R
list_queue R = record {
  unbounded = [];
  push = λ r q. some (q ++ r ∷ []);
  pop = pop_list;
  is_empty = is_nil;
  items = λ q. q;
  items-unbounded = refl;
  items-push = list-push;
  pop-nil = pop_list-nil;
  pop-cons = λ r rs q e. (rs, ap pop_list e, refl);
  is_empty_lem = λ q. refl;
}

abbrev pub option_waker : Atomic (Option ℕ)
option_waker = record {
  new = none;
  register = λ v a. some v;
  cleared = λ a. none;
  holds = λ a. a;
  holds-new = refl;
  holds-register = λ v a. refl;
  holds-cleared = λ a. refl;
}

module _ {W : Type 0} where
  abbrev pub slot : List (Option W) → ℕ → Option W
  slot [] k = none
  slot (x ∷ xs) zero = x
  slot (x ∷ xs) (suc k) = slot xs k

  abbrev pub clear_slot : ℕ → List (Option W) → List (Option W)
  clear_slot i [] = []
  clear_slot zero (x ∷ xs) = none ∷ xs
  clear_slot (suc i) (x ∷ xs) = x ∷ clear_slot i xs

  abbrev pub first_slot : List (Option W) → Option W
  first_slot [] = none
  first_slot (some w ∷ xs) = some w
  first_slot (none ∷ xs) = first_slot xs

  abbrev pub all_slots : List (Option W) → List W
  all_slots [] = []
  all_slots (some w ∷ xs) = w ∷ all_slots xs
  all_slots (none ∷ xs) = all_slots xs

  abbrev pub other_slots : List (Option W) → List W
  other_slots [] = []
  other_slots (some w ∷ xs) = all_slots xs
  other_slots (none ∷ xs) = other_slots xs

  pub slot-length : (xs : List (Option W)) → slot xs (length xs) ≡ none
  slot-length [] = refl
  slot-length (x ∷ xs) = slot-length xs

  pub slot-append :
      (w : W) (xs : List (Option W)) (k : ℕ)
      → slot (xs ++ some w ∷ []) k ≡ (if k == length xs then some w else slot xs k)
  slot-append w [] zero = refl
  slot-append w [] (suc k) = ground arith
  slot-append w (x ∷ xs) zero = ground arith
  slot-append w (x ∷ xs) (suc k) = ground (arith, slot-append w xs k)

  pub slot-clear :
      (i : ℕ) (xs : List (Option W)) (k : ℕ)
      → slot (clear_slot i xs) k ≡ (if k == i then none else slot xs k)
  slot-clear i [] k = ground arith
  slot-clear zero (x ∷ xs) zero = ground arith
  slot-clear zero (x ∷ xs) (suc k) = ground arith
  slot-clear (suc i) (x ∷ xs) zero = ground arith
  slot-clear (suc i) (x ∷ xs) (suc k) = ground (arith, slot-clear i xs k)

  pub first_slot-none : (xs : List (Option W)) → ((k : ℕ) → slot xs k ≡ none) → first_slot xs ≡ none
  first_slot-none [] h = refl
  first_slot-none (some w ∷ xs) h = h 0
  first_slot-none (none ∷ xs) h = first_slot-none xs (λ k. h (suc k))

  all_slots-none : (xs : List (Option W)) → ((k : ℕ) → slot xs k ≡ none) → all_slots xs ≡ []
  all_slots-none [] h = refl
  all_slots-none (some w ∷ xs) h = absurd (ground (arith, h 0))
  all_slots-none (none ∷ xs) h = all_slots-none xs (λ k. h (suc k))

  pub other_slots-none : (xs : List (Option W)) → ((k : ℕ) → slot xs k ≡ none) → other_slots xs ≡ []
  other_slots-none [] h = refl
  other_slots-none (some w ∷ xs) h = absurd (ground (arith, h 0))
  other_slots-none (none ∷ xs) h = other_slots-none xs (λ k. h (suc k))

  pub first_slot-some :
      (xs : List (Option W)) (k : ℕ) (w : W) → slot xs k ≡ some w → is_some (first_slot xs) ≡ true
  first_slot-some [] k w e = absurd (ground (arith, e))
  first_slot-some (some v ∷ xs) k w e = refl
  first_slot-some (none ∷ xs) zero w e = absurd (ground (arith, e))
  first_slot-some (none ∷ xs) (suc k) w e = first_slot-some xs k w e

  abbrev pub list_slab : Slab (List (Option W)) W
  list_slab = record {
    new = [];
    vacant_key = length;
    insert = λ w s. s ++ some w ∷ [];
    try_remove = clear_slot;
    first = first_slot;
    others = other_slots;
    drained = λ s. [];
    get = slot;
    get-new = λ k. refl;
    get-vacant = slot-length;
    get-insert = slot-append;
    get-try_remove = slot-clear;
    get-drained = λ s k. refl;
    first-none = first_slot-none;
    others-none = other_slots-none;
    first-some = first_slot-some;
  }

-- The crates for tasks that are numbers, whose waker is their number, that do what `runs` says when
-- they run and what `drops` says when they are dropped.
abbrev pub list_crates :
    (List ℕ → ℕ → List (Call ℕ))
    → (ℕ → List (Call ℕ))
    → Crates (List ℕ) (Option ℕ) (List (Option ℕ)) ℕ ℕ
list_crates runs drops = record {
  queue = list_queue ℕ;
  atomic = option_waker;
  slab = list_slab;
  waker = λ r. r;
  runs = runs;
  wakes = λ w. some w;
  forgets = λ w. none;
  drops = drops;
}

-- Tasks that only run.
abbrev pub idle_crates : Crates (List ℕ) (Option ℕ) (List (Option ℕ)) ℕ ℕ
idle_crates = list_crates (λ rs r. []) (λ r. [])

-- Tasks that end when they run: each has its own key in the slab.
abbrev pub ending_crates : Crates (List ℕ) (Option ℕ) (List (Option ℕ)) ℕ ℕ
ending_crates = list_crates (λ rs r. Call.ends r ∷ []) (λ r. [])

-- Tasks that schedule themselves whenever they run, on the thread 1.
abbrev pub busy_crates : Crates (List ℕ) (Option ℕ) (List (Option ℕ)) ℕ ℕ
busy_crates = list_crates (λ rs r. Call.schedules (some 1) r ∷ []) (λ r. [])

-- Tasks that were polled: each has its own key in the slab.
abbrev pub polled_crates : Crates (List ℕ) (Option ℕ) (List (Option ℕ)) ℕ ℕ
polled_crates = list_crates (λ rs r. []) (λ r. Call.ends r ∷ [])

-- The same, of which each is scheduled already.
abbrev pub scheduled_crates : Crates (List ℕ) (Option ℕ) (List (Option ℕ)) ℕ ℕ
scheduled_crates = record polled_crates { wakes = λ w. none }

-- ===== src/Event/Chain.antt =====
-- The doubly linked list in memory: `Chain m p xs n` says that the entries `xs` are linked in both
-- directions, with `p` before the first and `n` behind the last.
use unsend.Base.{
  ◌≡◌, refl, Bool, true, false, ◌||◌, Option, some, List, [], ◌∷◌, ◌++◌, arith, ◌==◌, ◌≢◌, ◌⊎◌, inl,
  inr, Bool-cases,
}
use unsend.Event.World.{Pointer, State, Listener}

-- Address and state of each entry, in order.
abbrev pub Cells : Type 0 → Type 0
Cells T = List (Pointer × State T)

abbrev pub Memory : Type 0 → Type 0
Memory T = Pointer → Option (Listener T)

module _ {T : Type 0} where
  abbrev pub has : Pointer → Cells T → Bool
  has a [] = false
  has a ((b, _) ∷ xs) = (a == b) || has a xs

  abbrev pub Distinct : Cells T → Type 0
  Distinct [] = Unit {0}
  Distinct ((a, _) ∷ xs) = (has a xs ≡ false) × Distinct xs

  abbrev pub first_or : Cells T → Option Pointer → Option Pointer
  first_or [] n = n
  first_or ((a, _) ∷ xs) n = some a

  abbrev pub last_or : Option Pointer → Cells T → Option Pointer
  last_or p [] = p
  last_or p ((a, _) ∷ xs) = last_or (some a) xs

  abbrev pub cell : Option Pointer → Option Pointer → State T → Option (Listener T)
  cell p n s = some (record { in_list = true; entry = record { next = n; prev = p; state = s } })

  abbrev pub Chain : Memory T → Option Pointer → Cells T → Option Pointer → Type 0
  Chain m p [] n = Unit {0}
  Chain m p ((a, s) ∷ xs) n = (m a ≡ cell p (first_or xs n) s) × Chain m (some a) xs n

  abbrev pub SameOutside : Cells T → Memory T → Memory T → Type 0
  SameOutside xs m m' = (a : Pointer) → has a xs ≡ false → m' a ≡ m a

  pub has-append : (a : Pointer) (xs ys : Cells T) → has a (xs ++ ys) ≡ (has a xs || has a ys)
  has-append a [] ys = refl
  has-append a ((b, _) ∷ xs) ys = ground (arith, has-append a xs ys)

  -- An address that is on neither side, nor in the middle.
  pub not-has-append :
      (a b : Pointer) (s : State T) (xs ys : Cells T)
      → has a (xs ++ ys) ≡ false
      → a ≢ b
      → (has a xs ≡ false) × (has a ys ≡ false) × (has a (xs ++ (b, s) ∷ ys) ≡ false)
  not-has-append a b s xs ys o h = ground (arith, has-append a xs ys, has-append a xs ((b, s) ∷ ys))

  pub first_or-append :
      (xs ys : Cells T) (n : Option Pointer) → first_or (xs ++ ys) n ≡ first_or xs (first_or ys n)
  first_or-append [] ys n = refl
  first_or-append (x ∷ xs) ys n = refl

  pub last_or-append :
      (p : Option Pointer) (xs ys : Cells T) → last_or p (xs ++ ys) ≡ last_or (last_or p xs) ys
  last_or-append p [] ys = refl
  last_or-append p ((a, _) ∷ xs) ys = last_or-append (some a) xs ys

  pub Chain-append :
      (m : Memory T) (p : Option Pointer) (xs ys : Cells T) (n : Option Pointer)
      → Chain m p xs (first_or ys n)
      → Chain m (last_or p xs) ys n
      → Chain m p (xs ++ ys) n
  Chain-append m p [] ys n c d = d
  Chain-append m p ((a, s) ∷ xs) ys n c d =
      (ground (arith, c.0, first_or-append xs ys n), Chain-append m (some a) xs ys n c.1 d)

  pub Chain-append_left :
      (m : Memory T) (p : Option Pointer) (xs ys : Cells T) (n : Option Pointer)
      → Chain m p (xs ++ ys) n
      → Chain m p xs (first_or ys n)
  Chain-append_left m p [] ys n c = tt
  Chain-append_left m p ((a, s) ∷ xs) ys n c =
      (ground (arith, c.0, first_or-append xs ys n), Chain-append_left m (some a) xs ys n c.1)

  pub Chain-append_right :
      (m : Memory T) (p : Option Pointer) (xs ys : Cells T) (n : Option Pointer)
      → Chain m p (xs ++ ys) n
      → Chain m (last_or p xs) ys n
  Chain-append_right m p [] ys n c = c
  Chain-append_right m p ((a, s) ∷ xs) ys n c = Chain-append_right m (some a) xs ys n c.1

  -- A chain survives any change that spares its own addresses.
  pub frame :
      (m m' : Memory T) (p : Option Pointer) (xs : Cells T) (n : Option Pointer)
      → Chain m p xs n
      → ((a : Pointer) → has a xs ≡ true → m' a ≡ m a)
      → Chain m' p xs n
  frame m m' p [] n c same = tt
  frame m m' p ((a, s) ∷ xs) n c same =
      (ground (arith, same a, c.0), frame m m' (some a) xs n c.1 λ b i. same b (ground arith))

  pub Distinct-append_left : (xs ys : Cells T) → Distinct (xs ++ ys) → Distinct xs
  Distinct-append_left [] ys d = tt
  Distinct-append_left ((a, _) ∷ xs) ys d =
      (ground (arith, d.0, has-append a xs ys), Distinct-append_left xs ys d.1)

  pub Distinct-append_right : (xs ys : Cells T) → Distinct (xs ++ ys) → Distinct ys
  Distinct-append_right [] ys d = d
  Distinct-append_right ((a, _) ∷ xs) ys d = Distinct-append_right xs ys d.1

  -- No address stands on both sides.
  pub Distinct-apart :
      (xs ys : Cells T) → Distinct (xs ++ ys) → (a : Pointer) → has a xs ≡ true → has a ys ≡ false
  Distinct-apart [] ys d a i = ground arith
  Distinct-apart ((b, _) ∷ xs) ys d a i =
      ground (arith, d.0, has-append b xs ys, Distinct-apart xs ys d.1 a)

  pub Distinct-append :
      (xs ys : Cells T)
      → Distinct xs
      → Distinct ys
      → ((a : Pointer) → has a xs ≡ true → has a ys ≡ false)
      → Distinct (xs ++ ys)
  Distinct-append [] ys d e apart = e
  Distinct-append ((a, _) ∷ xs) ys d e apart = (
    ground (arith, d.0, has-append a xs ys, apart a),
    Distinct-append xs ys d.1 e λ b i. apart b (ground arith),
  )

  pub Distinct-middle :
      (xs : Cells T) (a : Pointer) (s : State T) (ys : Cells T)
      → Distinct (xs ++ (a, s) ∷ ys)
      → has a (xs ++ ys) ≡ false
  Distinct-middle [] a s ys d = d.0
  Distinct-middle ((b, _) ∷ xs) a s ys d =
      ground (arith, d.0, has-append b xs ((a, s) ∷ ys), Distinct-middle xs a s ys d.1)

  -- The last entry, if there is one.
  pub snoc_cases :
      (xs : Cells T) → (xs ≡ []) ⊎ ((zs : Cells T) × (c : Pointer × State T) × (xs ≡ zs ++ c ∷ []))
  snoc_cases [] = inl refl
  snoc_cases (x ∷ xs) = elim (snoc_cases xs) [
    | inl e ↦ inr ([], x, ground arith)
    | inr (zs, c, e) ↦ inr (x ∷ zs, c, ground arith)
  ]

  -- Every address of a chain holds a listener that is in the list.
  pub has-in_list :
      (m : Memory T) (p : Option Pointer) (xs : Cells T) (n : Option Pointer) (a : Pointer)
      → Chain m p xs n
      → has a xs ≡ true
      → (l : Listener T) × (m a ≡ some l) × (l.in_list ≡ true)
  has-in_list m p [] n a c i = absurd (ground arith)
  has-in_list m p ((b, s) ∷ xs) n a c i = elim (Bool-cases (a == b)) [
    | inl e ↦
        let q : a ≡ b = ground arith in
        (
          record { in_list = true; entry = record { next = first_or xs n; prev = p; state = s } },
          rw q c.0,
          refl,
        )
    | inr e ↦ has-in_list m (some b) xs n a c.1 (ground arith)
  ]

-- ===== src/Event/Relink.antt =====
-- The two halves of an unlinking: the pointer behind the entries `xs`, and the one before them.
use unsend.Base.{◌≡◌, refl, Option, none, some, [], ◌∷◌, ◌++◌, arith, inl, inr, subst, sym}
use unsend.Event.World.{World, Pointer, State}
use unsend.Event.Listener.{unlink_prev, unlink_next, link_tail}
use unsend.Event.Returns.{Returns, returns}
use unsend.Event.Chain.{
  Cells, Distinct, first_or, last_or, Chain, SameOutside, has-append, first_or-append,
  last_or-append, Chain-append, Chain-append_left, Chain-append_right, frame, snoc_cases,
  Distinct-apart,
}
use unsend.Event.Linked.{SameLive, last_store}

module _ {T : Type 0} where
  -- `xs` now ends at `n`, and nothing else has changed.
  pub record EndsAt (v : World T) (xs : Cells T) (n : Option Pointer) (v' : World T) : Type 0 where
    pub inner : v'.inner ≡ record v.inner { head = first_or xs n }
    pub chain : Chain v'.memory none xs n
    pub same : SameOutside xs v.memory v'.memory
    pub woken : v'.woken ≡ v.woken
    pub live : SameLive v v'

  EndsAt-snoc :
      (v : World T) (zs : Cells T) (b : Pointer) (t : State T) (old n : Option Pointer)
      → v.inner.head ≡ first_or (zs ++ (b, t) ∷ []) old
      → Chain v.memory none (zs ++ (b, t) ∷ []) old
      → Distinct (zs ++ (b, t) ∷ [])
      → Returns (λ _. EndsAt v (zs ++ (b, t) ∷ []) n) (unlink_prev (some b) n v)
  unfolding unlink_prev
  EndsAt-snoc v zs b t old n h c d =
      let apart = Distinct-apart zs ((b, t) ∷ []) d in
      let held = Chain-append_right v.memory none zs ((b, t) ∷ []) old c in
      last_store v b _ held.0 (record {
        inner =
            ground
              (arith, h, first_or-append zs ((b, t) ∷ []) old, first_or-append zs ((b, t) ∷ []) n);
        chain =
            Chain-append _ none zs ((b, t) ∷ []) n
              (frame v.memory _ none zs (some b)
                (Chain-append_left v.memory none zs ((b, t) ∷ []) old c)
                λ a i. ground (arith, apart a i))
              (ground arith);
        same = λ a o. ground (arith, has-append a zs ((b, t) ∷ []));
        woken = refl;
        live = λ a. ground (arith, held.0);
      })

  abbrev PrevRelinks : World T → Option Pointer → Option Pointer → Cells T → Type 0
  PrevRelinks v old n xs =
      v.inner.head ≡ first_or xs old
      → Chain v.memory none xs old
      → Distinct xs
      → Returns (λ _. EndsAt v xs n) (unlink_prev (last_or none xs) n v)

  PrevRelinks-nil : (v : World T) (old n : Option Pointer) → PrevRelinks v old n []
  unfolding unlink_prev
  PrevRelinks-nil v old n h c d =
      returns
        (record { inner = refl; chain = tt; same = λ a o. refl; woken = refl; live = λ a. refl })

  pub unlink_prev_lem :
      (v : World T) (xs : Cells T) (old n q : Option Pointer)
      → q ≡ last_or none xs
      → v.inner.head ≡ first_or xs old
      → Chain v.memory none xs old
      → Distinct xs
      → Returns (λ _. EndsAt v xs n) (unlink_prev q n v)
  unlink_prev_lem v xs old n q at = rw at (elim (snoc_cases xs) [
    | inl e ↦ subst (PrevRelinks v old n) (sym e) (PrevRelinks-nil v old n)
    | inr (zs, (b, t), e) ↦
        subst (PrevRelinks v old n) (sym e)
          (λ h c d. rw (last_or-append none zs ((b, t) ∷ [])) (EndsAt-snoc v zs b t old n h c d))
  ])

  -- `insert` links its entry behind the old tail as an unlinking would.
  pub link_tail-unlink_prev :
      (p : Option Pointer) (self : Pointer) (v : World T)
      → link_tail p self v ≡ unlink_prev p (some self) v
  unfolding link_tail unlink_prev
  link_tail-unlink_prev none self v = refl
  link_tail-unlink_prev (some t) self v = refl

  -- `ys` now starts behind `p`, and nothing else has changed.
  pub record StartsAt (v : World T) (p : Option Pointer) (ys : Cells T) (v' : World T)
      : Type 0 where
    pub inner : v'.inner ≡ record v.inner { tail = last_or p ys }
    pub chain : Chain v'.memory p ys none
    pub same : SameOutside ys v.memory v'.memory
    pub woken : v'.woken ≡ v.woken
    pub live : SameLive v v'

  StartsAt-first :
      (v : World T) (ys : Cells T) (old p : Option Pointer)
      → v.inner.tail ≡ last_or old ys
      → Chain v.memory old ys none
      → Distinct ys
      → Returns (λ _. StartsAt v p ys) (unlink_next (first_or ys none) p v)
  unfolding unlink_next
  StartsAt-first v [] old p t c d =
      returns
        (record { inner = refl; chain = tt; same = λ a o. refl; woken = refl; live = λ a. refl })
  StartsAt-first v ((a, s) ∷ ys) old p t c d = last_store v a _ c.0 (record {
    inner = ground arith;
    chain = (ground arith, frame v.memory _ (some a) ys none c.1 λ b i. ground arith);
    same = λ b o. ground arith;
    woken = refl;
    live = λ b. ground (arith, c.0);
  })

  pub unlink_next_lem :
      (v : World T) (ys : Cells T) (old p q : Option Pointer)
      → q ≡ first_or ys none
      → v.inner.tail ≡ last_or old ys
      → Chain v.memory old ys none
      → Distinct ys
      → Returns (λ _. StartsAt v p ys) (unlink_next q p v)
  unlink_next_lem v ys old p q at = rw at (StartsAt-first v ys old p)

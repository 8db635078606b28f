-- ===== src/Event/Linked.antt =====
-- A world whose list is `xs`, and what the commands on one entry do to it.
use unsend.Base.{
  ℕ, ◌≡◌, false, Option, none, some, List, ◌∷◌, ◌++◌, arith, ◌==◌, is_some, inl, inr, Bool-cases,
  ◌≢◌, ◌<◌, ◌-◌, ◌∙◌, sym,
}
use unsend.Event.World.{
  World, Pointer, State, Listener, ok, Cmd, and_then, update, load, store, Inner, Waker,
}
use unsend.Event.Returns.{Returns, returns}
use unsend.Event.Chain.{
  Cells, Memory, has, Distinct, first_or, last_or, Chain, cell, has-in_list, Chain-append_right,
  Chain-append_left, Distinct-append_right, first_or-append, last_or-append, Chain-append, frame,
  Distinct-apart, Distinct-append, Distinct-append_left, has-append,
}
use unsend.Event.Listener.{decrement_len}

module _ {T : Type 0} where
  pub record Linked (w : World T) (xs : Cells T) : Type 0 where
    pub head : w.inner.head ≡ first_or xs none
    pub tail : w.inner.tail ≡ last_or none xs
    pub chain : Chain w.memory none xs none
    pub distinct : Distinct xs
    pub outside :
        (a : Pointer) (l : Listener T) → has a xs ≡ false → w.memory a ≡ some l → l.in_list ≡ false

  -- The links do not depend on the rest of the header.
  pub Linked-header :
      {w : World T} {xs : Cells T} (first : Option Pointer) (notified len : ℕ) (vs : List Waker)
      → Linked w xs
      → Linked
          (record {
            inner = record w.inner { first = first; notified = notified; len = len };
            memory = w.memory;
            woken = vs;
          })
          xs
  Linked-header first notified len vs k = record {
    head = k.head;
    tail = k.tail;
    chain = k.chain;
    distinct = k.distinct;
    outside = k.outside;
  }

  -- The same addresses hold listeners.
  abbrev pub SameLive : World T → World T → Type 0
  SameLive w w' = (a : Pointer) → is_some (w'.memory a) ≡ is_some (w.memory a)

  pub load-ok :
      (w : World T) (p : Pointer) {l : Listener T} → w.memory p ≡ some l → load p w ≡ ok (l, w)
  unfolding load
  load-ok w p e = rw (e, load)

  pub store-ok :
      (w : World T) (p : Pointer) (f : Listener T → Listener T) {l : Listener T}
      → w.memory p ≡ some l
      → store p f w ≡ ok (tt, record w { memory = update w.memory p (some (f l)) })
  unfolding store
  store-ok w p f e = rw (e, store)

  pub update_self : (m : Memory T) (p : Pointer) (c : Option (Listener T)) → update m p c p ≡ c
  update_self m p c = ground arith

  pub update_ne :
      (m : Memory T) {p q : Pointer} (c : Option (Listener T)) → q ≢ p → update m p c q ≡ m q
  update_ne m c h = ground arith

  -- A write that ends a command.
  pub last_store :
      {P : Unit {0} → World T → Type 0} (w : World T) (p : Pointer) {l : Listener T}
      (f : Listener T → Listener T)
      → w.memory p ≡ some l
      → P tt (record w { memory = update w.memory p (some (f l)) })
      → Returns P (store p f w)
  last_store w p f e r = rw (store-ok w p f e) (returns r)

  -- A listener whose `in_list` is unset is not among the entries.
  pub not-has :
      (w : World T) (xs : Cells T) (a : Pointer) {l : Listener T}
      → Linked w xs
      → w.memory a ≡ some l
      → l.in_list ≡ false
      → has a xs ≡ false
  not-has w xs a k e apart = elim (Bool-cases (has a xs)) [
    | inl i ↦ let (l', e', i') = has-in_list w.memory none xs none a k.chain i in ground arith
    | inr o ↦ o
  ]

  -- A read, a write or a change of the header, and what follows.
  pub after_load :
      {A : Type 0} {P : A → World T → Type 0} (w : World T) (p : Pointer) (k : Listener T → Cmd T A)
      {l : Listener T}
      → w.memory p ≡ some l
      → Returns P (k l w)
      → Returns P (and_then (load p w) k)
  after_load w p k e r = rw (load-ok w p e) r

  pub after_store :
      {A : Type 0} {P : A → World T → Type 0} (w : World T) (p : Pointer)
      (f : Listener T → Listener T) (k : Unit {0} → Cmd T A) {l : Listener T}
      → w.memory p ≡ some l
      → Returns P (k tt (record w { memory = update w.memory p (some (f l)) }))
      → Returns P (and_then (store p f w) k)
  after_store w p f k e r = rw (store-ok w p f e) r

  pub after_decrement_len :
      {A : Type 0} {P : A → World T → Type 0} (w : World T) (i : Inner) (k : Unit {0} → Cmd T A)
      → 0 < i.len
      → Returns P (k tt (record w { inner = record w.inner { len = w.inner.len - 1 } }))
      → Returns P (and_then (decrement_len i w) k)
  unfolding decrement_len
  after_decrement_len w i k pos r =
      let e : (i.len == 0) ≡ false = ground arith in rw (e, decrement_len) r

  -- A new state in one entry leaves the links as they are.
  pub Linked-set_state :
      (w : World T) (xs ys : Cells T) (a : Pointer) (s s' : State T)
      → Linked w (xs ++ (a, s) ∷ ys)
      → Linked
          (record w { memory = update w.memory a (cell (last_or none xs) (first_or ys none) s') })
          (xs ++ (a, s') ∷ ys)
  Linked-set_state w xs ys a s s' k =
      let right = Chain-append_right w.memory none xs ((a, s) ∷ ys) none k.chain in
      let left = Chain-append_left w.memory none xs ((a, s) ∷ ys) none k.chain in
      let d = Distinct-append_right xs ((a, s) ∷ ys) k.distinct in
      record {
        head =
            k.head
            ∙ first_or-append xs ((a, s) ∷ ys) none
            ∙ sym (first_or-append xs ((a, s') ∷ ys) none);
        tail =
            k.tail
            ∙ last_or-append none xs ((a, s) ∷ ys)
            ∙ sym (last_or-append none xs ((a, s') ∷ ys));
        chain =
            Chain-append _ none xs ((a, s') ∷ ys) none
              (frame w.memory _ none xs (some a) left
                λ b i. ground (arith, Distinct-apart xs ((a, s) ∷ ys) k.distinct b i))
              (
                update_self w.memory a _,
                frame w.memory _ (some a) ys none right.1 λ b i. ground (arith, d.0),
              );
        distinct =
            Distinct-append xs ((a, s') ∷ ys) (Distinct-append_left xs ((a, s) ∷ ys) k.distinct) d
              λ b i. ground (arith, Distinct-apart xs ((a, s) ∷ ys) k.distinct b i);
        outside = λ b l o q.
            ground
              (arith, has-append b xs ((a, s) ∷ ys), has-append b xs ((a, s') ∷ ys), k.outside b l);
      }

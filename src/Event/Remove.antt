-- ===== src/Event/Remove.antt =====
-- `Listener::remove` unlinks the entry and hands its state to `settle`.
use unsend.Event.Returns
use unsend.Event.World.{World, Pointer, State, Listener, Inner, update}
use unsend.Event.Chain.{
  Cells, cell, has, Distinct, Chain, last_or, Distinct-append, first_or, Chain-append_right,
  Distinct-append_right, Distinct-append_left, Chain-append_left, Distinct-apart, Memory,
  first_or-append, last_or-append, frame, Chain-append, not-has-append,
}
use unsend.Event.Linked.{
  Linked, SameLive, load-ok, after_load, after_store, after_decrement_len, update_self,
}
use unsend.Base.{
  refl, inl, inr, ◌++◌, ◌≡◌, ◌∷◌, if◌then◌else◌, false, true, none, some, Option, ◌+◌, Bool-cases,
  arith, Bool, ◌∙◌, ◌<◌, ◌≢◌, ◌≢◌, ◌==◌, is_some, ◌≢◌, ==_iff, ◌≢◌, sym, ap, ◌≢◌, ◌≢◌, ◌≢◌, ◌≢◌,
  ◌≢◌, ◌≢◌, ◌≢◌, ◌≢◌, ◌≢◌, ◌-◌,
}
use unsend.Event.Returns.{Returns}
use unsend.Event.Relink.{EndsAt, StartsAt, unlink_prev_lem, unlink_next_lem}
use unsend.Event.Listener.{remove, same_pointer, unlink_prev, unlink_next, settle, empty_entry}

module _ {T : Type 0} where
  pub record Unlinked (w : World T) (self : Pointer) (xs ys : Cells T) (u : World T) : Type 0 where
    pub linked : Linked u (xs ++ ys)
    pub first :
        u.inner.first
        ≡ (if same_pointer w.inner.first self then first_or ys none else w.inner.first)
    pub notified : u.inner.notified ≡ w.inner.notified
    pub len : u.inner.len + 1 ≡ w.inner.len
    pub woken : u.woken ≡ w.woken
    pub live : SameLive w u

  module _ (w : World T) (self : Pointer) (s : State T) (xs ys : Cells T)
      (k : Linked w (xs ++ (self, s) ∷ ys)) where
    held : w.memory self ≡ cell (last_or none xs) (first_or ys none) s
    held = (Chain-append_right w.memory none xs ((self, s) ∷ ys) none k.chain).0

    not-left : has self xs ≡ false
    not-left = elim (Bool-cases (has self xs)) [
      | inl i ↦ absurd (ground (arith, Distinct-apart xs ((self, s) ∷ ys) k.distinct self i))
      | inr o ↦ o
    ]

    not-right : has self ys ≡ false
    not-right = (Distinct-append_right xs ((self, s) ∷ ys) k.distinct).0

    apart : (a : Pointer) → has a xs ≡ true → has a ys ≡ false
    apart a i = ground (arith, Distinct-apart xs ((self, s) ∷ ys) k.distinct a i)

    distinct : Distinct (xs ++ ys)
    distinct =
        Distinct-append xs ys (Distinct-append_left xs ((self, s) ∷ ys) k.distinct)
          (Distinct-append_right xs ((self, s) ∷ ys) k.distinct).1 apart

    left_links : Chain w.memory none xs (some self)
    left_links = Chain-append_left w.memory none xs ((self, s) ∷ ys) none k.chain

    right_links : Chain w.memory (some self) ys none
    right_links = (Chain-append_right w.memory none xs ((self, s) ∷ ys) none k.chain).1

    unlink_prev_step :
        Returns
          (λ _. EndsAt w xs (first_or ys none))
          (unlink_prev (last_or none xs) (first_or ys none) w)
    unlink_prev_step =
        unlink_prev_lem w xs (some self) (first_or ys none) (last_or none xs) refl
          (k.head ∙ first_or-append xs ((self, s) ∷ ys) none) left_links
          (Distinct-append_left xs ((self, s) ∷ ys) k.distinct)

    module _ {v : World T} (r : EndsAt w xs (first_or ys none) v) where
      unlink_next_step :
          Returns
            (λ _. StartsAt v (last_or none xs) ys)
            (unlink_next (first_or ys none) (last_or none xs) v)
      unlink_next_step =
          unlink_next_lem v ys (some self) (last_or none xs) (first_or ys none) refl
            (ground (arith, r.inner, k.tail, last_or-append none xs ((self, s) ∷ ys)))
            (frame w.memory v.memory (some self) ys none right_links
              λ a i. r.same a (ground (arith, apart a)))
            (Distinct-append_right xs ((self, s) ∷ ys) k.distinct).1

      module _ {u : World T} (t : StartsAt v (last_or none xs) ys u) where
        still_held : u.memory self ≡ cell (last_or none xs) (first_or ys none) s
        still_held = t.same self not-right ∙ r.same self not-left ∙ held

        module _ (m : Memory T) (l : Listener T) (off : l.in_list ≡ false) (at : m self ≡ some l)
            (same : (a : Pointer) → a ≢ self → m a ≡ u.memory a) where
          outside_lem :
              (a : Pointer) (l' : Listener T)
              → has a (xs ++ ys) ≡ false
              → m a ≡ some l'
              → l'.in_list ≡ false
          outside_lem a l' o q = elim (Bool-cases (a == self)) [
            | inl e ↦
                let e' : a ≡ self = (==_iff a self).0 e in
                let e'' : some l' ≡ some l = sym q ∙ ap m e' ∙ at in cc
            | inr e ↦
                let ne : a ≢ self = ground arith in
                let (x, y, z) = not-has-append a self s xs ys o ne in
                k.outside a l' z (sym (same a ne ∙ t.same a y ∙ r.same a x) ∙ q)
          ]

          live_lem : (a : Pointer) → is_some (m a) ≡ is_some (w.memory a)
          live_lem a = elim (Bool-cases (a == self)) [
            | inl e ↦ let e' : a ≡ self = (==_iff a self).0 e in rw (e', at, held)
            | inr e ↦ ap is_some (same a (ground arith)) ∙ t.live a ∙ r.live a
          ]

          Unlinked-final :
              (i : Inner)
              → i.head ≡ u.inner.head
              → i.tail ≡ u.inner.tail
              → i.notified ≡ u.inner.notified
              → i.len + 1 ≡ u.inner.len
              → i.first
                ≡ (if same_pointer u.inner.first self then first_or ys none else u.inner.first)
              → Unlinked w self xs ys (record { inner = i; memory = m; woken = u.woken })
          Unlinked-final i hd tl nt ln fr = record {
            linked = record {
              head = ground (arith, t.inner, r.inner, first_or-append xs ys none);
              tail = ground (arith, t.inner, r.inner, last_or-append none xs ys);
              chain =
                  Chain-append m none xs ys none
                    (frame v.memory m none xs (first_or ys none) r.chain
                      λ a i. ground (arith, same a, t.same a, apart a, not-left))
                    (frame u.memory m (last_or none xs) ys none t.chain
                      λ a i. ground (arith, same a, not-right));
              distinct = distinct;
              outside = outside_lem;
            };
            first = ground (arith, t.inner, r.inner);
            notified = ground (arith, t.inner, r.inner);
            len = ground (arith, t.inner, r.inner);
            woken = t.woken ∙ r.woken;
            live = live_lem;
          }

    pub remove_lem :
        {Q : Option T → World T → Type 0} (propagate : Bool)
        → 0 < w.inner.len
        → ((u : World T) → Unlinked w self xs ys u → Returns Q (settle propagate s u))
        → Returns Q (remove self propagate w)
    unfolding remove
    remove_lem propagate pos next = rw (load-ok w self held) (
        Returns.bind unlink_prev_step λ _ v r. Returns.bind (unlink_next_step r) λ _ u t.
          let i₁ : Inner =
            if same_pointer u.inner.first self
            then record u.inner { first = first_or ys none }
            else u.inner in
          let i₂ : Inner = record i₁ { len = i₁.len - 1 } in
          let m₁ = update u.memory self (some (record { in_list = true; entry = empty_entry })) in
          after_load _ self _ (still_held r t) (
            after_store _ self _ _ (still_held r t) (
              after_decrement_len _ i₁ _ (ground (arith, t.inner, r.inner)) (
                after_store _ self _ _ (update_self u.memory self _) (
                  next _ (
                    Unlinked-final r t _ _ refl (update_self m₁ self _) (λ a ne. ground arith) i₂
                      (ground (arith, t.inner, r.inner)) (ground (arith, t.inner, r.inner))
                      (ground (arith, t.inner, r.inner)) (ground (arith, t.inner, r.inner))
                      (ground (arith, t.inner, r.inner))))))))

-- ===== src/Event/Insert.antt =====
-- `Listener::insert` appends the listener to the list.
use unsend.Base.{
  ◌+◌, ◌≡◌, refl, false, none, some, [], ◌∷◌, ◌++◌, arith, is_none, if◌then◌else◌, ◌∙◌,
}
use unsend.Event.World.{World, Pointer, created, Listener, update}
use unsend.Event.Listener.{insert}
use unsend.Event.Returns
use unsend.Event.Returns.{Returns, returns}
use unsend.Event.Chain.{
  Cells, has-append, first_or-append, last_or-append, Chain-append, frame, Distinct-append,
}
use unsend.Event.Linked.{Linked, SameLive, store-ok, update_self, last_store, not-has}
use unsend.Event.Relink.{unlink_prev_lem, link_tail-unlink_prev}

module _ {T : Type 0} where
  pub record Inserted (w : World T) (self : Pointer) (xs : Cells T) (w' : World T) : Type 0 where
    pub linked : Linked w' (xs ++ (self, created) ∷ [])
    pub first : w'.inner.first ≡ (if is_none w.inner.first then some self else w.inner.first)
    pub notified : w'.inner.notified ≡ w.inner.notified
    pub len : w'.inner.len ≡ w.inner.len + 1
    pub woken : w'.woken ≡ w.woken
    pub live : SameLive w w'

  module _ {w : World T} {self : Pointer} {l : Listener T} (e : w.memory self ≡ some l)
      (apart : l.in_list ≡ false) where
    -- The list that `insert` leaves.
    pub insert_lem :
        (xs : Cells T) → Linked w xs → Returns (λ _. Inserted w self xs) (insert self w)
    unfolding insert
    insert_lem xs k =
        let out = not-has w xs self k e apart in
        let v₁ : World T = record w {
          inner = record w.inner { tail = some self };
          memory = update w.memory self (
              some (record l {
                entry = record { next = none; prev = w.inner.tail; state = created };
              }));
        } in
        rw (store-ok w self _ e, link_tail-unlink_prev)
          (Returns.bind
            (unlink_prev_lem v₁ xs none (some self) w.inner.tail k.tail k.head
              (frame w.memory v₁.memory none xs none k.chain λ a i. ground (arith, out)) k.distinct)
            λ _ v r. last_store _ self _ (r.same self out ∙ update_self w.memory self _) (record {
              linked = record {
                head = ground (arith, r.inner, first_or-append xs ((self, created) ∷ []) none);
                tail = ground (arith, r.inner, last_or-append none xs ((self, created) ∷ []));
                chain =
                    Chain-append _ none xs ((self, created) ∷ []) none
                      (frame v.memory _ none xs (some self) r.chain λ a i. ground (arith, out))
                      ground (arith, k.tail);
                distinct =
                    Distinct-append xs ((self, created) ∷ []) k.distinct (refl, tt)
                      (λ a i. ground (arith, out));
                outside = λ a l' o q.
                    ground
                      (arith, has-append a xs ((self, created) ∷ []), r.same a, k.outside a l');
              };
              first = ground (arith, r.inner);
              notified = ground (arith, r.inner);
              len = ground (arith, r.inner);
              woken = r.woken;
              live = λ a. ground (arith, r.live a, e);
            }))

-- ===== src/Event/Unlink.antt =====
-- `Listener::remove` at a listener that was notified, and at one that waits.
use unsend.Event.World.{World, Pointer}
use unsend.Base.{
  List, ◌++◌, ◌∷◌, ◌-◌, ◌∙◌, arith, length-append, ◌≡◌, append_assoc, sym, false, none,
  if◌then◌else◌, [], ap, refl,
}
use unsend.Queue.{Notice, Waiter}
use unsend.Event.Rep.{
  Rep, notice_cells, waiter_cells, cells, notice_cell, notice_cells-append, waiter_cells-append,
}
use unsend.Event.Deliver.{queue}
use unsend.Event.Remove.{Unlinked}
use unsend.Event.Listener.{same_pointer}
use unsend.Event.Linked.{Linked-header}
use unsend.Event.Chain.{Distinct, has, first_or, Distinct-append_right, has-append}

module _ {T : Type 0} where
  pub cells-notice :
      (ys : List (Notice T)) (x : Notice T) (zs : List (Notice T)) (ws : List Waiter)
      → cells (queue (ys ++ x ∷ zs) ws)
        ≡ notice_cells ys ++ notice_cell x ∷ (notice_cells zs ++ waiter_cells ws)
  cells-notice ys x zs ws =
      rw (notice_cells-append ys (x ∷ zs)) (append_assoc (notice_cells ys) _ _)

  pub cells-without_notice :
      (ys zs : List (Notice T)) (ws : List Waiter)
      → cells (queue (ys ++ zs) ws) ≡ notice_cells ys ++ (notice_cells zs ++ waiter_cells ws)
  cells-without_notice ys zs ws =
      rw (notice_cells-append ys zs) (append_assoc (notice_cells ys) _ _)

  pub cells-waiter :
      (ns : List (Notice T)) (ys zs : List Waiter)
      → cells (queue ns (ys ++ zs)) ≡ (notice_cells ns ++ waiter_cells ys) ++ waiter_cells zs
  cells-waiter ns ys zs =
      rw (waiter_cells-append {T = T} ys zs) (sym (append_assoc (notice_cells ns) _ _))

same_pointer-out :
    (T : Type 0) (ws : List Waiter) (a : Pointer)
    → has {T = T} a (waiter_cells ws) ≡ false
    → same_pointer (first_or {T = T} (waiter_cells ws) none) a ≡ false
unfolding same_pointer
same_pointer-out T [] a o = refl
same_pointer-out T (y ∷ ws) a o = ground arith

module _ {T : Type 0} (w : World T) where
  pub Rep-unlink_notice :
      (u : World T) (ys : List (Notice T)) (x : Notice T) (zs : List (Notice T)) (ws : List Waiter)
      → Rep w (queue (ys ++ x ∷ zs) ws)
      → Unlinked w x.id (notice_cells ys) (notice_cells zs ++ waiter_cells ws) u
      → Rep
          (record u { inner = record u.inner { notified = u.inner.notified - 1 } })
          (queue (ys ++ zs) ws)
  Rep-unlink_notice u ys x zs ws r k = record {
    linked = rw (cells-without_notice ys zs ws) (Linked-header _ _ _ _ k.linked);
    first =
        let d : Distinct (notice_cells ys ++ notice_cell x ∷ (notice_cells zs ++ waiter_cells ws)) =
          rw (← cells-notice ys x zs ws) r.linked.distinct in
        let out = (Distinct-append_right (notice_cells ys) _ d).0 in
        ground (
          arith,
          k.first,
          r.first,
          same_pointer-out T ws x.id,
          has-append x.id (notice_cells zs) (waiter_cells ws),
          out,
        );
    notified =
        omega (arith, k.notified, r.notified, length-append ys (x ∷ zs), length-append ys zs);
    len = omega (arith, k.len, r.len, length-append ys (x ∷ zs), length-append ys zs);
  }

  unlinked_first :
      (u : World T) (ns : List (Notice T)) (x : Waiter) (zs ys : List Waiter)
      → w.inner.first ≡ first_or {T = T} (waiter_cells (ys ++ x ∷ zs)) none
      → Distinct (cells (queue ns (ys ++ x ∷ zs)))
      → u.inner.first ≡ (
          if same_pointer w.inner.first x.id
          then first_or {T = T} (waiter_cells zs) none
          else w.inner.first)
      → u.inner.first ≡ first_or {T = T} (waiter_cells (ys ++ zs)) none
  unfolding same_pointer
  unlinked_first u ns x zs [] e d h = ground (arith, e, h)
  unlinked_first u ns x zs (y ∷ ys) e d h =
      let out = (Distinct-append_right (notice_cells ns) _ d).0 in
      ground (
        arith,
        e,
        h,
        out,
        ap (has {T = T} y.id) (waiter_cells-append {T = T} ys (x ∷ zs)),
        has-append {T = T} y.id (waiter_cells ys) (waiter_cells (x ∷ zs)),
      )

  pub Rep-unlink_waiter :
      (u : World T) (ns : List (Notice T)) (ys : List Waiter) (x : Waiter) (zs : List Waiter)
      → Rep w (queue ns (ys ++ x ∷ zs))
      → Unlinked w x.id (notice_cells ns ++ waiter_cells ys) (waiter_cells zs) u
      → Rep u (queue ns (ys ++ zs))
  Rep-unlink_waiter u ns ys x zs r k = record {
    linked = rw (cells-waiter ns ys zs) k.linked;
    first = unlinked_first u ns x zs ys r.first r.linked.distinct k.first;
    notified = k.notified ∙ r.notified;
    len = omega (arith, k.len, r.len, length-append ys (x ∷ zs), length-append ys zs);
  }

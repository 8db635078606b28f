-- ===== src/Lock/OnceServed.antt =====
-- Any use of the cell of src/lock/once_cell.rs, and whom a wait for it ends.
use unsend.Lock.OnceAttended.{Attended, Initialized-Attended}
use unsend.Base.{
  Bool-cases, refl, none, some, ◌⊎◌, inl, inr, ℕ, ◌≡◌, true, false, is_some, ◌≤◌, arith, ap, ==_iff,
  ◌∙◌,
}
use unsend.Lock.OnceCell.{
  OnceCell, Answer, unready, success, failure, InitFuture, fresh, listening, setting, over,
  InitPoll, get_or_try_init, set_value, init_turn, got_value, failed, sets, poll_active, try_init,
}
use unsend.Lock.OnceSole.{Initializers, Initialized}
use unsend.Lock.OnceAwake.{listens_on, Awake}
use unsend.Queue.{in_notices, poll_result}
use unsend.Queue.Occurs.{count_notices}
use unsend.Lock.Wakeup.{Heard}
use unsend.Lock.Handover.{notified, poll_result-front}

listens-listening : (f : InitFuture) → 1 ≤ listens_on f → f ≡ listening
listens-listening fresh l = absurd (omega arith)
listens-listening listening l = refl
listens-listening setting l = absurd (omega arith)
listens-listening over l = absurd (omega arith)

module _ {T : Type 0} where
  -- What a poll of the caller's future makes of the poll of the future that polls it.
  abbrev pub started : {E : Type 0} → Answer T E → InitPoll T E
  started unready = sets
  started (success t) = got_value t
  started (failure e) = failed e

  set_value-started :
      {E : Type 0} (a : ℕ) (r : Answer T E) (c : OnceCell T) → (set_value a r c).0 ≡ started r
  unfolding set_value
  set_value-started a unready c = refl
  set_value-started a (success t) c = refl
  set_value-started a (failure e) c = refl

  -- A future that was notified, at an empty cell that nobody writes, polls the caller's future.
  notified_starts :
      {E : Type 0} (a v : ℕ) (r : Answer T E) (c : OnceCell T) (t : Unit {0})
      → c.value ≡ none
      → c.writing ≡ false
      → poll_result a c.active ≡ some t
      → (get_or_try_init a v r listening c).0 ≡ started r
  unfolding get_or_try_init init_turn try_init poll_active
  notified_starts a v r c t e w p =
      rw (p, init_turn) (rw (e, w, try_init) (set_value-started a r _))

  -- The future at `b` was notified, and its next poll polls the caller's future.
  abbrev pub Begins : Type 0 → ℕ → Initializers T → Type 0
  Begins E b s =
      (s.futures b ≡ listening)
      × (in_notices b s.cell.active.notices ≡ true)
      × ((v : ℕ) (r : Answer T E) → (get_or_try_init b v r listening s.cell).0 ≡ started r)

  empty-Heard : (c : OnceCell T) → c.value ≡ none → c.writing ≡ false → Awake c → Heard c.active
  empty-Heard c e w (inl (inl v)) = absurd (ground (arith, ap is_some e, v))
  empty-Heard c e w (inl (inr v)) = absurd (ground (arith, w, v))
  empty-Heard c e w (inr h) = h

  served_lem :
      {E : Type 0} (s : Initializers T) (a : ℕ)
      → Attended s
      → s.cell.value ≡ none
      → s.cell.writing ≡ false
      → s.futures a ≡ listening
      → (b : ℕ) × Begins E b s
  served_lem s a h e w f =
      let (x, xs, p) =
        notified s.cell.active a (empty-Heard s.cell e w h.awake)
          (h.occurring a ∙ ap listens_on f) in
      (
        x.id,
        (
          listens-listening (s.futures x.id)
              (ground (arith, ap (count_notices x.id) p, ==_iff x.id x.id, h.occurring x.id)),
          ap (in_notices x.id) p ∙ ground (arith, ==_iff x.id x.id),
          λ v r. notified_starts x.id v r s.cell x.tag e w (poll_result-front x s.cell.active xs p),
        ),
      )

  -- However a cell is used by `get_or_try_init` futures, while it is empty and one of them waits at its
  -- listener, one of them is at the caller's future, or one that waits was notified, and its next poll
  -- polls the caller's future.
  pub Initialized-Served :
      {E : Type 0} (s : Initializers T) (a : ℕ)
      → Initialized E s
      → s.cell.value ≡ none
      → s.futures a ≡ listening
      → ((b : ℕ) × (s.futures b ≡ setting)) ⊎ ((b : ℕ) × Begins E b s)
  Initialized-Served s a u e f =
      let h = Initialized-Attended s u in
      elim (Bool-cases s.cell.writing) [
        | inl w ↦ inl (h.writer w)
        | inr w ↦ inr (served_lem s a h e w f)
      ]

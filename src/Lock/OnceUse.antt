-- ===== src/Lock/OnceUse.antt =====
-- What one poll of a `get_or_try_init` future of src/lock/once_cell.rs does to the cell.
use unsend.Base.{
  refl, none, some, Bool, ◌≡◌, ℕ, true, Option, false, inl, length, if◌then◌else◌, ◌⊎◌, inr, ◌+◌,
  ◌≤◌, arith, suc, Option-cases, ap, zero,
}
use unsend.Lock.OnceCell.{
  InitPoll, OnceCell, set_value, try_init, init_turn, get_or_try_init, unwrite, drop_active,
  poll_active, store, Answer, got_value, failed, listening, listens, fresh, sets, success,
  init_fuel, without_fuel, failure, unready,
}
use unsend.Queue.{poll_result}
use unsend.Queue.Polled.{poll-some}

module _ {T E : Type 0} where
  abbrev pub is_setting : InitPoll T E → Bool
  is_setting (got_value t) = false
  is_setting (failed e) = false
  is_setting listens = false
  is_setting sets = true
  is_setting without_fuel = false

  abbrev pub ends_init : InitPoll T E → Bool
  ends_init (got_value t) = true
  ends_init (failed e) = true
  ends_init listens = true
  ends_init sets = true
  ends_init without_fuel = false

  -- A poll that leaves the value and the writer alone, or that takes an empty cell that nobody writes
  -- and goes on writing, stores a value, or gives up.
  abbrev pub Polled : OnceCell T → InitPoll T E × OnceCell T → Type 0
  Polled s p =
      (ends_init p.0 ≡ true)
      × (((is_setting p.0 ≡ false) × (p.1.value ≡ s.value) × (p.1.writing ≡ s.writing))
          ⊎ ((s.value ≡ none)
              × (s.writing ≡ false)
              × (p.1.writing ≡ is_setting p.0)
              × ((p.1.value ≡ none) ⊎ ((t : T) × (p.0 ≡ got_value t) × (p.1.value ≡ some t)))))

  set_value-Polled :
      (a : ℕ) (r : Answer T E) (s : OnceCell T)
      → s.value ≡ none
      → s.writing ≡ false
      → Polled s (set_value a r (record s { writing = true }))
  unfolding set_value unwrite store drop_active
  set_value-Polled a unready s e w = (refl, inr (e, w, refl, inl e))
  set_value-Polled a (success t) s e w = (refl, inr (e, w, refl, inr (t, refl, refl)))
  set_value-Polled a (failure x) s e w = (refl, inr (e, w, refl, inl e))

  try_init-Polled :
      (o : Option T) (w : Bool) (a : ℕ) (r : Answer T E) (s : OnceCell T)
      (rest : InitPoll T E × OnceCell T)
      → s.value ≡ o
      → s.writing ≡ w
      → Polled s rest
      → Polled s (try_init o w a r s rest)
  unfolding try_init drop_active
  try_init-Polled (some t) w a r s rest e f h = (refl, inl (refl, refl, refl))
  try_init-Polled none true a r s rest e f h = h
  try_init-Polled none false a r s rest e f h = set_value-Polled a r s e f

  init_turn-Polled :
      (top : Bool) (fuel a v : ℕ) (r : Answer T E) (s : OnceCell T)
      → length s.active.notices + length s.active.notices + (if top then 2 else 1) ≤ fuel
      → Polled s (init_turn top fuel a v r s)
  unfolding init_turn poll_active
  init_turn-Polled true zero a v r s l = absurd (omega arith)
  init_turn-Polled false zero a v r s l = absurd (omega arith)
  init_turn-Polled true (suc fuel) a v r s l =
      try_init-Polled s.value s.writing a r s (init_turn false fuel a v r s) refl refl
        (init_turn-Polled false fuel a v r s (omega arith))
  init_turn-Polled false (suc fuel) a v r s l = elim (Option-cases (poll_result a s.active)) [
    | inl e ↦ rw (e, init_turn) (refl, inl (refl, refl, refl))
    | inr (t, e) ↦
        let (p, q, _) = poll-some a v s.active t e in
        rw (e, init_turn)
          (init_turn-Polled true fuel a v r (poll_active a v s)
            (omega (arith, q, ap (λ x. length x.notices) p)))
  ]

  -- A poll of a `get_or_try_init` future that is new or at its listener comes to an end. It leaves the
  -- value and `writing` alone and does not go on writing; or else the cell was empty and nobody wrote,
  -- `writing` holds afterwards exactly when the future goes on writing, and the cell is still empty or
  -- has the value that the future gives.
  pub init-Polled :
      (a v : ℕ) (r : Answer T E) (listens_before : Bool) (s : OnceCell T)
      → Polled s (get_or_try_init a v r (if listens_before then listening else fresh) s)
  unfolding get_or_try_init
  init-Polled a v r true s = init_turn-Polled false (init_fuel s) a v r s (omega arith)
  init-Polled a v r false s = init_turn-Polled true (init_fuel s) a v r s (omega arith)

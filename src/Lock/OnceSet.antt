-- ===== src/Lock/OnceSet.antt =====
-- What a `set` future of src/lock/once_cell.rs answers.
use unsend.Queue
use unsend.Base.{
  refl, none, some, ℕ, Option, false, true, ◌≡◌, inl, inr, suc, zero, Option-cases, ap, length, ◌≤◌,
  ◌+◌, arith, if◌then◌else◌, Bool, is_some, ◌⊎◌,
}
use unsend.Lock.OnceCell.{
  InitPoll, success, got_value, listening, fresh, OnceCell, try_init, init_turn, set_value,
  poll_active, unwrite, get_or_try_init, store, init_fuel, drop_active,
}
use unsend.Lock.OnceReady.{SetPoll, set_ok, set_err, set_waits, set_result, set, get_or_init}
use unsend.Queue.Polled.{poll-some}

module _ {T : Type 0} (t : T) where
  -- The cell has `t` now, and was empty and nobody wrote; or the caller has `t` back, and the cell has
  -- another value, as it had; or the future waits, and the cell is as it was.
  abbrev pub Answers : OnceCell T → SetPoll T × OnceCell T → Type 0
  Answers s p =
      ((p.0 ≡ set_ok) × (s.value ≡ none) × (s.writing ≡ false) × (p.1.value ≡ some t))
      ⊎ ((p.0 ≡ set_err t) × (is_some s.value ≡ true) × (p.1.value ≡ s.value))
      ⊎ ((p.0 ≡ set_waits) × (p.1.value ≡ s.value) × (p.1.writing ≡ s.writing))

  abbrev pub answer : OnceCell T → InitPoll T ⊥ × OnceCell T → SetPoll T × OnceCell T
  answer s p = (set_result t s.value p.0, p.1)

  try_init-Answers :
      (o : Option T) (w : Bool) (a : ℕ) (s : OnceCell T) (rest : InitPoll T ⊥ × OnceCell T)
      → s.value ≡ o
      → s.writing ≡ w
      → Answers s (answer s rest)
      → Answers s (answer s (try_init o w a (success t) s rest))
  unfolding try_init set_value unwrite store drop_active
  try_init-Answers (some u) w a s rest e f h =
      inr (inl (ap (λ o. set_result t o (got_value u)) e, ap is_some e, refl))
  try_init-Answers none true a s rest e f h = h
  try_init-Answers none false a s rest e f h =
      inl (ap (λ o. set_result t o (got_value t)) e, e, f, refl)

  init_turn-Answers :
      (top : Bool) (fuel a v : ℕ) (s : OnceCell T)
      → length s.active.notices + length s.active.notices + (if top then 2 else 1) ≤ fuel
      → Answers s (answer s (init_turn top fuel a v (success t) s))
  unfolding init_turn poll_active
  init_turn-Answers true zero a v s l = absurd (omega arith)
  init_turn-Answers false zero a v s l = absurd (omega arith)
  init_turn-Answers true (suc fuel) a v s l =
      try_init-Answers s.value s.writing a s (init_turn false fuel a v (success t) s) refl refl
        (init_turn-Answers false fuel a v s (omega arith))
  init_turn-Answers false (suc fuel) a v s l = elim (Option-cases (Queue.poll_result a s.active)) [
    | inl e ↦ rw (e, init_turn) (inr (inr (refl, refl, refl)))
    | inr (x, e) ↦
        let (p, q, _) = poll-some a v s.active x e in
        rw (e, init_turn)
          (init_turn-Answers true fuel a v (poll_active a v s)
            (omega (arith, q, ap (λ x. length x.notices) p)))
  ]

  -- A poll of a `set` future that is new or at its listener comes to an end: it answers Ok, and the
  -- cell that was empty has its value; or it gives the value back as an error, and the cell has the
  -- value that it had; or it waits, and changes neither the value nor `writing`.
  pub set-Answers :
      (a v : ℕ) (listens_before : Bool) (s : OnceCell T)
      → Answers s (set a v t (if listens_before then listening else fresh) s)
  unfolding set get_or_init get_or_try_init
  set-Answers a v true s = init_turn-Answers false (init_fuel s) a v s (omega arith)
  set-Answers a v false s = init_turn-Answers true (init_fuel s) a v s (omega arith)

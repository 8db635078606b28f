-- ===== src/Lock/OnceAwake.antt =====
-- Who is in the `active` event of the cell of src/lock/once_cell.rs, and who was notified.
use unsend.Queue
use unsend.Base.{
  ◌≢◌, refl, none, some, ◌⊎◌, inl, inr, ℕ, ◌≡◌, true, false, Bool, is_some, if◌then◌else◌, ◌==◌,
  ◌≤◌, ◌+◌, length, arith, ap, zero, suc, Option, Option-cases, ==_iff,
}
use unsend.Event.Notification.{usize_max}
use unsend.Lock.OnceCell.{
  OnceCell, Answer, unready, success, failure, InitFuture, fresh, listening, setting, over,
  InitPoll, set_value, try_init, init_turn, drop_init, get_or_try_init, init_fuel, init_after,
  unwrite, store, drop_active, poll_active,
}
use unsend.Queue.{in_queue, poll_result}
use unsend.Queue.Occurs.{occurs, occurs-drop, occurs-notify, occurs-in}
use unsend.Queue.Polled.{poll-none, listen-in, poll-some, occurs-poll-none, occurs-poll-some}
use unsend.Lock.Wakeup.{Heard, notify-Heard, drop-Heard, length-set_waker}

-- Whether the listener of a future is in the event.
abbrev pub listens_on : InitFuture → ℕ
listens_on fresh = 0
listens_on listening = 1
listens_on setting = 0
listens_on over = 0

module _ {T : Type 0} where
  abbrev pub Busy : OnceCell T → Type 0
  Busy c = (is_some c.value ≡ true) ⊎ (c.writing ≡ true)

  -- There is a value, somebody writes, somebody was notified, or nobody waits.
  abbrev pub Awake : OnceCell T → Type 0
  Awake c = Busy c ⊎ Heard c.active

  -- What `init_turn` relies on, at its top and at the `.await` of the listener.
  abbrev Before : Bool → ℕ → OnceCell T → Type 0
  Before true a c = occurs a c.active ≡ 0
  Before false a c =
      (occurs a c.active ≤ 1) × (Busy c ⊎ ((in_queue a c.active ≡ true) × Heard c.active))

  -- A poll of the future at `a` leaves its own listener in the event exactly when it waits there.
  abbrev pub After : {E : Type 0} → ℕ → OnceCell T → InitPoll T E × OnceCell T → Type 0
  After a c (p, u) =
      ((b : ℕ)
        → occurs b u.active ≡ (if b == a then listens_on (init_after p) else occurs b c.active))
      × Awake u

  drop_active-Awake : (a : ℕ) (c : OnceCell T) → Awake c → Awake (drop_active a c)
  unfolding drop_active
  drop_active-Awake a c (inl b) = inl b
  drop_active-Awake a c (inr h) = inr (drop-Heard a c.active h)

  -- A listener that is in the event and was not notified goes on waiting there.
  parks-Awake :
      (a v : ℕ) (c : OnceCell T)
      → poll_result a c.active ≡ none
      → Busy c ⊎ ((in_queue a c.active ≡ true) × Heard c.active)
      → Awake (poll_active a v c)
  unfolding poll_active
  parks-Awake a v c e (inl b) = inl b
  parks-Awake a v c e (inr (i, h)) = inr (
      rw (poll-none a v c.active e, listen-in a c.active i, length-set_waker a v c.active.waiters)
        h)

module _ {T E : Type 0} where
  pub set_value-After :
      (a : ℕ) (r : Answer T E) (c : OnceCell T)
      → c.writing ≡ true
      → occurs a c.active ≡ 0
      → After a c (set_value a r c)
  unfolding set_value unwrite store drop_active
  set_value-After a unready c w o = (λ b. ground (arith, o, ==_iff b a), inl (inr w))
  set_value-After a (success t) c w o = (
    λ b. ground (
      arith,
      o,
      ==_iff b a,
      occurs-drop b a
          (Queue.notify 1 false (λ _. tt) (Queue.notify usize_max true (λ _. tt) c.active)),
      occurs-notify b 1 false (λ _. tt) (Queue.notify usize_max true (λ _. tt) c.active),
      occurs-notify b usize_max true (λ _. tt) c.active,
    ),
    inl (inl refl),
  )
  set_value-After a (failure e) c w o = (
    λ b. ground (
      arith,
      o,
      ==_iff b a,
      occurs-drop b a (Queue.notify 1 false (λ _. tt) c.active),
      occurs-notify b 1 false (λ _. tt) c.active,
    ),
    inr (drop-Heard a (Queue.notify 1 false (λ _. tt) c.active) (notify-Heard false tt c.active)),
  )

  try_init-After :
      (o : Option T) (w : Bool) (a : ℕ) (r : Answer T E) (c : OnceCell T)
      (rest : InitPoll T E × OnceCell T)
      → c.value ≡ o
      → c.writing ≡ w
      → occurs a c.active ≡ 0
      → (w ≡ true → After a c rest)
      → After a c (try_init o w a r c rest)
  unfolding try_init drop_active
  try_init-After (some t) w a r c rest e f z h =
      (λ b. ground (arith, z, ==_iff b a, occurs-drop b a c.active), inl (inl (ap is_some e)))
  try_init-After none true a r c rest e f z h = h refl
  try_init-After none false a r c rest e f z h =
      set_value-After a r (record c { writing = true }) refl z

  init_turn-After :
      (top : Bool) (fuel a v : ℕ) (r : Answer T E) (c : OnceCell T)
      → length c.active.notices + length c.active.notices + (if top then 2 else 1) ≤ fuel
      → Before top a c
      → After a c (init_turn top fuel a v r c)
  unfolding init_turn poll_active
  init_turn-After true zero a v r c l h = absurd (omega arith)
  init_turn-After false zero a v r c l h = absurd (omega arith)
  init_turn-After true (suc fuel) a v r c l h =
      try_init-After c.value c.writing a r c (init_turn false fuel a v r c) refl refl h
        (λ w. init_turn-After false fuel a v r c (omega arith) (omega arith, inl (inr w)))
  init_turn-After false (suc fuel) a v r c l (o, h) = elim (Option-cases (poll_result a c.active)) [
    | inl e ↦
        rw (e, init_turn)
          (
            λ b. ground (arith, ==_iff b a, o, occurs-poll-none b a v c.active e),
            parks-Awake a v c e h,
          )
    | inr (t, e) ↦
        let (p, q, _) = poll-some a v c.active t e in
        let (i, w) =
          init_turn-After true fuel a v r (poll_active a v c)
            (omega (arith, l, q, ap (λ x. length x.notices) p))
            (ground (arith, o, occurs-poll-some a a v c.active t e, ==_iff a a)) in
        rw (e, init_turn)
          (λ b. ground (arith, i b, occurs-poll-some b a v c.active t e, ==_iff b a), w)
  ]

  -- A poll of a `get_or_try_init` future that is not over.
  pub get_or_try_init-After :
      (a v : ℕ) (r : Answer T E) (f : InitFuture) (c : OnceCell T)
      → f ≢ over
      → occurs a c.active ≡ listens_on f
      → (f ≡ setting → c.writing ≡ true)
      → Awake c
      → After a c (get_or_try_init a v r f c)
  unfolding get_or_try_init
  get_or_try_init-After a v r fresh c n o m w =
      init_turn-After true (init_fuel c) a v r c (omega arith) o
  get_or_try_init-After a v r listening c n o m (inl b) =
      init_turn-After false (init_fuel c) a v r c (omega arith) (omega (arith, o), inl b)
  get_or_try_init-After a v r listening c n o m (inr h) =
      init_turn-After false (init_fuel c) a v r c (omega arith)
        (omega (arith, o), inr (ground (arith, o, occurs-in a c.active), h))
  get_or_try_init-After a v r setting c n o m w = set_value-After a r c (m refl) o
  get_or_try_init-After a v r over c n o m w = absurd (n refl)

module _ {T : Type 0} where
  pub drop_init-Awake :
      (a : ℕ) (f : InitFuture) (c : OnceCell T) → Awake c → Awake (drop_init a f c)
  unfolding drop_init unwrite
  drop_init-Awake a fresh c w = w
  drop_init-Awake a listening c w = drop_active-Awake a c w
  drop_init-Awake a setting c w =
      drop_active-Awake a (unwrite c) (inr (notify-Heard false tt c.active))
  drop_init-Awake a over c w = w

-- ===== src/Event/World.antt =====
-- event.rs, the data: the list's header, the entries that live inside the listeners, the memory
-- that holds the listeners, and the commands that the code runs over them. A pointer to an entry
-- is the address of its listener.
use unsend.Base.{ℕ, ◌++◌, Bool, Option, none, some, List, [], ◌∷◌, ◌==◌, if◌then◌else◌}

-- `core::task::Waker`, by the number of the task that it wakes.
abbrev pub Waker : Type 0
Waker = ℕ

abbrev pub will_wake : Waker → Waker → Bool
will_wake v w = v == w

-- `NonNull<Entry<T>>`
abbrev pub Pointer : Type 0
Pointer = ℕ

pub data State (T : Type 0) : Type 0 where
  created : State T
  waiting : Waker → State T
  notified : T → Bool → State T

pub record Entry (T : Type 0) : Type 0 where
  pub next : Option Pointer
  pub prev : Option Pointer
  pub state : State T

pub record Listener (T : Type 0) : Type 0 where
  pub in_list : Bool
  pub entry : Entry T

pub record Inner : Type 0 where
  pub head : Option Pointer
  pub tail : Option Pointer
  pub first : Option Pointer
  pub notified : ℕ
  pub len : ℕ

-- One event, the listeners made for it, and the wakers that it has woken, oldest first. An address
-- that holds `none` is memory that is not, or no longer, a listener.
pub record World (T : Type 0) : Type 0 where
  pub inner : Inner
  pub memory : Pointer → Option (Listener T)
  pub woken : List Waker

-- `fault` is a read or a write through a dangling pointer, which the compiler does not rule out.
pub data Run (A : Type 0) : Type 0 where
  ok : A → Run A
  panic : Run A
  fault : Run A

abbrev pub Cmd : Type 0 → Type 0 → Type 0
Cmd T A = World T → Run (A × World T)

module _ {T : Type 0} where
  abbrev pub pure : {A : Type 0} → A → Cmd T A
  pure a w = ok (a, w)

  abbrev pub panics : {A : Type 0} → Cmd T A
  panics _ = panic

  abbrev pub and_then : {A B : Type 0} → Run (A × World T) → (A → Cmd T B) → Run (B × World T)
  and_then (ok (a, w)) k = k a w
  and_then panic k = panic
  and_then fault k = fault

  infixl 5 ◌>>=◌ ◌>>◌
  abbrev pub ◌>>=◌ : {A B : Type 0} → Cmd T A → (A → Cmd T B) → Cmd T B
  m >>= k = λ w. and_then (m w) k

  abbrev pub ◌>>◌ : {B : Type 0} → Cmd T (Unit {0}) → Cmd T B → Cmd T B
  m >> n = m >>= λ _. n

  -- The list's header, behind `RefCell::borrow_mut`.
  abbrev pub get : Cmd T Inner
  get w = ok (w.inner, w)

  abbrev pub modify : (Inner → Inner) → Cmd T (Unit {0})
  modify f w = ok (tt, record w { inner = f w.inner })

  abbrev pub update :
      (Pointer → Option (Listener T))
      → Pointer
      → Option (Listener T)
      → Pointer
      → Option (Listener T)
  update m p c q = if q == p then c else m q

  -- `*p`
  unfoldable pub load : Pointer → Cmd T (Listener T)
  load p w = elim (w.memory p) [ none ↦ fault | some l ↦ ok (l, w) ]

  -- The raw write: `some` fills the address, `none` gives it back.
  abbrev pub put : Pointer → Option (Listener T) → Cmd T (Unit {0})
  put p c w = ok (tt, record w { memory = update w.memory p c })

  unfoldable pub store : Pointer → (Listener T → Listener T) → Cmd T (Unit {0})
  store p f w = elim (w.memory p) [
    | none ↦ fault
    | some l ↦ ok (tt, record w { memory = update w.memory p (some (f l)) })
  ]

  abbrev pub set_next : Pointer → Option Pointer → Cmd T (Unit {0})
  set_next p q = store p λ l. record l { entry = record l.entry { next = q } }

  abbrev pub set_prev : Pointer → Option Pointer → Cmd T (Unit {0})
  set_prev p q = store p λ l. record l { entry = record l.entry { prev = q } }

  abbrev pub set_state : Pointer → State T → Cmd T (Unit {0})
  set_state p s = store p λ l. record l { entry = record l.entry { state = s } }

  -- `Waker::wake`
  abbrev pub wake : Waker → Cmd T (Unit {0})
  wake v w = ok (tt, record w { woken = w.woken ++ v ∷ [] })

-- ===== src/Lock/Mutex.antt =====
-- The mutex. Models src/lock/mutex.rs.
use unsend.Queue
use unsend.Base.{refl}
use unsend.Lock.Wait.{Shared, poll_future, notify_one, Future, Progress}
use unsend.Base.{ℕ, Bool, Option, false, ◌≡◌, ◌<◌, [], if◌then◌else◌, some, none, suc, true, arith}
use unsend.Lock.System.{Lock}

-- The `RefCell` of a mutex: the data, and whether it is borrowed mutably.
pub record Cell (D : Type 0) : Type 0 where
  pub borrowed : Bool
  pub value : D

module _ {D : Type 0} where
  -- `Mutex::new`: nobody waits, and the data is not borrowed.
  unfoldable pub new : D → Shared (Cell D)
  new d = record { event = Queue.empty; woken = []; inner = record { borrowed = false; value = d } }

  -- `try_borrow_mut`; the borrow is the guard's.
  unfoldable pub try_lock : Cell D → Option (Cell D)
  try_lock c = if c.borrowed then none else some (record c { borrowed = true })

  unfoldable pub lock : ℕ → ℕ → Future → Shared (Cell D) → Progress × Future × Shared (Cell D)
  unfolding poll_future
  lock = poll_future try_lock

  -- The end of the borrow, when the field `data` of the guard is dropped.
  unfoldable pub unborrow : Cell D → Cell D
  unborrow c = record c { borrowed = false }

  -- The drop of a guard: the body of `drop` runs before the fields are dropped.
  unfoldable pub unlock : Shared (Cell D) → Shared (Cell D)
  unfolding notify_one unborrow
  unlock s = let s' = notify_one s in record s' { inner = unborrow s'.inner }

  -- A write through the guard.
  unfoldable pub deref_mut : (D → D) → Cell D → Cell D
  deref_mut f c = record c { value = f c.value }

  -- `Default`, by the default of the data.
  unfoldable pub default : D → Shared (Cell D)
  unfolding new
  default d = new d

  -- What the owner can do, with no guard and no future left.
  unfoldable pub into_inner : Shared (Cell D) → D
  into_inner s = s.inner.value

  unfoldable pub get_mut : (D → D) → Shared (Cell D) → Shared (Cell D)
  get_mut f s = record s { inner = record s.inner { value = f s.inner.value } }

  -- How often the mutex can be locked now.
  abbrev pub free : Cell D → ℕ
  free c = if c.borrowed then 0 else 1

  pub try_lock-some : (i j : Cell D) → try_lock i ≡ some j → free i ≡ suc (free j)
  unfolding try_lock
  try_lock-some i j e = ground arith

  pub try_lock-none : (i : Cell D) → try_lock i ≡ none → free i ≡ 0
  unfolding try_lock
  try_lock-none i e = ground arith

  pub free-unborrow : (i : Cell D) → free i < 1 → free (unborrow i) ≡ suc (free i)
  unfolding unborrow
  free-unborrow i l = ground arith

  pub unlock_lem :
      (s : Shared (Cell D)) → unlock s ≡ record (notify_one s) { inner = unborrow s.inner }
  unfolding unlock notify_one
  unlock_lem s = refl

  abbrev pub mutex : Lock (Cell D)
  mutex = record {
    try = try_lock;
    release = unlock;
    put = unborrow;
    free = free;
    capacity = 1;
    try-some = try_lock-some;
    try-none = try_lock-none;
    free-put = free-unborrow;
    release_lem = unlock_lem;
  }

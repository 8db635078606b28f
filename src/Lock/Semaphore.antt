-- ===== src/Lock/Semaphore.antt =====
-- The semaphore. Models src/lock/semaphore.rs.
use unsend.Queue
use unsend.Base.{refl, [], ◌≡◌, suc}
use unsend.Base.{ℕ, Option, if◌then◌else◌, ◌+◌, ltb, arith, some, ◌-◌, none}
use unsend.Lock.Wait.{poll_future, notify_one, Shared, Future, Progress}
use unsend.Lock.System.{Lock}

-- The event and the number of permits.
abbrev pub Semaphore : Type 0
Semaphore = Shared ℕ

-- `Semaphore::new`.
unfoldable pub new : ℕ → Semaphore
new permits = record { event = Queue.empty; woken = []; inner = permits }

unfoldable pub try_acquire : ℕ → Option ℕ
try_acquire permits = if ltb 0 permits then some (permits - 1) else none

-- The same through an `Rc`, whose guard keeps the semaphore alive.
unfoldable pub try_acquire_rc : ℕ → Option ℕ
try_acquire_rc permits = if ltb 0 permits then some (permits - 1) else none

unfoldable pub acquire : ℕ → ℕ → Future → Shared ℕ → Progress × Future × Shared ℕ
unfolding poll_future
acquire = poll_future try_acquire

unfoldable pub acquire_rc : ℕ → ℕ → Future → Shared ℕ → Progress × Future × Shared ℕ
unfolding poll_future
acquire_rc = poll_future try_acquire_rc

-- The drop of a guard.
unfoldable pub release : Shared ℕ → Shared ℕ
unfolding notify_one
release s = notify_one (record s { inner = s.inner + 1 })

pub try_acquire-some : (i j : ℕ) → try_acquire i ≡ some j → i ≡ suc j
unfolding try_acquire
try_acquire-some i j e = ground arith

pub try_acquire-none : (i : ℕ) → try_acquire i ≡ none → i ≡ 0
unfolding try_acquire
try_acquire-none i e = ground arith

pub release_put : (s : Shared ℕ) → release s ≡ record (notify_one s) { inner = s.inner + 1 }
unfolding release notify_one
release_put s = refl

-- A semaphore that was made with `n` permits.
abbrev pub semaphore : ℕ → Lock ℕ
semaphore n = record {
  try = try_acquire;
  release = release;
  put = λ p. p + 1;
  free = λ p. p;
  capacity = n;
  try-some = try_acquire-some;
  try-none = try_acquire-none;
  free-put = λ i l. omega arith;
  release_lem = release_put;
}

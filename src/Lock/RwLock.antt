-- ===== src/Lock/RwLock.antt =====
-- The read/write lock. Models src/lock/rwlock.rs.
use unsend.Queue
use unsend.Base.{
  ℕ, [], Option, ◌-◌, if◌then◌else◌, Bool, List, ◌^◌, ltb, some, false, suc, none, true, zero, ◌==◌,
}
use unsend.Queue.{Queue}
use unsend.Lock.Wait.{Shared, poll_future, notify_one, Future, Progress, drop_future}

-- The state of the standard library's `RefCell`: how many shared borrows are out, or a mutable one.
pub data Borrow : Type 0 where
  reading : ℕ → Borrow
  writing : Borrow

-- Everything but the events; `panicked` is set where the source's `expect` fails.
pub record Guarded (D : Type 0) : Type 0 where
  pub readers : ℕ
  pub borrow : Borrow
  pub panicked : Bool
  pub value : D

pub record RwLock (D : Type 0) : Type 0 where
  pub no_readers : Queue (Unit {0})
  pub no_writers : Queue (Unit {0})
  pub woken : List ℕ
  pub inner : Guarded D

-- `isize::MAX`, where the `RefCell` stops counting shared borrows.
abbrev pub borrow_limit : ℕ
borrow_limit = 2 ^ 63 - 1

-- `RefCell::try_borrow` and `RefCell::try_borrow_mut`.
unfoldable pub try_borrow : Borrow → Option Borrow
try_borrow (reading n) = if ltb n borrow_limit then some (reading (suc n)) else none
try_borrow writing = none

unfoldable pub try_borrow_mut : Borrow → Option Borrow
try_borrow_mut (reading zero) = some writing
try_borrow_mut (reading (suc n)) = none
try_borrow_mut writing = none

-- The drop of a `Ref` and of a `RefMut`.
unfoldable pub end_borrow : Borrow → Borrow
end_borrow (reading n) = reading (n - 1)
end_borrow writing = reading 0

module _ {D : Type 0} where
  -- `RwLock::new`.
  unfoldable pub new : D → RwLock D
  new d = record {
    no_readers = Queue.empty;
    no_writers = Queue.empty;
    woken = [];
    inner = record { readers = 0; borrow = reading 0; panicked = false; value = d };
  }

  -- `Default`, by the default of the data.
  unfoldable pub default : D → RwLock D
  unfolding new
  default d = new d

  -- What the owner can do, with no guard and no future left.
  unfoldable pub into_inner : RwLock D → D
  into_inner s = s.inner.value

  unfoldable pub get_mut : (D → D) → RwLock D → RwLock D
  get_mut f s = record s { inner = record s.inner { value = f s.inner.value } }

  -- A read through a read guard.
  unfoldable pub deref : RwLock D → D
  deref s = s.inner.value

  -- `checked_add(1).expect(..)`; when it panics the borrow ends.
  unfoldable pub add_reader : Borrow → Guarded D → Guarded D
  add_reader b c =
      if ltb (suc c.readers) (2 ^ 64)
      then record c { readers = suc c.readers; borrow = b }
      else record c { panicked = true }

  unfoldable pub try_read : Guarded D → Option (Guarded D)
  unfolding try_borrow add_reader
  try_read c = elim (try_borrow c.borrow) [ none ↦ none | some b ↦ some (add_reader b c) ]

  unfoldable pub try_write : Guarded D → Option (Guarded D)
  unfolding try_borrow_mut
  try_write c = elim (try_borrow_mut c.borrow) [
    | none ↦ none
    | some b ↦ some (record c { borrow = b })
  ]

  -- The lock as its readers see it: they wait until there is no writer.
  abbrev pub for_readers : RwLock D → Shared (Guarded D)
  for_readers s = record { event = s.no_writers; woken = s.woken; inner = s.inner }

  abbrev pub from_readers : RwLock D → Shared (Guarded D) → RwLock D
  from_readers s t = record s { no_writers = t.event; woken = t.woken; inner = t.inner }

  -- The lock as its writers see it: they wait until there is no reader.
  abbrev pub for_writers : RwLock D → Shared (Guarded D)
  for_writers s = record { event = s.no_readers; woken = s.woken; inner = s.inner }

  abbrev pub from_writers : RwLock D → Shared (Guarded D) → RwLock D
  from_writers s t = record s { no_readers = t.event; woken = t.woken; inner = t.inner }

  unfoldable pub read : ℕ → ℕ → Future → RwLock D → Progress × Future × RwLock D
  unfolding poll_future
  read a v f s =
      let (r, g, t) = poll_future try_read a v f (for_readers s) in (r, g, from_readers s t)

  unfoldable pub write : ℕ → ℕ → Future → RwLock D → Progress × Future × RwLock D
  unfolding poll_future
  write a v f s =
      let (r, g, t) = poll_future try_write a v f (for_writers s) in (r, g, from_writers s t)

  unfoldable pub cancel_read : ℕ → Future → RwLock D → RwLock D
  cancel_read a f s = from_readers s (drop_future a f (for_readers s))

  unfoldable pub cancel_write : ℕ → Future → RwLock D → RwLock D
  cancel_write a f s = from_writers s (drop_future a f (for_writers s))

  -- `checked_sub(1).expect(..)`, and the notification of a writer by the last reader.
  unfoldable pub leave : RwLock D → RwLock D
  unfolding notify_one
  leave s = elim s.inner.readers [
    | zero ↦ record s { inner = record s.inner { panicked = true } }
    | suc n ↦
        let t = record s { inner = record s.inner { readers = n } } in
        if n == 0 then from_writers t (notify_one (for_writers t)) else t
  ]

  abbrev pub unborrow : RwLock D → RwLock D
  unborrow s = record s { inner = record s.inner { borrow = end_borrow s.inner.borrow } }

  -- The drop of a guard: the body of `drop`, and then the field `data`.
  unfoldable pub drop_read : RwLock D → RwLock D
  unfolding leave
  drop_read s = unborrow (leave s)

  unfoldable pub drop_write : RwLock D → RwLock D
  unfolding notify_one
  drop_write s = unborrow (from_readers s (notify_one (for_readers s)))

  -- A write through a write guard.
  unfoldable pub deref_mut : (D → D) → Guarded D → Guarded D
  deref_mut f c = record c { value = f c.value }

-- ===== src/Lock/RwUse.antt =====
-- Any use of a read/write lock by futures and guards.
use unsend.Lock.RwLock
use unsend.Lock.RwLock.{
  RwLock, try_read, try_write, cancel_read, cancel_write, drop_read, drop_write,
}
use unsend.Lock.Wait.{finished, Future, start}
use unsend.Base.{none, some, ℕ, ◌-◌, ◌≡◌, ◌≢◌, ◌+◌, ◌≤◌, suc}
use unsend.Lock.System.{set_future, granted}

pub record RwSystem (D : Type 0) : Type 0 where
  pub lock : RwLock D
  pub reads : ℕ → Future
  pub writes : ℕ → Future
  pub read_guards : ℕ
  pub write_guards : ℕ

module _ {D : Type 0} where
  abbrev pub unused_rw : D → RwSystem D
  unused_rw d = record {
    lock = RwLock.new d;
    reads = λ a. finished;
    writes = λ a. finished;
    read_guards = 0;
    write_guards = 0;
  }

  unfoldable pub read_step : ℕ → ℕ → RwSystem D → RwSystem D
  unfolding RwLock.read
  read_step a v s =
      let (r, f, t) = RwLock.read a v (s.reads a) s.lock in
      record s { lock = t; reads = set_future s.reads a f; read_guards = granted r + s.read_guards }

  unfoldable pub write_step : ℕ → ℕ → RwSystem D → RwSystem D
  unfolding RwLock.write
  write_step a v s =
      let (r, f, t) = RwLock.write a v (s.writes a) s.lock in
      record s {
        lock = t;
        writes = set_future s.writes a f;
        write_guards = granted r + s.write_guards;
      }

  unfoldable pub try_read_step : RwSystem D → RwSystem D
  unfolding try_read
  try_read_step s = elim (try_read s.lock.inner) [
    | none ↦ s
    | some i ↦ record s { lock = record s.lock { inner = i }; read_guards = suc s.read_guards }
  ]

  unfoldable pub try_write_step : RwSystem D → RwSystem D
  unfolding try_write
  try_write_step s = elim (try_write s.lock.inner) [
    | none ↦ s
    | some i ↦ record s { lock = record s.lock { inner = i }; write_guards = suc s.write_guards }
  ]

  abbrev pub begin_read : ℕ → RwSystem D → RwSystem D
  begin_read a s = record s { reads = set_future s.reads a start }

  abbrev pub begin_write : ℕ → RwSystem D → RwSystem D
  begin_write a s = record s { writes = set_future s.writes a start }

  unfoldable pub cancel_read_step : ℕ → RwSystem D → RwSystem D
  unfolding cancel_read
  cancel_read_step a s = record s {
    lock = cancel_read a (s.reads a) s.lock;
    reads = set_future s.reads a finished;
  }

  unfoldable pub cancel_write_step : ℕ → RwSystem D → RwSystem D
  unfolding cancel_write
  cancel_write_step a s = record s {
    lock = cancel_write a (s.writes a) s.lock;
    writes = set_future s.writes a finished;
  }

  unfoldable pub drop_read_step : RwSystem D → RwSystem D
  unfolding drop_read
  drop_read_step s = record s { lock = drop_read s.lock; read_guards = s.read_guards - 1 }

  unfoldable pub drop_write_step : RwSystem D → RwSystem D
  unfolding drop_write
  drop_write_step s = record s { lock = drop_write s.lock; write_guards = s.write_guards - 1 }

  -- What ownership allows.
  pub data RwReachable : RwSystem D → Type 0 where
    starts : (d : D) → RwReachable (unused_rw d)
    begins_read :
        (s : RwSystem D) (a : ℕ)
        → s.reads a ≡ finished
        → RwReachable s
        → RwReachable (begin_read a s)
    begins_write :
        (s : RwSystem D) (a : ℕ)
        → s.writes a ≡ finished
        → RwReachable s
        → RwReachable (begin_write a s)
    polls_read :
        (s : RwSystem D) (a v : ℕ)
        → s.reads a ≢ finished
        → RwReachable s
        → RwReachable (read_step a v s)
    polls_write :
        (s : RwSystem D) (a v : ℕ)
        → s.writes a ≢ finished
        → RwReachable s
        → RwReachable (write_step a v s)
    tries_read : (s : RwSystem D) → RwReachable s → RwReachable (try_read_step s)
    tries_write : (s : RwSystem D) → RwReachable s → RwReachable (try_write_step s)
    cancels_read : (s : RwSystem D) (a : ℕ) → RwReachable s → RwReachable (cancel_read_step a s)
    cancels_write : (s : RwSystem D) (a : ℕ) → RwReachable s → RwReachable (cancel_write_step a s)
    drops_read :
        (s : RwSystem D) → 1 ≤ s.read_guards → RwReachable s → RwReachable (drop_read_step s)
    drops_write :
        (s : RwSystem D) → 1 ≤ s.write_guards → RwReachable s → RwReachable (drop_write_step s)
    edits :
        (s : RwSystem D) (f : D → D)
        → 1 ≤ s.write_guards
        → RwReachable s
        → RwReachable
            (record s { lock = record s.lock { inner = RwLock.deref_mut f s.lock.inner } })

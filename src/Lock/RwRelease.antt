-- ===== src/Lock/RwRelease.antt =====
-- Whom the release of the read/write lock of src/lock/rwlock.rs wakes.
use unsend.Queue
use unsend.Lock.RwLock.{
  Guarded, try_write, leave, drop_read, drop_write, try_borrow_mut, end_borrow, reading, RwLock,
}
use unsend.Lock.Wait.{notify_one}
use unsend.Base.{
  ◌≡◌, some, false, refl, subst, sym, ◌∙◌, ℕ, ◌-◌, arith, inl, ap, inr, ◌++◌, append-nil,
}
use unsend.Lock.RwUse.{RwSystem, RwReachable}
use unsend.Lock.Wakeup.{Heard, notify-Heard}
use unsend.Lock.RwExclusion.{
  readers_or_writer, Excluded, Exclusive, drop_read-Exclusive, drop_write-Exclusive,
}

module _ {D : Type 0} where
  -- The lock can be taken by a writer.
  abbrev pub Writable : Guarded D → Type 0
  Writable c = (d : Guarded D) × (try_write c ≡ some d)

  free-Writable : (c : Guarded D) → c.borrow ≡ reading 0 → Writable c
  unfolding try_write try_borrow_mut
  free-Writable c e = rw e (_, refl)

  free-reading : (c : Guarded D) (n m : ℕ) → n ≡ 0 → m ≡ 0 → Exclusive c n m → c.borrow ≡ reading 0
  free-reading c n m e f (p, r, inl (w, b, l)) = b ∙ ap reading e
  free-reading c n m e f (p, r, inr (w, z, b)) = absurd (omega arith)

  no_readers-guards : (s : RwSystem D) → s.write_guards ≡ 1 → Excluded s → s.read_guards ≡ 0
  no_readers-guards s g (p, r, inl (w, b, l)) = absurd (omega arith)
  no_readers-guards s g (p, r, inr (w, z, b)) = z

  no_writers-guards : (s : RwSystem D) → s.read_guards ≡ 1 → Excluded s → s.write_guards ≡ 0
  no_writers-guards s g (p, r, inl (w, b, l)) = w
  no_writers-guards s g (p, r, inr (w, z, b)) = absurd (omega arith)

  leave-last :
      (s : RwLock D)
      → s.inner.readers ≡ 1
      → (leave s).no_readers ≡ Queue.notify 1 false (λ _. tt) s.no_readers
  unfolding leave notify_one
  leave-last s e = rw (e, leave) refl

  -- However a read/write lock is used, when the last read guard is dropped a writer can take the lock,
  -- and a listener of a writer is notified or no writer waits.
  pub last_reader-Heard :
      (s : RwSystem D)
      → RwReachable s
      → s.read_guards ≡ 1
      → let t = drop_read s.lock in Writable t.inner × Heard t.no_readers
  unfolding drop_read end_borrow
  last_reader-Heard s r g =
      let x = readers_or_writer s r in
      (
        free-Writable (drop_read s.lock).inner (
            free-reading (drop_read s.lock).inner (s.read_guards - 1) s.write_guards (omega arith)
              (no_writers-guards s g x)
              (drop_read-Exclusive s.lock s.read_guards s.write_guards (omega arith) x)),
        subst Heard (sym (leave-last s.lock (x.1 ∙ g))) (notify-Heard false tt s.lock.no_readers),
      )

  -- However a read/write lock is used, when a write guard is dropped while no reader waits, a writer
  -- can take the lock, no waker is called, and every writer that waited is left as it was.
  pub writer_unheard :
      (s : RwSystem D)
      → RwReachable s
      → s.write_guards ≡ 1
      → s.lock.no_writers ≡ Queue.empty
      → let t = drop_write s.lock in
        Writable t.inner × (t.woken ≡ s.lock.woken) × (t.no_readers ≡ s.lock.no_readers)
  unfolding drop_write end_borrow notify_one Queue.notify_wakes Queue.quota Queue.wakers
  writer_unheard s r g e =
      let x = readers_or_writer s r in
      (
        free-Writable (drop_write s.lock).inner (
            free-reading (drop_write s.lock).inner s.read_guards (s.write_guards - 1)
              (no_readers-guards s g x) (omega arith)
              (drop_write-Exclusive s.lock s.read_guards s.write_guards (omega arith) x)),
        ap (λ q. s.lock.woken ++ Queue.notify_wakes 1 false q) e ∙ append-nil s.lock.woken,
        refl,
      )

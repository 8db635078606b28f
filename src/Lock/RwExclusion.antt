-- ===== src/Lock/RwExclusion.antt =====
-- The read/write lock of src/lock/rwlock.rs: its readers and its writers.
use unsend.Lock.RwLock
use unsend.Lock.RwLock.{
  Guarded, try_read, try_write, try_borrow, try_borrow_mut, reading, add_reader, borrow_limit,
  writing, leave, drop_read, drop_write, end_borrow, RwLock, cancel_read, cancel_write, for_readers,
  for_writers,
}
use unsend.Base.{
  refl, Option, ℕ, ◌≡◌, some, false, ap, suc, sym, ◌≤◌, inl, ◌∙◌, inr, ◌⊎◌, length, arith, ◌+◌, ◌-◌,
  zero, subst, Option-cases,
}
use unsend.Lock.Wait.{
  Shared, drop_listener, poll_listener, poll_future, Future, at_top, enough, start, awaiting,
  finished, drop_future, Progress, notify_one, acquired, pending, looping,
}
use unsend.Lock.Turn.{Settled, turn_lem, At, turns}
use unsend.Lock.RwUse.{
  RwSystem, try_read_step, try_write_step, read_step, write_step, cancel_read_step,
  cancel_write_step, drop_read_step, drop_write_step, RwReachable, starts, begins_read,
  begins_write, tries_read, tries_write, cancels_read, cancels_write, drops_read, drops_write,
  edits, polls_read, polls_write, starts, edits, begins_read,
}
use unsend.Lock.System.{granted}

-- What a loop that tries does to the part of the lock that it tries on.
module _ {S : Type 0} (try : S → Option S) (a v : ℕ) (s : Shared S) where
  abbrev Same : Shared S → Type 0
  Same s' = s'.inner ≡ s.inner

  abbrev Taken : Shared S → Type 0
  Taken s' = try s.inner ≡ some s'.inner

  take-Taken :
      (s' : Shared S) (i : S)
      → Same s'
      → try s'.inner ≡ some i
      → Taken (drop_listener a (record s' { inner = i }))
  unfolding drop_listener
  take-Taken s' i m e = ap try (sym m) ∙ e

  poll-Same : (s' : Shared S) → Same s' → Same (poll_listener a v s')
  unfolding poll_listener
  poll-Same s' m = m

  turns_lem :
      (f : Future) → length s.event.notices + length s.event.notices + turns (at_top f) ≤ enough s
  turns_lem start = omega arith
  turns_lem awaiting = omega arith
  turns_lem finished = omega arith

  same_lem : (f : Future) → At (at_top f) (Same s) (Same s)
  same_lem start = refl
  same_lem awaiting = refl
  same_lem finished = refl

  -- A poll takes the lock as one try would, or leaves it as it was.
  poll_future-Taken :
      (f : Future) → let (r, g, s') = poll_future try a v f s in Settled r (Taken s') (Same s')
  unfolding poll_future
  poll_future-Taken f =
      turn_lem try a v Same Same Taken Same (λ s' m e. m) take-Taken (λ s' m e. poll-Same s' m)
        (λ s' t m e. poll-Same s' m) (at_top f) (enough s) s (turns_lem f) (same_lem f)

-- Many readers, which the `RefCell` counts as well, or one writer.
abbrev pub Exclusive : {D : Type 0} → Guarded D → ℕ → ℕ → Type 0
Exclusive c reads writes =
    (c.panicked ≡ false)
    × (c.readers ≡ reads)
    × (((writes ≡ 0) × (c.borrow ≡ reading reads) × (reads ≤ borrow_limit))
        ⊎ ((writes ≡ 1) × (reads ≡ 0) × (c.borrow ≡ writing)))

module _ {D : Type 0} (c d : Guarded D) (reads writes : ℕ) where
  try_read-Exclusive :
      Exclusive c reads writes → try_read c ≡ some d → Exclusive d (suc reads) writes
  unfolding try_read try_borrow add_reader
  try_read-Exclusive (p, r, inl (w, b, l)) e = ground arith
  try_read-Exclusive (p, r, inr (w, z, b)) e = absurd (ground arith)

  try_write-Exclusive :
      Exclusive c reads writes → try_write c ≡ some d → Exclusive d reads (suc writes)
  unfolding try_write try_borrow_mut
  try_write-Exclusive (p, r, inl (w, b, l)) e = ground arith
  try_write-Exclusive (p, r, inr (w, z, b)) e = absurd (ground arith)

drop_future-inner :
    {S : Type 0} (a : ℕ) (f : Future) (s : Shared S) → (drop_future a f s).inner ≡ s.inner
unfolding drop_future drop_listener
drop_future-inner a start s = refl
drop_future-inner a awaiting s = refl
drop_future-inner a finished s = refl

module _ {D : Type 0} where
  leave-inner :
      (s : RwLock D) (n : ℕ)
      → s.inner.readers ≡ suc n
      → (leave s).inner ≡ record s.inner { readers = n }
  unfolding leave notify_one
  leave-inner s n e = rw (e, leave) (ground arith)

  pub drop_read-Exclusive :
      (s : RwLock D) (reads writes : ℕ)
      → 1 ≤ reads
      → Exclusive s.inner reads writes
      → Exclusive (drop_read s).inner (reads - 1) writes
  unfolding drop_read end_borrow
  drop_read-Exclusive s (zero) writes l x = absurd (omega arith)
  drop_read-Exclusive s (suc n) writes l (p, r, inl (w, b, m)) =
      rw (leave-inner s n r, b) (p, omega arith, inl (w, ap reading (omega arith), omega arith))
  drop_read-Exclusive s (suc n) writes l (p, r, inr (w, z, b)) = absurd (omega arith)

  pub drop_write-Exclusive :
      (s : RwLock D) (reads writes : ℕ)
      → 1 ≤ writes
      → Exclusive s.inner reads writes
      → Exclusive (drop_write s).inner reads (writes - 1)
  unfolding drop_write end_borrow notify_one
  drop_write-Exclusive s reads writes l (p, r, inl (w, b, m)) = absurd (omega arith)
  drop_write-Exclusive s reads writes l (p, r, inr (w, z, b)) =
      rw b (p, r, inl (omega arith, ap reading (sym z), omega arith))

  abbrev pub Excluded : RwSystem D → Type 0
  Excluded s = Exclusive s.lock.inner s.read_guards s.write_guards

  read_settled :
      (c d : Guarded D) (reads writes : ℕ) (r : Progress)
      → Exclusive c reads writes
      → Settled r (try_read c ≡ some d) (d ≡ c)
      → Exclusive d (granted r + reads) writes
  read_settled c d reads writes acquired x e =
      subst (λ n. Exclusive d n writes) (omega arith) (try_read-Exclusive c d reads writes x e)
  read_settled c d reads writes pending x e =
      subst (λ n. Exclusive d n writes) (omega arith)
        (subst (λ k. Exclusive k reads writes) (sym e) x)
  read_settled c d reads writes looping x e = absurd e

  write_settled :
      (c d : Guarded D) (reads writes : ℕ) (r : Progress)
      → Exclusive c reads writes
      → Settled r (try_write c ≡ some d) (d ≡ c)
      → Exclusive d reads (granted r + writes)
  write_settled c d reads writes acquired x e =
      subst (λ n. Exclusive d reads n) (omega arith) (try_write-Exclusive c d reads writes x e)
  write_settled c d reads writes pending x e =
      subst (λ n. Exclusive d reads n) (omega arith)
        (subst (λ k. Exclusive k reads writes) (sym e) x)
  write_settled c d reads writes looping x e = absurd e

  try_read_step-Excluded : (s : RwSystem D) → Excluded s → Excluded (try_read_step s)
  unfolding try_read_step
  try_read_step-Excluded s x = elim (Option-cases (try_read s.lock.inner)) [
    | inl e ↦ rw (e, try_read_step) x
    | inr (i, e) ↦
        rw (e, try_read_step) (try_read-Exclusive s.lock.inner i s.read_guards s.write_guards x e)
  ]

  try_write_step-Excluded : (s : RwSystem D) → Excluded s → Excluded (try_write_step s)
  unfolding try_write_step
  try_write_step-Excluded s x = elim (Option-cases (try_write s.lock.inner)) [
    | inl e ↦ rw (e, try_write_step) x
    | inr (i, e) ↦
        rw (e, try_write_step) (try_write-Exclusive s.lock.inner i s.read_guards s.write_guards x e)
  ]

  -- However a read/write lock is used, no `expect` fails, `readers` is the number of read guards that
  -- are out, and either no write guard is out, or one is and no read guard.
  pub readers_or_writer : (s : RwSystem D) → RwReachable s → Excluded s
  unfolding read_step RwLock.read write_step RwLock.write cancel_read_step cancel_read
      cancel_write_step cancel_write drop_read_step drop_write_step RwLock.deref_mut RwLock.new
  readers_or_writer _ (starts d) = (refl, refl, inl (refl, refl, omega arith))
  readers_or_writer _ (begins_read s a f r) = readers_or_writer s r
  readers_or_writer _ (begins_write s a f r) = readers_or_writer s r
  readers_or_writer _ (polls_read s a v n r) =
      read_settled s.lock.inner _ s.read_guards s.write_guards _ (readers_or_writer s r)
        (poll_future-Taken try_read a v (for_readers s.lock) (s.reads a))
  readers_or_writer _ (polls_write s a v n r) =
      write_settled s.lock.inner _ s.read_guards s.write_guards _ (readers_or_writer s r)
        (poll_future-Taken try_write a v (for_writers s.lock) (s.writes a))
  readers_or_writer _ (tries_read s r) = try_read_step-Excluded s (readers_or_writer s r)
  readers_or_writer _ (tries_write s r) = try_write_step-Excluded s (readers_or_writer s r)
  readers_or_writer _ (cancels_read s a r) =
      subst (λ c. Exclusive c s.read_guards s.write_guards)
        (sym (drop_future-inner a (s.reads a) (for_readers s.lock))) (readers_or_writer s r)
  readers_or_writer _ (cancels_write s a r) =
      subst (λ c. Exclusive c s.read_guards s.write_guards)
        (sym (drop_future-inner a (s.writes a) (for_writers s.lock))) (readers_or_writer s r)
  readers_or_writer _ (drops_read s l r) =
      drop_read-Exclusive s.lock s.read_guards s.write_guards l (readers_or_writer s r)
  readers_or_writer _ (drops_write s l r) =
      drop_write-Exclusive s.lock s.read_guards s.write_guards l (readers_or_writer s r)
  readers_or_writer _ (edits s f l r) = readers_or_writer s r

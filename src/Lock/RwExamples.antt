-- ===== src/Lock/RwExamples.antt =====
-- Runs of the read/write lock at concrete values.
use unsend.Queue
use unsend.Lock.RwLock
use unsend.Lock.Wait.{start, poll_future, finished, turn}
use unsend.Lock.RwUse.{
  RwSystem, RwReachable, read_step, write_step, polls_read, polls_write, begin_read, begins_read,
  begin_write, begins_write, unused_rw, starts,
}
use unsend.Lock.RwExclusion.{Excluded, readers_or_writer}
use unsend.Base.{ℕ, ◌≢◌, arith, refl, ◌≡◌}
use unsend.Lock.RwRelease.{Writable, writer_unheard, last_reader-Heard}
use unsend.Lock.RwLock.{drop_write, drop_read}
use unsend.Lock.Wakeup.{Heard}

start≢finished : start ≢ finished
start≢finished = ground arith

-- A reader takes the lock.
abbrev one_reader : RwSystem ℕ
one_reader = read_step 1 10 (begin_read 1 (unused_rw 5))

one_reader-RwReachable : RwReachable one_reader
one_reader-RwReachable = polls_read _ 1 10 start≢finished (begins_read _ 1 refl (starts 5))

readers_or_writer_example : Excluded one_reader
readers_or_writer_example = readers_or_writer one_reader one_reader-RwReachable

-- While the reader holds it, a writer waits.
abbrev reader_and_writer : RwSystem ℕ
reader_and_writer = write_step 2 20 (begin_write 2 one_reader)

reader_and_writer-RwReachable : RwReachable reader_and_writer
unfolding read_step RwLock.read poll_future turn
reader_and_writer-RwReachable =
    polls_write _ 2 20 start≢finished (begins_write _ 2 refl one_reader-RwReachable)

last_reader-Heard_example :
    Writable (drop_read reader_and_writer.lock).inner
    × Heard (drop_read reader_and_writer.lock).no_readers
unfolding read_step RwLock.read write_step RwLock.write poll_future turn RwLock.try_read RwLock.new
last_reader-Heard_example = last_reader-Heard reader_and_writer reader_and_writer-RwReachable refl

-- Two writers: the first takes the lock and the second waits.
abbrev one_writer : RwSystem ℕ
one_writer = write_step 1 10 (begin_write 1 (unused_rw 5))

one_writer-RwReachable : RwReachable one_writer
one_writer-RwReachable = polls_write _ 1 10 start≢finished (begins_write _ 1 refl (starts 5))

abbrev two_writers : RwSystem ℕ
two_writers = write_step 2 20 (begin_write 2 one_writer)

two_writers-RwReachable : RwReachable two_writers
unfolding write_step RwLock.write poll_future turn
two_writers-RwReachable =
    polls_write _ 2 20 start≢finished (begins_write _ 2 refl one_writer-RwReachable)

writer_unheard_example :
    let t = drop_write two_writers.lock in
    Writable t.inner
    × (t.woken ≡ two_writers.lock.woken)
    × (t.no_readers ≡ two_writers.lock.no_readers)
unfolding write_step RwLock.write poll_future turn RwLock.try_write RwLock.new Queue.poll_result
    Queue.drop
writer_unheard_example = writer_unheard two_writers two_writers-RwReachable refl refl

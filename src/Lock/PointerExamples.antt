-- ===== src/Lock/PointerExamples.antt =====
-- Runs of a mutex of src/lock/mutex.rs over the event's list in memory.
use unsend.Event.Listener
use unsend.Event.Inner
use unsend.Event.World.{World, load, store, Run, ok, panic, fault}
use unsend.Queue
use unsend.Base.{refl, [], ◌∷◌, List, ℕ, ◌+◌, ◌≡◌, ◌≢◌, arith, false, Option, some, none}
use unsend.Event.Returns.{Returns}
use unsend.Event.Simulation.{Sim}
use unsend.Event.Notification.{single}
use unsend.Event.Program.{tagged}
use unsend.Event.Inner.{notify_loop, next_tag, inner_notify, wake_state}
use unsend.Lock.Wait.{start, awaiting, finished, poll_future, turn, drop_listener, poll_listener}
use unsend.Lock.Mutex.{Cell, mutex, try_lock, free, unborrow}
use unsend.Lock.System.{begin_step, poll_step, release_step}
use unsend.Lock.Pointers.{
  Op, begins, polls, releases, AllOwned, pointer_run, pointer_step, pointer_poll, pointer_turn,
  system_run, system_step, Held,
}
use unsend.Lock.PointerTurns.{spec_of}
use unsend.Lock.PointerRuns.{held, listening}
use unsend.Lock.PointerLocks.{brand_new, lock_refines}

abbrev five : Cell ℕ
five = record { borrowed = false; value = 5 }

-- Task 10 takes the mutex, task 20 waits for it, the guard is dropped, and task 20 takes the mutex.
abbrev handed_on : List Op
handed_on = begins 1 ∷ polls 1 10 ∷ begins 2 ∷ polls 2 20 ∷ releases ∷ polls 2 20 ∷ []

start≢finished : start ≢ finished
start≢finished = ground arith

awaiting≢finished : awaiting ≢ finished
awaiting≢finished = ground arith

handed_on-AllOwned : AllOwned mutex handed_on (brand_new mutex five)
unfolding system_step begin_step poll_step poll_future turn try_lock drop_listener poll_listener
    Queue.poll_result release_step Queue.drop
handed_on-AllOwned =
    (refl, (start≢finished, (refl, (start≢finished, (omega arith, (awaiting≢finished, tt))))))

lock_refines_example :
    Returns
      (λ t w.
        (t ≡ held (system_run mutex handed_on (brand_new mutex five)))
        × Sim w (
            spec_of
              (system_run mutex handed_on (brand_new mutex five)).shared
              (listening (system_run mutex handed_on (brand_new mutex five)).futures))
        × (free t.inner + t.guards ≡ 1))
      (pointer_run mutex handed_on (held (brand_new mutex five)) Listener.new_event)
lock_refines_example = lock_refines mutex handed_on five refl handed_on-AllOwned

-- How many guards are out, which futures returned, and which wakers were called.
abbrev outcome_of : Run (Held (Cell ℕ) × World (Unit {0})) → Option (ℕ × List ℕ)
outcome_of (ok (t, w)) = some (t.guards, w.woken)
outcome_of panic = none
outcome_of fault = none

handed_on_run :
    outcome_of (pointer_run mutex handed_on (held (brand_new mutex five)) Listener.new_event)
    ≡ some (1, 20 ∷ [])
unfolding pointer_run pointer_step pointer_poll pointer_turn try_lock Listener.new_event
    Listener.new Listener.listen Listener.poll Listener.drop Listener.insert Listener.remove
    Listener.register Listener.register_state Listener.settle Listener.link_tail
    Listener.unlink_prev Listener.unlink_next Listener.decrement_len Listener.decrement_notified
    Listener.drop_in_list Listener.same_pointer load store single Inner.notify inner_notify
    notify_loop next_tag wake_state tagged unborrow
handed_on_run = refl

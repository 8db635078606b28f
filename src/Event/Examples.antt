-- ===== src/Event/Examples.antt =====
-- Runs of event.rs, after its own tests, and the theorems of this part at concrete inputs.
use unsend.Event.Listener
use unsend.Event.Inner
use unsend.Queue
use unsend.Event.Program.{
  create, poll, release, notify, spec_replies, spec_step, run, Call, spec_reply, Reply, step,
  tagged, empty_spec, done, pending, spec_run, reached, ready,
}
use unsend.Base.{List, ℕ, ◌≡◌, ◌∷◌, false, Option, [], some, none, refl, ◌-◌, ◌^◌, ◌+◌, ◌%◌, true}
use unsend.Event.World.{Run, World, load, store, ok, panic, fault}
use unsend.Event.Returns.{Returns, outcome}
use unsend.Queue.{delivered, quota}
use unsend.Event.Simulation.{Sim}
use unsend.Event.Refinement.{program_refines}
use unsend.Event.Notification.{single}
use unsend.Event.Handles.{borrowed, boxed, counted, create_with, poll_with}
use unsend.Event.Conversions.{
  IntoNotification, into_tag, into_additional, of_integer, Chain-counts, tags, additionals, integer,
}
use unsend.Event.Notification.{Notify, ℤ, pos, negsuc}
use unsend.Event.Inner.{inner_notify, notify_loop, next_tag, wake_state}
use unsend.Queue.Counts.{topped_up}
use unsend.Event.Counters.{notify-topped_up}

-- Three listeners wait; two are notified; the first is dropped, then the others are polled.
abbrev drop_notified2 : List (Call ℕ)
drop_notified2 =
    create borrowed 1
    ∷ create boxed 2
    ∷ create counted 3
    ∷ poll borrowed 1 10
    ∷ poll boxed 2 20
    ∷ poll counted 3 30
    ∷ notify 2 false (λ i. i)
    ∷ release 1
    ∷ poll boxed 2 20
    ∷ poll counted 3 30
    ∷ []

run_drop_notified2 :
    spec_replies drop_notified2 empty_spec
    ≡ done ∷ done ∷ done ∷ pending ∷ pending ∷ pending ∷ reached 2 ∷ done ∷ ready 1 ∷ pending ∷ []
unfolding spec_replies spec_reply spec_step Queue.listen Queue.poll Queue.poll_result Queue.notify
    Queue.drop delivered quota
run_drop_notified2 = refl

program_refines_example :
    Returns
      (λ rs w'.
        (rs ≡ spec_replies drop_notified2 empty_spec) × Sim w' (spec_run drop_notified2 empty_spec))
      (run drop_notified2 Listener.new_event)
unfolding spec_step Queue.listen Queue.poll Queue.notify Queue.drop
program_refines_example =
    program_refines drop_notified2
      (refl, (refl, (refl, (refl, (refl, (refl, (tt, (refl, (refl, (refl, tt))))))))))

-- The same replies come out of the pointer code itself.
pointer_replies : Run (List (Reply ℕ) × World ℕ) → Option (List (Reply ℕ))
pointer_replies (ok (rs, w)) = some rs
pointer_replies panic = none
pointer_replies fault = none

run_pointers :
    pointer_replies (run drop_notified2 Listener.new_event)
    ≡ some (
        done
        ∷ done
        ∷ done
        ∷ pending
        ∷ pending
        ∷ pending
        ∷ reached 2
        ∷ done
        ∷ ready 1
        ∷ pending
        ∷ [])
unfolding pointer_replies create_with poll_with run step tagged Listener.new_event Listener.new
    Listener.listen Listener.poll Listener.drop Listener.insert Listener.remove Listener.register
    Listener.register_state Listener.settle Listener.link_tail Listener.unlink_prev
    Listener.unlink_next Listener.decrement_len Listener.decrement_notified Listener.drop_in_list
    Listener.same_pointer load store single Inner.notify inner_notify notify_loop next_tag
    wake_state
run_pointers = refl

-- Two listeners wait, and a third was notified.
abbrev three_polled : List (Call ℕ)
three_polled =
    create borrowed 1
    ∷ create boxed 2
    ∷ create counted 3
    ∷ poll borrowed 1 10
    ∷ poll boxed 2 20
    ∷ poll counted 3 30
    ∷ notify 1 false (λ i. i)
    ∷ []

three_polled_outcome :
    (rs : List (Reply ℕ)) × (w : World ℕ) × ((rs ≡ spec_replies three_polled empty_spec)
      × Sim w (spec_run three_polled empty_spec))
unfolding spec_step Queue.listen Queue.poll Queue.notify Queue.drop
three_polled_outcome =
    outcome (program_refines three_polled (refl, (refl, (refl, (refl, (refl, (refl, (tt, tt))))))))

abbrev three_polled_world : World ℕ
three_polled_world = three_polled_outcome.1

notify-topped_up_example :
    Returns
      (λ r w'.
        (w'.inner.notified
          ≡ topped_up 3 false three_polled_world.inner.notified three_polled_world.inner.len)
        × (r.0 ≡ w'.inner.notified - three_polled_world.inner.notified)
        × (w'.inner.len ≡ three_polled_world.inner.len))
      (Inner.notify (tagged false (λ i. i)) (3, 0) three_polled_world)
notify-topped_up_example =
    notify-topped_up 3 false (λ i. i) three_polled_world _ three_polled_outcome.2.1

-- `(2 ^ 64 + 3).additional().tag('a')`, in an integer type of 128 bits.
abbrev tagged_extra : IntoNotification ℤ (Notify × ℕ) ℕ
tagged_extra = into_tag (into_additional of_integer) 97

Chain-counts_example :
    ((s : Notify × ℕ) × (tagged_extra.into (pos (2 ^ 64 + 3)) ≡ ok s)
      × (tagged_extra.notification.count s ≡ (2 ^ 64 + 3) % 2 ^ 64)
      × (tagged_extra.notification.is_additional s ≡ true))
    × (tagged_extra.into (negsuc (2 ^ 64 + 3)) ≡ panic)
Chain-counts_example =
    Chain-counts (Notify × ℕ) ℕ tagged_extra true (2 ^ 64 + 3)
      (tags 97 (into_additional of_integer) true (additionals of_integer false integer))

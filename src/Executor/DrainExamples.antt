-- ===== src/Executor/DrainExamples.antt =====
-- Runs of `Executor::run` and of a dropped ticker at concrete values.
use unsend.Executor.Sample.{idle_crates, ending_crates}
use unsend.Base.{refl, ◌∷◌, ℕ, ◌≡◌, [], is_nil, some, false, true, List, Option, ◌++◌, to_list}
use unsend.Executor.Draining.{leads, run_turns-drains}
use unsend.Executor.{State, with_thread_id, set_local}
use unsend.Executor.Alone.{Stands, nobody}
use unsend.Executor.Ticker.{run_turns, tick_start, tick_pending, drop_ticker, tick, tick_await}
use unsend.Queue.{Waiter}
use unsend.Executor.Handing.{drop_ticker-hands_over}

-- Two runnables in the thread-local queue and one in the mainstream queue, which end when they run.
abbrev three : State (List ℕ) (Option ℕ) (List (Option ℕ)) ℕ
three =
    let s = set_local ending_crates (0 ∷ 1 ∷ []) (with_thread_id ending_crates (some 1)) in
    record s {
      task_queue = 2 ∷ [];
      thread_state = record s.thread_state { active = some 0 ∷ some 1 ∷ some 2 ∷ [] };
    }

three-Stands : Stands ending_crates (λ xs r. refl) (0 ∷ 1 ∷ []) (2 ∷ []) [] three
unfolding Stands with_thread_id
three-Stands = (refl, refl, refl, refl)

three-leads : leads ending_crates (λ xs r. refl) false three ≡ true
unfolding with_thread_id
three-leads = refl

run_turns-drains_example :
    let p =
      run_turns ending_crates 4 0 10 (nobody ending_crates (λ xs r. refl)) tick_start false three in
    (p.0 ≡ tick_pending) × (p.2.ran ≡ 0 ∷ 1 ∷ 2 ∷ [])
run_turns-drains_example =
    run_turns-drains ending_crates (λ xs r. refl) (0 ∷ 1 ∷ []) (2 ∷ []) [] 0 10 false three
      three-Stands three-leads

-- The ticker on the mainstream goes while the ticker at the address 1 waits, for the task 11.
abbrev second : Waiter
second = record { id = 1; waker = some 11 }

abbrev leaving : State (List ℕ) (Option ℕ) (List (Option ℕ)) ℕ
leaving =
    let s = with_thread_id idle_crates (some 1) in
    record s {
      thread_state = record s.thread_state {
        thread_waker = record { notices = []; waiters = second ∷ [] };
        is_mainstream_listening = true;
      };
    }

drop_ticker-hands_over_example :
    let t = drop_ticker idle_crates true leaving in
    (t.woken ≡ leaving.woken ++ to_list second.waker)
    × ((tick idle_crates 1 11 (nobody idle_crates (λ xs r. refl)) tick_await false t).1
        ≡ is_nil leaving.thread_state.local_queue)
drop_ticker-hands_over_example =
    drop_ticker-hands_over idle_crates second [] 11 (nobody idle_crates (λ xs r. refl)) leaving refl
      refl

-- ===== src/Lock/OnceExamples.antt =====
-- Runs of the cell at concrete values.
use unsend.Lock.OnceCell
use unsend.Queue
use unsend.Event.Notification.{usize_max}
use unsend.Lock.Wait.{start, awaiting, acquired, poll_future, turn, poll_listener}
use unsend.Lock.OnceCell.{
  listening, got_value, OnceCell, set_value, init_turn, try_init, poll_active, store, unwrite,
  drop_active,
}
use unsend.Lock.OnceReady.{set_ok, set_err, wait, from_value, set, get_or_init, take}
use unsend.Base.{true, some, length, ◌≤◌, refl, ◌≢◌, ℕ, arith, false, ◌≡◌, none, ◌⊎◌}
use unsend.Lock.OnceCell.{fresh, get_or_try_init, over, success, failure, setting, unready}
use unsend.Lock.OnceSole.{
  Initializers, Initialized, Sole, Initialized-Sole, init_step, polls_init, set_init, begins_init,
  no_initializers, unwritten,
}
use unsend.Lock.OnceSet.{Answers, set-Answers}
use unsend.Lock.OnceHeard.{set_value-heard}
use unsend.Lock.OnceServed.{Begins, Initialized-Served}

fresh≢over : fresh ≢ over
fresh≢over = ground arith

-- A future starts to write a new cell.
abbrev writer : Initializers ℕ
writer =
    init_step {E = ℕ} 1 10 unready
      (record { cell = OnceCell.new; futures = set_init (λ a. over) 1 fresh })

writer-Initialized : Initialized ℕ writer
unfolding OnceCell.new
writer-Initialized =
    polls_init _ 1 10 unready fresh≢over (begins_init no_initializers 1 refl unwritten)

Initialized-Sole_example : Sole writer
Initialized-Sole_example = Initialized-Sole writer writer-Initialized

-- While the writer writes, one task waits for the value and another one for its turn to write.
abbrev two_wait : OnceCell ℕ
two_wait =
    let (_, _, s) = wait 3 30 start writer.cell in
    (get_or_try_init {E = ℕ} 2 20 (success 5) fresh s).1

two_wait-passive : Queue.in_queue 3 two_wait.passive ≡ true
unfolding OnceCell.new init_step wait poll_future turn poll_listener get_or_try_init init_turn
    try_init set_value poll_active Queue.poll Queue.listen Queue.insert Queue.registered
    Queue.poll_result
two_wait-passive = refl

two_wait-active : Queue.in_queue 2 two_wait.active ≡ true
unfolding OnceCell.new init_step wait poll_future turn poll_listener get_or_try_init init_turn
    try_init set_value poll_active Queue.poll Queue.listen Queue.insert Queue.registered
    Queue.poll_result
two_wait-active = refl

few_passive : length two_wait.passive.waiters ≤ usize_max
unfolding OnceCell.new init_step wait poll_future turn poll_listener get_or_try_init init_turn
    try_init set_value poll_active Queue.poll Queue.listen Queue.insert Queue.registered
    Queue.poll_result
few_passive = omega arith

few_active : length two_wait.active.waiters ≤ usize_max
unfolding OnceCell.new init_step wait poll_future turn poll_listener get_or_try_init init_turn
    try_init set_value poll_active Queue.poll Queue.listen Queue.insert Queue.registered
    Queue.poll_result
few_active = omega arith

one≢two : ◌≢◌ {A = ℕ} 1 2
one≢two = ground arith

set_value-heard_example :
    let u = (set_value {E = ℕ} 1 (success 7) two_wait).1 in
    ((wait 3 20 awaiting u).0 ≡ acquired)
    × ((get_or_try_init {E = ℕ} 2 20 (success 5) listening u).0 ≡ got_value 7)
set_value-heard_example =
    set_value-heard ℕ 1 3 2 20 7 (success 5) two_wait one≢two two_wait-passive few_passive
      two_wait-active few_active

abbrev nine : ℕ
nine = 9

abbrev full : OnceCell ℕ
full = from_value 7

abbrev vacant : OnceCell ℕ
vacant = OnceCell.new

set-Answers_example : Answers nine full (set 4 40 nine fresh full)
set-Answers_example = set-Answers nine 4 40 false full

-- A cell that has its value keeps it, and `take` gives it out.
set_run :
    ((set 4 40 nine fresh full).0 ≡ set_err nine)
    × ((set 4 40 nine fresh vacant).0 ≡ set_ok)
    × ((take (set 4 40 nine fresh vacant).1).0 ≡ some nine)
unfolding from_value OnceCell.new set get_or_init get_or_try_init init_turn try_init set_value store
    unwrite drop_active take
set_run = (refl, refl, refl)

-- The writer fails while the future at 2 waits for its turn.
abbrev begun_two : Initializers ℕ
begun_two = record writer { futures = set_init writer.futures 2 fresh }

abbrev one_waits : Initializers ℕ
one_waits = init_step {E = ℕ} 2 20 unready begun_two

abbrev one_failed : Initializers ℕ
one_failed = init_step {E = ℕ} 1 10 (failure 9) one_waits

setting≢over : setting ≢ over
setting≢over = ground arith

two_fresh : begun_two.futures 2 ≢ over
two_fresh = ground arith

two_over : writer.futures 2 ≡ over
unfolding init_step
two_over = refl

one_setting : one_waits.futures 1 ≢ over
unfolding OnceCell.new init_step get_or_try_init init_turn try_init set_value poll_active Queue.poll
    Queue.listen Queue.insert Queue.registered Queue.poll_result
one_setting = ground arith

one_failed-Initialized : Initialized ℕ one_failed
one_failed-Initialized =
    polls_init one_waits 1 10 (failure 9) one_setting (
      polls_init begun_two 2 20 unready two_fresh
        (begins_init writer 2 two_over writer-Initialized))

one_failed_empty : (one_failed.cell.value ≡ none) × (one_failed.futures 2 ≡ listening)
unfolding OnceCell.new init_step get_or_try_init init_turn try_init set_value poll_active Queue.poll
    Queue.listen Queue.insert Queue.registered Queue.poll_result unwrite drop_active
one_failed_empty = (refl, refl)

Initialized-Served_example :
    ((b : ℕ) × (one_failed.futures b ≡ setting)) ⊎ ((b : ℕ) × Begins ℕ b one_failed)
Initialized-Served_example =
    Initialized-Served one_failed 2 one_failed-Initialized one_failed_empty.0 one_failed_empty.1

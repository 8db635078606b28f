-- ===== src/Lock/OnceCell.antt =====
-- The cell that is written once. Models src/lock/once_cell.rs; the future that computes the value is
-- the caller's, and each poll of it gives an `Answer`.
use unsend.Queue
use unsend.Event.Notification.{usize_max}
use unsend.Base.{none, some, [], false, true, ℕ, Option, Bool, List, ◌++◌, suc, length, zero, ◌+◌}
use unsend.Queue.{Queue}

pub record OnceCell (T : Type 0) : Type 0 where
  pub active : Queue (Unit {0})
  pub passive : Queue (Unit {0})
  pub writing : Bool
  pub value : Option T
  pub woken : List ℕ

-- What a poll of the caller's future gives.
pub data Answer (T E : Type 0) : Type 0 where
  unready : Answer T E
  success : T → Answer T E
  failure : E → Answer T E

-- Where a `get_or_try_init` future stands: at the `.await` of its listener, or of the caller's future.
pub data InitFuture : Type 0 where
  fresh : InitFuture
  listening : InitFuture
  setting : InitFuture
  over : InitFuture

pub data InitPoll (T E : Type 0) : Type 0 where
  got_value : T → InitPoll T E
  failed : E → InitPoll T E
  listens : InitPoll T E
  sets : InitPoll T E
  without_fuel : InitPoll T E

module _ {T : Type 0} where
  -- `OnceCell::new`.
  unfoldable pub new : OnceCell T
  new = record {
    active = Queue.empty;
    passive = Queue.empty;
    writing = false;
    value = none;
    woken = [];
  }

  -- The drop of `UnwriteOnDrop`.
  unfoldable pub unwrite : OnceCell T → OnceCell T
  unwrite s = record s {
    writing = false;
    active = Queue.notify 1 false (λ _. tt) s.active;
    woken = s.woken ++ Queue.notify_wakes 1 false s.active;
  }

  -- The value is stored, and everyone who waits is notified.
  unfoldable pub store : T → OnceCell T → OnceCell T
  store t s = record s {
    value = some t;
    passive = Queue.notify usize_max true (λ _. tt) s.passive;
    active = Queue.notify usize_max true (λ _. tt) s.active;
    woken =
        (s.woken ++ Queue.notify_wakes usize_max true s.passive)
        ++ Queue.notify_wakes usize_max true s.active;
  }

  unfoldable pub drop_active : ℕ → OnceCell T → OnceCell T
  drop_active a s = record s {
    active = Queue.drop a s.active;
    woken = s.woken ++ Queue.drop_wakes a s.active;
  }

  unfoldable pub poll_active : ℕ → ℕ → OnceCell T → OnceCell T
  poll_active a v s = record s { active = Queue.poll a v s.active }

  abbrev pub init_fuel : OnceCell T → ℕ
  init_fuel s = suc (suc (length s.active.notices + length s.active.notices))

module _ {T E : Type 0} where
  -- The caller's future is polled while the guard is held.
  unfoldable pub set_value : ℕ → Answer T E → OnceCell T → InitPoll T E × OnceCell T
  unfolding unwrite store drop_active
  set_value a unready s = (sets, s)
  set_value a (success t) s = (got_value t, drop_active a (unwrite (store t s)))
  set_value a (failure e) s = (failed e, drop_active a (unwrite s))

  -- The top of the loop: the value, or `rest` while someone writes, or the turn to write.
  unfoldable pub try_init :
      Option T
      → Bool
      → ℕ
      → Answer T E
      → OnceCell T
      → InitPoll T E × OnceCell T
      → InitPoll T E × OnceCell T
  unfolding set_value drop_active
  try_init (some t) w a r s rest = (got_value t, drop_active a s)
  try_init none true a r s rest = rest
  try_init none false a r s rest = set_value a r (record s { writing = true })

  -- The loop, from its top (`true`) or from the `.await` of the listener.
  unfoldable pub init_turn : Bool → ℕ → ℕ → ℕ → Answer T E → OnceCell T → InitPoll T E × OnceCell T
  unfolding try_init poll_active
  init_turn top zero a v r s = (without_fuel, s)
  init_turn true (suc fuel) a v r s =
      let rest = init_turn false fuel a v r s in try_init s.value s.writing a r s rest
  init_turn false (suc fuel) a v r s = elim (Queue.poll_result a s.active) [
    | none ↦ (listens, poll_active a v s)
    | some t ↦ init_turn true fuel a v r (poll_active a v s)
  ]

  abbrev pub init_after : InitPoll T E → InitFuture
  init_after (got_value t) = over
  init_after (failed e) = over
  init_after listens = listening
  init_after sets = setting
  init_after without_fuel = listening

  -- `OnceCell::get_or_try_init`, polled.
  unfoldable pub get_or_try_init :
      ℕ → ℕ → Answer T E → InitFuture → OnceCell T → InitPoll T E × OnceCell T
  unfolding init_turn set_value
  get_or_try_init a v r fresh s = init_turn true (init_fuel s) a v r s
  get_or_try_init a v r listening s = init_turn false (init_fuel s) a v r s
  get_or_try_init a v r setting s = set_value a r s
  get_or_try_init a v r over s = (without_fuel, s)

module _ {T : Type 0} where
  -- The drop of a `get_or_try_init` future.
  unfoldable pub drop_init : ℕ → InitFuture → OnceCell T → OnceCell T
  unfolding drop_active unwrite
  drop_init a fresh s = s
  drop_init a listening s = drop_active a s
  drop_init a setting s = drop_active a (unwrite s)
  drop_init a over s = s

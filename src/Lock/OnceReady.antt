-- ===== src/Lock/OnceReady.antt =====
-- The rest of the cell of src/lock/once_cell.rs: `get_or_init`, `set`, `wait`, `take` and `From`.
use unsend.Queue
use unsend.Lock.Wait.{Shared, Future, Progress, poll_future, drop_future}
use unsend.Base.{none, some, [], ℕ, Option, false}
use unsend.Lock.OnceCell.{
  Answer, InitFuture, InitPoll, success, got_value, failed, listens, sets, without_fuel, OnceCell,
  get_or_try_init,
}

-- What a poll of a `set` future gives.
pub data SetPoll (T : Type 0) : Type 0 where
  set_ok : SetPoll T
  set_err : T → SetPoll T
  set_waits : SetPoll T
  set_fuel : SetPoll T

module _ {T : Type 0} where
  -- `From<T>`.
  unfoldable pub from_value : T → OnceCell T
  from_value t = record {
    active = Queue.empty;
    passive = Queue.empty;
    writing = false;
    value = some t;
    woken = [];
  }

  -- What the reference reads, if there is a value.
  unfoldable pub get : OnceCell T → Option T
  get s = s.value

  abbrev map_value : (T → T) → Option T → Option T
  map_value f none = none
  map_value f (some t) = some (f t)

  -- A change through the mutable reference, if there is a value.
  unfoldable pub get_mut : (T → T) → OnceCell T → OnceCell T
  get_mut f s = record s { value = map_value f s.value }

  unfoldable pub take : OnceCell T → Option T × OnceCell T
  take s = (s.value, record s { value = none })

  -- `get_or_init`, polled: the caller's future cannot fail.
  unfoldable pub get_or_init :
      ℕ → ℕ → Answer T ⊥ → InitFuture → OnceCell T → InitPoll T ⊥ × OnceCell T
  unfolding get_or_try_init
  get_or_init a v r f s = get_or_try_init a v r f s

  -- The value that a `set` future still has is its error. It was moved out when the future that it
  -- gives to `get_or_init` was polled, which is in the poll that finds the cell empty and returns.
  abbrev pub set_result : T → Option T → InitPoll T ⊥ → SetPoll T
  set_result t none (got_value u) = set_ok
  set_result t (some w) (got_value u) = set_err t
  set_result t o (failed e) = absurd e
  set_result t o listens = set_waits
  set_result t o sets = set_waits
  set_result t o without_fuel = set_fuel

  -- `set`, polled.
  unfoldable pub set : ℕ → ℕ → T → InitFuture → OnceCell T → SetPoll T × OnceCell T
  unfolding get_or_init
  set a v t f s = let (p, u) = get_or_init a v (success t) f s in (set_result t s.value p, u)

  -- The loop of `wait` goes on while there is no value.
  abbrev pub ready : Option T → Option (Option T)
  ready none = none
  ready (some t) = some (some t)

  -- The cell as the `wait` futures see it.
  abbrev pub for_waiters : OnceCell T → Shared (Option T)
  for_waiters s = record { event = s.passive; woken = s.woken; inner = s.value }

  abbrev pub from_waiters : OnceCell T → Shared (Option T) → OnceCell T
  from_waiters s t = record s { passive = t.event; woken = t.woken; value = t.inner }

  -- `wait`, polled.
  unfoldable pub wait : ℕ → ℕ → Future → OnceCell T → Progress × Future × OnceCell T
  unfolding poll_future
  wait a v f s = let (r, g, t) = poll_future ready a v f (for_waiters s) in (r, g, from_waiters s t)

  -- The drop of a `wait` future.
  unfoldable pub cancel_wait : ℕ → Future → OnceCell T → OnceCell T
  unfolding drop_future
  cancel_wait a f s = from_waiters s (drop_future a f (for_waiters s))

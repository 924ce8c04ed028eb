-- ===== src/PcQueue.antt =====
-- Project_work/include/queue.hpp: the producer and consumer queue, as operations between two
-- points where a thread holds the mutex. A call that waits on a condition variable gives the mutex
-- up, so it is two operations: `push_impl` up to the wait, and `wake_push` from there on.
pub mod System
pub mod Fifo
pub mod Capacity
pub mod Exclusion
pub mod Priority
pub mod Waiting
mod Tests
use mathlib.Core.List.{Perm}
use cplus_plus_developer_pro.Prelude.{
  ℕ, Bool, true, false, not, ◌&&◌, ◌||◌, Option, none, some, List, [], ◌∷◌, ltb, leb, if◌then◌else◌,
  length, is_empty, snoc, All, ◌≡◌,
}
use cplus_plus_developer_pro.Prelude.Int.{ℤ, pos, ltb_ℤ}

pub data QueueMode : Type 0 where
  single_producer_single_consumer multi_producer_single_consumer : QueueMode
  single_producer_multi_consumer multi_producer_multi_consumer : QueueMode

-- The two tests of the mode that `pushImpl` and `waitForNonEmpty` make.
abbrev pub one_producer : QueueMode → Bool
one_producer single_producer_single_consumer = true
one_producer multi_producer_single_consumer = false
one_producer single_producer_multi_consumer = true
one_producer multi_producer_multi_consumer = false

abbrev pub one_consumer : QueueMode → Bool
one_consumer single_producer_single_consumer = true
one_consumer multi_producer_single_consumer = true
one_consumer single_producer_multi_consumer = false
one_consumer multi_producer_multi_consumer = false

pub record PriorityItem {ℓ} (T : Type ℓ) : Type ℓ where
  pub item : T
  pub priority : ℤ

-- `operator<`
abbrev pub less {ℓ} : {T : Type ℓ} → PriorityItem T → PriorityItem T → Bool
less a b = ltb_ℤ a.priority b.priority

-- The items of the `std::priority_queue` are listed in no particular order; those of the
-- `std::queue` from the front to the back.
pub record Queue {ℓ} (T : Type ℓ) : Type ℓ where
  pub use_priority : Bool
  pub closed : Bool
  pub producer_active : Bool
  pub consumer_active : Bool
  pub mode : QueueMode
  pub max_size : ℕ
  pub priority_queue : List (PriorityItem T)
  pub queue : List T

-- `timeout < 0`, `timeout == 0` and `timeout > 0` of the waiting functions.
abbrev pub is_timed : ℤ → Bool
is_timed timeout = ltb_ℤ (pos 0) timeout

abbrev pub is_zero : ℤ → Bool
is_zero timeout = not (ltb_ℤ (pos 0) timeout) && not (ltb_ℤ timeout (pos 0))

-- The locals of a `pushImpl` that waits, and of a `popImpl`.
pub record PushWait {ℓ} (T : Type ℓ) : Type ℓ where
  pub item : T
  pub priority : ℤ
  pub timed : Bool
  pub is_producer_active : Bool

pub record PopWait : Type 0 where
  pub timed : Bool
  pub is_consumer_active : Bool

-- How far a call gets before it gives the mutex up: it has returned, thrown, or waits.
pub data PushOutcome {ℓ} (T : Type ℓ) : Type ℓ where
  push_returned : Bool → Queue T → PushOutcome T
  push_thrown : PushOutcome T
  push_blocked : PushWait T → Queue T → PushOutcome T

pub data PopOutcome {ℓ} (T : Type ℓ) : Type ℓ where
  pop_returned : Option T → Queue T → PopOutcome T
  pop_thrown : PopOutcome T
  pop_blocked : PopWait → Queue T → PopOutcome T

module _ {ℓ} {T : Type ℓ} where
  pub new_queue : Bool → QueueMode → ℕ → Queue T
  new_queue use_priority mode max_size = record {
    use_priority = use_priority;
    closed = false;
    producer_active = false;
    consumer_active = false;
    mode = mode;
    max_size = max_size;
    priority_queue = [];
    queue = [];
  }

  abbrev pub empty : Queue T → Bool
  empty q = if q.use_priority then is_empty q.priority_queue else is_empty q.queue

  abbrev pub size : Queue T → ℕ
  size q = if q.use_priority then length q.priority_queue else length q.queue

  pub close : Queue T → Queue T
  close q = record q { closed = true }

  pub clear : Queue T → Queue T
  clear q =
      let cleared = record q { queue = [] } in
      if cleared.use_priority then record cleared { priority_queue = [] } else cleared

  enqueue : T → ℤ → Queue T → Queue T
  enqueue x priority q =
      if q.use_priority
      then record q { priority_queue = record { item = x; priority = priority } ∷ q.priority_queue }
      else record q { queue = snoc q.queue x }

  abbrev pub leave_producer : PushWait T → Queue T → Queue T
  leave_producer w q = if w.is_producer_active then record q { producer_active = false } else q

  -- `pushImpl` from the end of its wait to its end.
  pub finish_push : PushWait T → Bool → Queue T → Bool × Queue T
  unfolding enqueue
  finish_push w success q =
      let q' = leave_producer w q in
      if not success || q'.closed then (false, q') else (true, enqueue w.item w.priority q')

  returned_push : Bool × Queue T → PushOutcome T
  returned_push (b, q) = push_returned b q

  -- `waitForNotFull`, up to its wait.
  wait_for_not_full : ℤ → PushWait T → Queue T → PushOutcome T
  unfolding finish_push returned_push
  wait_for_not_full timeout w q =
      if leb q.max_size (size q) && not q.closed
      then if is_zero timeout then returned_push (finish_push w false q) else push_blocked w q
      else returned_push (finish_push w (not q.closed) q)

  pub push_impl : T → ℤ → ℤ → Queue T → PushOutcome T
  unfolding wait_for_not_full finish_push returned_push
  push_impl x priority timeout q =
      let q' = if one_producer q.mode then record q { producer_active = true } else q in
      let w : PushWait T = record {
        item = x;
        priority = priority;
        timed = is_timed timeout;
        is_producer_active = one_producer q.mode;
      } in
      if q.closed
      then push_returned false q
      else if one_producer q.mode && q.producer_active
      then push_thrown
      else if ltb 0 q'.max_size && leb q'.max_size (size q')
      then wait_for_not_full timeout w q'
      else returned_push (finish_push w true q')

  -- A waiting producer that has the mutex again. It leaves the wait when the predicate holds, and
  -- a timed one also when its time is up; otherwise it goes on waiting.
  pub wake_push : PushWait T → Queue T → Option (Bool × Queue T)
  unfolding finish_push
  wake_push w q =
      if ltb (size q) q.max_size || q.closed
      then some (finish_push w (w.timed || not q.closed) q)
      else if w.timed
      then some (finish_push w false q)
      else none

-- `top` and `pop` of a `std::priority_queue` as one operation on its items: it gives an item
-- that is less than no other, and the others.
pub record TakesTop {ℓ} {T : Type ℓ}
    (take_top : List (PriorityItem T) → Option (PriorityItem T × List (PriorityItem T)))
    : Type ℓ where
  pub takes :
      (i : PriorityItem T) (is : List (PriorityItem T))
      → (top : PriorityItem T) × (rest : List (PriorityItem T)) × (take_top (i ∷ is)
          ≡ some (top, rest))
        × Perm (i ∷ is) (top ∷ rest)
        × All (λ j. less top j ≡ false) rest

module _ {ℓ} {T : Type ℓ}
    (take_top : List (PriorityItem T) → Option (PriorityItem T × List (PriorityItem T))) where
  -- From the empty queue, which the callers exclude, nothing is taken.
  take_front : List T → Queue T → Option T × Queue T
  take_front [] q = (none, q)
  take_front (x ∷ xs) q = (some x, record q { queue = xs })

  take_priority : Option (PriorityItem T × List (PriorityItem T)) → Queue T → Option T × Queue T
  take_priority none q = (none, q)
  take_priority (some (top, rest)) q = (some top.item, record q { priority_queue = rest })

  dequeue : Queue T → Option T × Queue T
  unfolding take_front take_priority
  dequeue q =
      if q.use_priority then take_priority (take_top q.priority_queue) q else take_front q.queue q

  abbrev pub leave_consumer : PopWait → Queue T → Queue T
  leave_consumer w q = if w.is_consumer_active then record q { consumer_active = false } else q

  -- `waitForNonEmpty` from the end of its wait, and the rest of `popImpl`.
  pub finish_pop : PopWait → Bool → Queue T → Option T × Queue T
  finish_pop w success q =
      let q' = leave_consumer w q in if empty q' || not success then (none, q') else dequeue q'

  returned_pop : Option T × Queue T → PopOutcome T
  returned_pop (x, q) = pop_returned x q

  -- `waitForNonEmpty`, up to its wait.
  wait_for_non_empty : ℤ → Queue T → PopOutcome T
  unfolding returned_pop
  wait_for_non_empty timeout q =
      let q' = if one_consumer q.mode then record q { consumer_active = true } else q in
      let w : PopWait = record {
        timed = is_timed timeout;
        is_consumer_active = one_consumer q.mode;
      } in
      if one_consumer q.mode && q.consumer_active
      then pop_thrown
      else if empty q' && not q'.closed
      then if is_zero timeout then returned_pop (finish_pop w false q') else pop_blocked w q'
      else returned_pop (finish_pop w true q')

  pub pop_impl : ℤ → Queue T → PopOutcome T
  unfolding wait_for_non_empty
  pop_impl timeout q =
      if q.closed && empty q then pop_returned none q else wait_for_non_empty timeout q

  -- A waiting consumer that has the mutex again.
  pub wake_pop : PopWait → Queue T → Option (Option T × Queue T)
  wake_pop w q =
      if not (empty q) || q.closed
      then some (finish_pop w true q)
      else if w.timed
      then some (finish_pop w false q)
      else none

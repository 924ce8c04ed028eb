-- ===== src/PcQueue/Waiting.antt =====
-- When calls on the queue of Project_work/include/queue.hpp return, and what `close` promises.
use cplus_plus_developer_pro.Prelude.{
  ◌≤◌, ◌≡◌, refl, ◌↔◌, Bool, true, false, not, ◌&&◌, Option, none, some, List, [], ◌∷◌,
  if◌then◌else◌, arith, ltb, leb, is_empty,
}
use cplus_plus_developer_pro.Prelude.Int.{ℤ}
use cplus_plus_developer_pro.PcQueue.{
  Queue, PriorityItem, PushWait, PopWait, push_returned, push_thrown, push_blocked, PushOutcome,
  PopOutcome, pop_returned, pop_thrown, pop_blocked, push_impl, wake_push, pop_impl, wake_pop,
  finish_pop, dequeue, take_front, take_priority, wait_for_non_empty, close, one_producer,
  one_consumer, empty, size, TakesTop, is_zero,
}

-- How a call ends: with success, without, by an exception, or not yet.
pub data Ends : Type 0 where
  done : Ends
  refused : Ends
  thrown : Ends
  blocked : Ends

module _ {ℓ} {T : Type ℓ} where
  abbrev pub pop_ends : PopOutcome T → Ends
  pop_ends (pop_returned none q) = refused
  pop_ends (pop_returned (some x) q) = done
  pop_ends pop_thrown = thrown
  pop_ends (pop_blocked w q) = blocked

  abbrev pub yields : Option T → Bool
  yields none = false
  yields (some x) = true

  -- Once the queue is closed a `push` returns false at once, and so does one that was waiting when
  -- it gets the mutex, timed or not; neither changes the items.
  push-closed :
      (x : T) (priority timeout : ℤ) (w : PushWait T) (q : Queue T)
      → q.closed ≡ true
      → (push_impl x priority timeout q ≡ push_returned false q)
        × ((q' : Queue T) × (wake_push w q ≡ some (false, q'))
            × (q'.queue ≡ q.queue)
            × (q'.priority_queue ≡ q.priority_queue)
            × (q'.closed ≡ true))
  unfolding push_impl wake_push
  push-closed x priority timeout w q c = (
    ground arith,
    (
      (if w.is_producer_active then record q { producer_active = false } else q),
      ground arith,
      ground arith,
      ground arith,
      ground arith,
    ),
  )

  abbrev pub push_ends : PushOutcome T → Ends
  push_ends (push_returned true q) = done
  push_ends (push_returned false q) = refused
  push_ends push_thrown = thrown
  push_ends (push_blocked w q) = blocked

  -- A `push` fails on a closed queue; on an open one it throws if another producer excludes it, and
  -- is accepted if the queue has no limit or is below it; when the queue is full it fails with a
  -- timeout of 0 and waits with any other. A `push` that waits goes on waiting exactly while it is
  -- untimed and the queue is full and open; otherwise it returns, with success exactly if the queue
  -- is open and below its limit.
  pub push-waits :
      (x : T) (priority timeout : ℤ) (w : PushWait T) (q : Queue T)
      → (push_ends (push_impl x priority timeout q) ≡ (
          if q.closed
          then refused
          else if one_producer q.mode && q.producer_active
          then thrown
          else if not (ltb 0 q.max_size && leb q.max_size (size q))
          then done
          else if is_zero timeout
          then refused
          else blocked))
        × ((wake_push w q ≡ none)
            ↔ ((w.timed ≡ false) × (q.max_size ≤ size q) × (q.closed ≡ false)))
        × ((b : Bool) (q' : Queue T)
            → wake_push w q ≡ some (b, q')
            → b ≡ (ltb (size q) q.max_size && not q.closed))
  unfolding push_impl wake_push
  push-waits x priority timeout w q =
      (ground arith, ((λ h. ground arith), (λ h. ground arith)), λ b q' h. ground arith)

module _ {ℓ} {T : Type ℓ}
    (take_top : List (PriorityItem T) → Option (PriorityItem T × List (PriorityItem T)))
    (laws : TakesTop take_top) where
  take_front-yields :
      (xs : List T) (q : Queue T) → yields (take_front take_top xs q).0 ≡ not (is_empty xs)
  unfolding take_front
  take_front-yields [] q = refl
  take_front-yields (x ∷ xs) q = refl

  take_priority-yields :
      (is : List (PriorityItem T)) (q : Queue T)
      → is_empty is ≡ false
      → yields (take_priority take_top (take_top is) q).0 ≡ true
  unfolding take_priority
  take_priority-yields [] q n = cc
  take_priority-yields (i ∷ is) q n =
      let (top, rest, taken, perm, greatest) = laws.takes i is in rw taken refl

  dequeue-yields : (q : Queue T) → empty q ≡ false → yields (dequeue take_top q).0 ≡ true
  unfolding dequeue
  dequeue-yields q n =
      ground (arith, take_front-yields q.queue q, take_priority-yields q.priority_queue q)

  finish_pop-yields :
      (w : PopWait) (ok : Bool) (q : Queue T)
      → yields (finish_pop take_top w ok q).0 ≡ (not (empty q) && ok)
  unfolding finish_pop
  finish_pop-yields w ok q =
      ground (arith, dequeue-yields q, dequeue-yields (record q { consumer_active = false }))

  pop_ends-yields :
      (o : Option T) (q : Queue T)
      → pop_ends (pop_returned o q) ≡ (if yields o then done else refused)
  pop_ends-yields none q = refl
  pop_ends-yields (some x) q = refl

  -- A `pop` returns nothing if the queue is closed and empty, and otherwise throws if another
  -- consumer excludes it. If not, it yields an item when the queue holds one, closed or not; on an
  -- empty queue it returns nothing with a timeout of 0, and waits with any other.
  pub pop-waits :
      (timeout : ℤ) (q : Queue T)
      → pop_ends (pop_impl take_top timeout q) ≡ (
          if q.closed && empty q
          then refused
          else if one_consumer q.mode && q.consumer_active
          then thrown
          else if not (empty q)
          then done
          else if is_zero timeout
          then refused
          else blocked)
  unfolding pop_impl wait_for_non_empty
  pop-waits timeout q = grind (arith, finish_pop-yields, pop_ends-yields)

  -- A `pop` that waits goes on waiting exactly while it is untimed and the queue is empty and open.
  -- After a `close` it returns, with an item exactly if the queue holds one.
  pop-wakes :
      (w : PopWait) (q : Queue T)
      → ((wake_pop take_top w q ≡ none)
          ↔ ((w.timed ≡ false) × (empty q ≡ true) × (q.closed ≡ false)))
        × ((r : Option T × Queue T)
            → wake_pop take_top w (close q) ≡ some r
            → yields r.0 ≡ not (empty q))
  unfolding wake_pop close
  pop-wakes w q = (
    (λ h. ground arith, λ h. ground arith),
    λ r h. ground (arith, finish_pop-yields w true (record q { closed = true })),
  )

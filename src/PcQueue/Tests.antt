-- ===== src/PcQueue/Tests.antt =====
-- The queue's theorems at concrete inputs, over a priority queue that selects by a scan.
use mathlib.Core.List.{Perm}
use mathlib.Core.List.Perm
use cplus_plus_developer_pro.Prelude.{
  Bool, not, ◌&&◌, some, ltb, ℕ, ◌≡◌, ◌≤◌, refl, ◌↔◌, true, false, Option, none, some, List, [],
  ◌∷◌, ◌++◌, if◌then◌else◌, arith, All, length, is_empty, Bool-cases, inl, inr,
}
use cplus_plus_developer_pro.Prelude.Int.{ltb_ℤ, pos, negsuc}
use cplus_plus_developer_pro.PcQueue.{
  Queue, QueueMode, PriorityItem, less, PushWait, pop_returned, new_queue, push_impl, pop_impl,
  wake_push, finish_pop, dequeue, size, TakesTop,
}
use cplus_plus_developer_pro.PcQueue.System.{
  System, push_returns, push_blocks, pop_returns, Reach, here, next, start, contents,
}
use cplus_plus_developer_pro.PcQueue.Fifo.{Reach-fifo}
use cplus_plus_developer_pro.PcQueue.Capacity.{Reach-bounded}
use cplus_plus_developer_pro.PcQueue.Exclusion.{Reach-one_producer}
use cplus_plus_developer_pro.PcQueue.Priority.{pop-greatest}
use cplus_plus_developer_pro.PcQueue.Waiting.{
  push-waits, pop-waits, pop_ends, push_ends, done, blocked,
}

module _ {ℓ} {T : Type ℓ} where
  -- The greatest item and the others.
  scan : PriorityItem T → List (PriorityItem T) → PriorityItem T × List (PriorityItem T)
  scan i [] = (i, [])
  scan i (j ∷ js) = let r = scan j js in if less i r.0 then (r.0, i ∷ r.1) else (i, r.0 ∷ r.1)

  select : List (PriorityItem T) → Option (PriorityItem T × List (PriorityItem T))
  unfolding scan
  select [] = none
  select (i ∷ is) = some (scan i is)

  abbrev Above : PriorityItem T → List (PriorityItem T) → Type 0
  Above top is = All (λ j. less top j ≡ false) is

  Above-trans :
      (i top : PriorityItem T) (is : List (PriorityItem T))
      → less i top ≡ false
      → Above top is
      → Above i is
  Above-trans i top [] e h = tt
  Above-trans i top (j ∷ js) e h = (ground arith, Above-trans i top js e h.1)

  scan-Perm :
      (i : PriorityItem T) (is : List (PriorityItem T))
      → Perm (i ∷ is) ((scan i is).0 ∷ (scan i is).1)
  unfolding scan
  scan-Perm i [] = Perm.refl (i ∷ [])
  scan-Perm i (j ∷ js) = elim (Bool-cases (less i (scan j js).0)) [
    | inl e ↦
        rw e (Perm.trans (Perm.cons i (scan-Perm j js)) (Perm.swap (scan j js).0 i (scan j js).1))
    | inr e ↦ rw e (Perm.cons i (scan-Perm j js))
  ]

  scan-Above : (i : PriorityItem T) (is : List (PriorityItem T)) → Above (scan i is).0 (scan i is).1
  unfolding scan
  scan-Above i [] = tt
  scan-Above i (j ∷ js) = elim (Bool-cases (less i (scan j js).0)) [
    | inl e ↦ rw e (ground arith, scan-Above j js)
    | inr e ↦ rw e (e, Above-trans i (scan j js).0 (scan j js).1 e (scan-Above j js))
  ]

  select-TakesTop : TakesTop select
  unfolding select
  select-TakesTop = record {
    takes = λ i is. ((scan i is).0, (scan i is).1, refl, scan-Perm i is, scan-Above i is);
  }

abbrev spsc : QueueMode
spsc = QueueMode.single_producer_single_consumer

-- One producer puts 7 into a queue of one place and waits with 8; then the 7 is taken.
abbrev plain : Queue ℕ
plain = record {
  use_priority = false;
  closed = false;
  producer_active = false;
  consumer_active = false;
  mode = spsc;
  max_size = 1;
  priority_queue = [];
  queue = [];
}

abbrev waiting : PushWait ℕ
waiting = record { item = 8; priority = pos 0; timed = false; is_producer_active = true }

abbrev after_push : System ℕ
after_push = record (start plain) { queue = record plain { queue = 7 ∷ [] }; accepted = 7 ∷ [] }

abbrev after_wait : System ℕ
after_wait = record after_push {
  queue = record plain { queue = 7 ∷ []; producer_active = true };
  producers = waiting ∷ [];
}

abbrev after_pop : System ℕ
after_pop = record after_wait { queue = record plain { producer_active = true }; gone = 7 ∷ [] }

reached : Reach select (start (new_queue false spsc 1)) after_pop
unfolding new_queue push_impl pop_impl finish_pop dequeue
reached =
    next {t = after_wait}
      (next {t = after_push}
        (next {t = start plain} here
          (push_returns 7 (pos 0) (negsuc 0) true (record plain { queue = 7 ∷ [] }) refl refl))
        (push_blocks 8 (pos 0) (negsuc 0) waiting after_wait.queue refl refl))
      (pop_returns (negsuc 0) (some 7) after_pop.queue refl refl)

Reach-fifo_example : after_pop.accepted ≡ after_pop.gone ++ contents after_pop.queue
Reach-fifo_example = Reach-fifo select spsc 1 reached

Reach-bounded_example : size after_pop.queue ≤ 1
Reach-bounded_example = Reach-bounded select select-TakesTop false spsc 1 (omega arith) reached

Reach-one_producer_example :
    (length after_pop.producers ≤ 1)
    × (after_pop.queue.producer_active ≡ not (is_empty after_pop.producers))
Reach-one_producer_example = Reach-one_producer select false spsc 1 refl reached

abbrev urgent : Queue ℕ
urgent = record plain {
  use_priority = true;
  priority_queue =
      record { item = 1; priority = pos 2 }
      ∷ record { item = 2; priority = pos 5 }
      ∷ record { item = 3; priority = negsuc 0 }
      ∷ [];
}

pop-greatest_example :
    (top : PriorityItem ℕ) × (q' : Queue ℕ) × (pop_impl select (pos 0) urgent
      ≡ pop_returned (some top.item) q')
    × Perm urgent.priority_queue (top ∷ q'.priority_queue)
    × All (λ j. ltb_ℤ top.priority j.priority ≡ false) q'.priority_queue
pop-greatest_example = pop-greatest select select-TakesTop (pos 0) urgent refl refl refl

abbrev shut : Queue ℕ
shut = record plain { closed = true; queue = 7 ∷ [] }

push-waits_example :
    (push_ends (push_impl 8 (pos 0) (negsuc 0) after_push.queue) ≡ blocked)
    × ((wake_push waiting after_push.queue ≡ none) ↔ (
        (waiting.timed ≡ false) × (1 ≤ size after_push.queue) × (after_push.queue.closed ≡ false)))
    × ((b : Bool) (q' : Queue ℕ)
        → wake_push waiting after_push.queue ≡ some (b, q')
        → b ≡ (ltb (size after_push.queue) 1 && not after_push.queue.closed))
push-waits_example = push-waits 8 (pos 0) (negsuc 0) waiting after_push.queue

pop-waits_example : pop_ends (pop_impl select (negsuc 0) shut) ≡ done
pop-waits_example = pop-waits select select-TakesTop (negsuc 0) shut

-- ===== src/PcQueue/Priority.antt =====
-- With priorities, what `pop` of Project_work/include/queue.hpp takes and leaves.
use mathlib.Core.List.{Perm}
use mathlib.Core.Path.{subst, subst₂}
use cplus_plus_developer_pro.Prelude.{
  ◌≡◌, refl, sym, true, false, ◌&&◌, Option, some, List, [], ◌∷◌, if◌then◌else◌, arith, is_empty,
  All,
}
use cplus_plus_developer_pro.Prelude.Int.{ℤ, ltb_ℤ}
use cplus_plus_developer_pro.PcQueue.{
  Queue, PriorityItem, pop_returned, pop_impl, finish_pop, dequeue, TakesTop, empty, one_consumer,
}

module _ {ℓ} {T : Type ℓ}
    (take_top : List (PriorityItem T) → Option (PriorityItem T × List (PriorityItem T)))
    (laws : TakesTop take_top) where
  pop_top :
      (timeout : ℤ) (q : Queue T) (is rest : List (PriorityItem T)) (top : PriorityItem T)
      → q.use_priority ≡ true
      → (one_consumer q.mode && q.consumer_active) ≡ false
      → q.priority_queue ≡ is
      → is_empty is ≡ false
      → take_top is ≡ some (top, rest)
      → (q' : Queue T) × (pop_impl take_top timeout q ≡ pop_returned (some top.item) q')
        × (q'.priority_queue ≡ rest)
        × (q'.queue ≡ q.queue)
        × (q'.closed ≡ q.closed)
  unfolding pop_impl finish_pop dequeue
  pop_top timeout q is rest top p m e n t = (
    record q {
      consumer_active = if one_consumer q.mode then false else q.consumer_active;
      priority_queue = rest;
    },
    ground arith,
    refl,
    refl,
    refl,
  )

  -- With priorities a `pop` that no other consumer excludes takes from a queue that is not empty an
  -- item to which no other is superior: none of those left has a greater priority number, and
  -- together with the item taken they are those that were there.
  pub pop-greatest :
      (timeout : ℤ) (q : Queue T)
      → q.use_priority ≡ true
      → (one_consumer q.mode && q.consumer_active) ≡ false
      → empty q ≡ false
      → (top : PriorityItem T) × (q' : Queue T) × (pop_impl take_top timeout q
          ≡ pop_returned (some top.item) q')
        × Perm q.priority_queue (top ∷ q'.priority_queue)
        × All (λ j. ltb_ℤ top.priority j.priority ≡ false) q'.priority_queue
  pop-greatest timeout q p m n = nonempty q.priority_queue refl (ground arith)
    where
      nonempty :
          (is : List (PriorityItem T))
          → q.priority_queue ≡ is
          → is_empty is ≡ false
          → (top : PriorityItem T) × (q' : Queue T) × (pop_impl take_top timeout q
              ≡ pop_returned (some top.item) q')
            × Perm q.priority_queue (top ∷ q'.priority_queue)
            × All (λ j. ltb_ℤ top.priority j.priority ≡ false) q'.priority_queue
      nonempty [] e f = cc
      nonempty (i ∷ is) e f =
          let (top, rest, taken, perm, greatest) = laws.takes i is in
          let (q', popped, left, same, closed) =
            pop_top timeout q (i ∷ is) rest top p m e f taken in
          (
            top,
            q',
            popped,
            subst₂ (λ a b. Perm a (top ∷ b)) (sym e) (sym left) perm,
            subst (λ b. All (λ j. ltb_ℤ top.priority j.priority ≡ false) b) (sym left) greatest,
          )

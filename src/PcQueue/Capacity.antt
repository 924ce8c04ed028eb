-- ===== src/PcQueue/Capacity.antt =====
-- The limit of the queue of Project_work/include/queue.hpp over all runs.
use mathlib.Core.List
use mathlib.Core.List.{Perm}
use mathlib.Core.List.Perm
use native.Mathlib.Bridge.{from_ℕ}
use cplus_plus_developer_pro.Prelude.{
  ℕ, suc, ◌≤◌, ◌<◌, ◌≡◌, refl, sym, ap, ◌∙◌, Bool, true, false, Bool-cases, inl, inr, Option, some,
  List, [], ◌∷◌, arith, length, length-snoc, is_empty,
}
use cplus_plus_developer_pro.Prelude.Int.{ℤ}
use cplus_plus_developer_pro.PcQueue.{
  Queue, QueueMode, PriorityItem, PushWait, PopWait, push_returned, push_blocked, pop_returned,
  pop_blocked, new_queue, push_impl, wake_push, pop_impl, wake_pop, finish_pop, dequeue,
  wait_for_non_empty, close, clear, size, empty, TakesTop,
}
use cplus_plus_developer_pro.PcQueue.System.{
  System, start, Step, push_returns, push_throws, push_blocks, push_wakes, pop_returns, pop_throws,
  pop_blocks, pop_wakes, closes, clears, Reach, Reach-keeps,
}

module _ {ℓ} {A : Type ℓ} where
  from_ℕ-length : (xs : List A) → from_ℕ (List.length xs) ≡ length xs
  from_ℕ-length [] = refl
  from_ℕ-length (x ∷ xs) = ap suc (from_ℕ-length xs)

  length-perm : (xs ys : List A) → Perm xs ys → length xs ≡ length ys
  length-perm xs ys h = sym (from_ℕ-length xs) ∙ ap from_ℕ (Perm.length-eq h) ∙ from_ℕ-length ys

module _ {ℓ} {T : Type ℓ} where
  abbrev Fits : Queue T → Type 0
  Fits q = 0 < q.max_size → size q ≤ q.max_size

  push_returned-Fits :
      (x : T) (priority timeout : ℤ) (q q' : Queue T) (b : Bool)
      → push_impl x priority timeout q ≡ push_returned b q'
      → Fits q
      → Fits q' × (q'.max_size ≡ q.max_size)
  unfolding push_impl
  push_returned-Fits x priority timeout q q' b e h = ground (arith, length-snoc q.queue x)

  push_blocked-Fits :
      (x : T) (priority timeout : ℤ) (q q' : Queue T) (w : PushWait T)
      → push_impl x priority timeout q ≡ push_blocked w q'
      → Fits q
      → Fits q' × (q'.max_size ≡ q.max_size)
  unfolding push_impl
  push_blocked-Fits x priority timeout q q' w e h = ground arith

  wake_push-Fits :
      (w : PushWait T) (q q' : Queue T) (b : Bool)
      → wake_push w q ≡ some (b, q')
      → Fits q
      → Fits q' × (q'.max_size ≡ q.max_size)
  unfolding wake_push
  wake_push-Fits w q q' b e h = ground (arith, length-snoc q.queue w.item)

  module _ (take_top : List (PriorityItem T) → Option (PriorityItem T × List (PriorityItem T)))
      (h : TakesTop take_top) where
    -- A queue from which an item may have been taken.
    abbrev Shrinks : Queue T → Queue T → Type 0
    Shrinks q q' = (size q' ≤ size q) × (q'.max_size ≡ q.max_size)

    dequeue_plain-Shrinks :
        (q : Queue T) (queued : List T)
        → q.use_priority ≡ false
        → q.queue ≡ queued
        → Shrinks q (dequeue take_top q).1
    unfolding dequeue
    dequeue_plain-Shrinks q [] p e = ground arith
    dequeue_plain-Shrinks q (x ∷ xs) p e = ground arith

    dequeue_priority-Shrinks :
        (q : Queue T) (queued : List (PriorityItem T))
        → q.use_priority ≡ true
        → q.priority_queue ≡ queued
        → is_empty queued ≡ false
        → Shrinks q (dequeue take_top q).1
    unfolding dequeue
    dequeue_priority-Shrinks q [] p e n = cc
    dequeue_priority-Shrinks q (i ∷ is) p e n =
        let (top, rest, taken, perm, greatest) = h.takes i is in
        ground (arith, taken, length-perm (i ∷ is) (top ∷ rest) perm)

    dequeue-Shrinks : (q : Queue T) → empty q ≡ false → Shrinks q (dequeue take_top q).1
    dequeue-Shrinks q n = elim (Bool-cases q.use_priority) [
      | inl p ↦ dequeue_priority-Shrinks q q.priority_queue p refl (ground arith)
      | inr p ↦ dequeue_plain-Shrinks q q.queue p refl
    ]

    finish_pop-Shrinks :
        (w : PopWait) (ok : Bool) (q : Queue T) → Shrinks q (finish_pop take_top w ok q).1
    unfolding finish_pop
    finish_pop-Shrinks w ok q =
        ground (arith, dequeue-Shrinks q, dequeue-Shrinks (record q { consumer_active = false }))

    pop_returned-Shrinks :
        (timeout : ℤ) (q q' : Queue T) (x : Option T)
        → pop_impl take_top timeout q ≡ pop_returned x q'
        → Shrinks q q'
    unfolding pop_impl wait_for_non_empty
    pop_returned-Shrinks timeout q q' x e = grind (arith, finish_pop-Shrinks)

    wake_pop-Shrinks :
        (w : PopWait) (q q' : Queue T) (x : Option T)
        → wake_pop take_top w q ≡ some (x, q')
        → Shrinks q q'
    unfolding wake_pop
    wake_pop-Shrinks w q q' x e =
        ground (arith, finish_pop-Shrinks w true q, finish_pop-Shrinks w false q)

    pop_blocked-Shrinks :
        (timeout : ℤ) (q q' : Queue T) (w : PopWait)
        → pop_impl take_top timeout q ≡ pop_blocked w q'
        → Shrinks q q'
    unfolding pop_impl
    pop_blocked-Shrinks timeout q q' w e = ground arith

    clear-Shrinks : (q : Queue T) → Shrinks q (clear q)
    unfolding clear
    clear-Shrinks q = ground arith

    abbrev Bounded : ℕ → System T → Type 0
    Bounded max_size s = Fits s.queue × (s.queue.max_size ≡ max_size)

    Step-Bounded :
        (max_size : ℕ) (s t : System T)
        → Step take_top s t
        → Bounded max_size s
        → Bounded max_size t
    unfolding close
    Step-Bounded n s t (push_returns x p o b q e r) f =
        rw r (ground (arith, push_returned-Fits x p o s.queue q b e f.0))
    Step-Bounded n s t (push_throws x p o e r) f = rw r f
    Step-Bounded n s t (push_blocks x p o w q e r) f =
        rw r (ground (arith, push_blocked-Fits x p o s.queue q w e f.0))
    Step-Bounded n s t (push_wakes ws vs w b q e k r) f =
        rw r (ground (arith, wake_push-Fits w s.queue q b k f.0))
    Step-Bounded n s t (pop_returns o x q e r) f =
        rw r (ground (arith, pop_returned-Shrinks o s.queue q x e))
    Step-Bounded n s t (pop_throws o e r) f = rw r f
    Step-Bounded n s t (pop_blocks o w q e r) f =
        rw r (ground (arith, pop_blocked-Shrinks o s.queue q w e))
    Step-Bounded n s t (pop_wakes ws vs w x q e k r) f =
        rw r (ground (arith, wake_pop-Shrinks w s.queue q x k))
    Step-Bounded n s t (closes r) f = rw r f
    Step-Bounded n s t (clears r) f = rw r (ground (arith, clear-Shrinks s.queue))

    -- A queue with a limit never holds more items than that, whatever threads do with it, in each
    -- mode and with priorities or without.
    pub Reach-bounded :
        {s : System T} (use_priority : Bool) (mode : QueueMode) (max_size : ℕ)
        → 0 < max_size
        → Reach take_top (start (new_queue use_priority mode max_size)) s
        → size s.queue ≤ max_size
    unfolding new_queue
    Reach-bounded {s} use_priority mode max_size positive r = ground (arith, held)
      where
        held : Bounded max_size s
        held =
            Reach-keeps take_top (Bounded max_size) (Step-Bounded max_size) r (ground arith, refl)

-- ===== src/PcQueue/Fifo.antt =====
-- The order of the queue of Project_work/include/queue.hpp without priorities, over all runs.
use cplus_plus_developer_pro.Prelude.{
  ℕ, ◌≡◌, refl, sym, ap, ◌∙◌, Bool, true, false, Option, none, some, List, [], ◌∷◌, ◌++◌,
  append-nil, append_assoc, arith,
}
use cplus_plus_developer_pro.Prelude.Int.{ℤ}
use cplus_plus_developer_pro.PcQueue.{
  Queue, QueueMode, PriorityItem, PushWait, PopWait, push_returned, push_blocked, pop_returned,
  pop_blocked, new_queue, push_impl, wake_push, pop_impl, wake_pop, finish_push, finish_pop,
  dequeue, close, clear,
}
use cplus_plus_developer_pro.PcQueue.System.{
  System, start, contents, accept, leave, Step, push_returns, push_throws, push_blocks, push_wakes,
  pop_returns, pop_throws, pop_blocks, pop_wakes, closes, clears, Reach, Reach-keeps,
}

module _ {ℓ} {T : Type ℓ} where
  -- What is in a plain queue after items have gone in at the end of it and out of its front.
  abbrev Moves : Queue T → Queue T → List T → List T → Type ℓ
  Moves q q' ins outs =
      (q'.use_priority ≡ q.use_priority)
      × (q.use_priority ≡ false → q.queue ++ ins ≡ outs ++ q'.queue)

  finish_push-Moves :
      (w : PushWait T) (ok : Bool) (q : Queue T)
      → Moves q (finish_push w ok q).1 (accept (finish_push w ok q).0 w.item []) []
  unfolding finish_push
  finish_push-Moves w ok q = ground (arith, append-nil q.queue)

  push_returned-Moves :
      (x : T) (priority timeout : ℤ) (q q' : Queue T) (b : Bool)
      → push_impl x priority timeout q ≡ push_returned b q'
      → Moves q q' (accept b x []) []
  unfolding push_impl
  push_returned-Moves x priority timeout q q' b e = ground (arith, append-nil q.queue)

  push_blocked-Moves :
      (x : T) (priority timeout : ℤ) (q q' : Queue T) (w : PushWait T)
      → push_impl x priority timeout q ≡ push_blocked w q'
      → Moves q q' [] []
  unfolding push_impl
  push_blocked-Moves x priority timeout q q' w e = ground (arith, append-nil q.queue)

  wake_push-Moves :
      (w : PushWait T) (q q' : Queue T) (b : Bool)
      → wake_push w q ≡ some (b, q')
      → Moves q q' (accept b w.item []) []
  unfolding wake_push
  wake_push-Moves w q q' b e = ground (arith, append-nil q.queue)

  module _
      (take_top : List (PriorityItem T) → Option (PriorityItem T × List (PriorityItem T))) where
    finish_pop-Moves :
        (w : PopWait) (ok : Bool) (q : Queue T) (queued : List T)
        → q.queue ≡ queued
        → Moves q (finish_pop take_top w ok q).1 [] (leave (finish_pop take_top w ok q).0 [])
    unfolding finish_pop dequeue
    finish_pop-Moves w ok q [] e = ground (arith, append-nil q.queue)
    finish_pop-Moves w ok q (x ∷ xs) e = ground (arith, append-nil q.queue)

    pop_returned-Moves :
        (timeout : ℤ) (q q' : Queue T) (x : Option T)
        → pop_impl take_top timeout q ≡ pop_returned x q'
        → Moves q q' [] (leave x [])
    unfolding pop_impl finish_pop dequeue
    pop_returned-Moves timeout q q' x e = returned q.queue refl
      where
        returned : (queued : List T) → q.queue ≡ queued → Moves q q' [] (leave x [])
        returned [] f = ground (arith, append-nil q.queue)
        returned (y ∷ ys) f = ground (arith, append-nil q.queue)

    pop_blocked-Moves :
        (timeout : ℤ) (q q' : Queue T) (w : PopWait)
        → pop_impl take_top timeout q ≡ pop_blocked w q'
        → Moves q q' [] []
    unfolding pop_impl finish_pop dequeue
    pop_blocked-Moves timeout q q' w e = ground (arith, append-nil q.queue)

    wake_pop-Moves :
        (w : PopWait) (q q' : Queue T) (x : Option T)
        → wake_pop take_top w q ≡ some (x, q')
        → Moves q q' [] (leave x [])
    unfolding wake_pop finish_pop dequeue
    wake_pop-Moves w q q' x e = woken q.queue refl
      where
        woken : (queued : List T) → q.queue ≡ queued → Moves q q' [] (leave x [])
        woken [] f = ground (arith, append-nil q.queue)
        woken (y ∷ ys) f = ground (arith, append-nil q.queue)

  -- A queue without priorities holds what was accepted and has not left, in that order.
  abbrev IsFifo : System T → Type ℓ
  IsFifo s = (s.queue.use_priority ≡ false) × (s.accepted ≡ s.gone ++ s.queue.queue)

  accept-append : (b : Bool) (x : T) (xs : List T) → accept b x xs ≡ xs ++ accept b x []
  accept-append true x xs = refl
  accept-append false x xs = sym (append-nil xs)

  leave-append : (o : Option T) (xs : List T) → leave o xs ≡ xs ++ leave o []
  leave-append none xs = sym (append-nil xs)
  leave-append (some x) xs = refl

  Moves-IsFifo :
      (s t : System T) (ins outs : List T)
      → IsFifo s
      → Moves s.queue t.queue ins outs
      → t.accepted ≡ s.accepted ++ ins
      → t.gone ≡ s.gone ++ outs
      → IsFifo t
  Moves-IsFifo s t ins outs f m a g = (
    m.0 ∙ f.0,
    rw (a, f.1, g, append_assoc)
        (ap (λ r. s.gone ++ r) (m.1 f.0) ∙ sym (append_assoc s.gone outs t.queue.queue)),
  )

  clear-IsFifo :
      (s : System T)
      → IsFifo s
      → IsFifo (record s { queue = clear s.queue; gone = s.gone ++ contents s.queue })
  unfolding clear
  clear-IsFifo s f = ground (arith, append-nil (s.gone ++ s.queue.queue))

  module _
      (take_top : List (PriorityItem T) → Option (PriorityItem T × List (PriorityItem T))) where
    Step-IsFifo : {s t : System T} → Step take_top s t → IsFifo s → IsFifo t
    unfolding close
    Step-IsFifo {s} (push_returns x p o b q e r) f = rw r (
        Moves-IsFifo s (record s { queue = q; accepted = accept b x s.accepted }) _ [] f
          (push_returned-Moves x p o s.queue q b e) (accept-append b x s.accepted)
          (sym (append-nil s.gone)))
    Step-IsFifo (push_throws x p o e r) f = rw r f
    Step-IsFifo {s} (push_blocks x p o w q e r) f = rw r (
        Moves-IsFifo s (record s { queue = q; producers = w ∷ s.producers }) [] [] f
          (push_blocked-Moves x p o s.queue q w e) (sym (append-nil s.accepted))
          (sym (append-nil s.gone)))
    Step-IsFifo {s} (push_wakes ws vs w b q e k r) f = rw r (
        Moves-IsFifo s
          (record s { queue = q; producers = ws ++ vs; accepted = accept b w.item s.accepted }) _ []
          f (wake_push-Moves w s.queue q b k) (accept-append b w.item s.accepted)
          (sym (append-nil s.gone)))
    Step-IsFifo {s} (pop_returns o x q e r) f = rw r (
        Moves-IsFifo s (record s { queue = q; gone = leave x s.gone }) [] _ f
          (pop_returned-Moves take_top o s.queue q x e) (sym (append-nil s.accepted))
          (leave-append x s.gone))
    Step-IsFifo (pop_throws o e r) f = rw r f
    Step-IsFifo {s} (pop_blocks o w q e r) f = rw r (
        Moves-IsFifo s (record s { queue = q; consumers = w ∷ s.consumers }) [] [] f
          (pop_blocked-Moves take_top o s.queue q w e) (sym (append-nil s.accepted))
          (sym (append-nil s.gone)))
    Step-IsFifo {s} (pop_wakes ws vs w x q e k r) f = rw r (
        Moves-IsFifo s (record s { queue = q; consumers = ws ++ vs; gone = leave x s.gone }) [] _ f
          (wake_pop-Moves take_top w s.queue q x k) (sym (append-nil s.accepted))
          (leave-append x s.gone))
    Step-IsFifo (closes r) f = rw r f
    Step-IsFifo {s} (clears r) f = rw r (clear-IsFifo s f)

    -- Whatever threads do with a queue without priorities, in whatever order: the items whose
    -- `push` returned true are those that have left followed by those in the queue, in the order
    -- of acceptance. So the queue is first in, first out, and no item is lost or comes twice.
    pub Reach-fifo :
        {s : System T} (mode : QueueMode) (max_size : ℕ)
        → Reach take_top (start (new_queue false mode max_size)) s
        → s.accepted ≡ s.gone ++ contents s.queue
    unfolding new_queue
    Reach-fifo {s} mode max_size r = rw (held.0) held.1
      where
        held : IsFifo s
        held = Reach-keeps take_top IsFifo (λ u v. Step-IsFifo {s = u} {t = v}) r (refl, refl)

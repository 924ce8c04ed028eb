-- ===== src/PcQueue/Exclusion.antt =====
-- The modes with a single producer of Project_work/include/queue.hpp: who waits, and the active flag.
use cplus_plus_developer_pro.Prelude.{
  ℕ, ◌≤◌, ◌≡◌, refl, ap, ◌∙◌, Bool, true, false, not, Option, none, some, List, [], ◌∷◌, ◌++◌,
  if◌then◌else◌, arith, length, is_empty,
}
use cplus_plus_developer_pro.Prelude.Int.{ℤ}
use cplus_plus_developer_pro.PcQueue.{
  Queue, QueueMode, PriorityItem, PushWait, PopWait, push_returned, push_blocked, pop_returned,
  pop_blocked, new_queue, push_impl, wake_push, pop_impl, wake_pop, finish_pop, dequeue, take_front,
  take_priority, wait_for_non_empty, close, clear, one_producer, one_consumer,
}
use cplus_plus_developer_pro.PcQueue.System.{
  System, start, Step, push_returns, push_throws, push_blocks, push_wakes, pop_returns, pop_throws,
  pop_blocks, pop_wakes, closes, clears, Reach, Reach-keeps,
}

-- At most one call waits, it has set the flag, and the flag is set only by it.
abbrev Exclusive {ℓ} : {W : Type ℓ} → (W → Bool) → Bool → List W → Type 0
Exclusive active flag [] = flag ≡ false
Exclusive active flag (w ∷ []) = (flag ≡ true) × (active w ≡ true)
Exclusive active flag (w ∷ v ∷ vs) = ⊥

module _ {ℓ} {W : Type ℓ} (active : W → Bool) where
  Exclusive-wake :
      (flag : Bool) (ws vs : List W) (w : W)
      → Exclusive active flag (ws ++ w ∷ vs)
      → (active w ≡ true) × (ws ++ vs ≡ [])
  Exclusive-wake flag [] [] w h = (h.1, refl)
  Exclusive-wake flag [] (v ∷ vs) w h = absurd h
  Exclusive-wake flag (u ∷ []) vs w h = absurd h
  Exclusive-wake flag (u ∷ v ∷ ws) vs w h = absurd h

  Exclusive-block :
      (flag flag' : Bool) (ws : List W) (w : W)
      → flag ≡ false
      → flag' ≡ true
      → active w ≡ true
      → Exclusive active flag ws
      → Exclusive active flag' (w ∷ ws)
  Exclusive-block flag flag' [] w f f' a h = (f', a)
  Exclusive-block flag flag' (v ∷ []) w f f' a h = cc
  Exclusive-block flag flag' (v ∷ u ∷ ws) w f f' a h = absurd h

  Exclusive-length :
      (flag : Bool) (ws : List W)
      → Exclusive active flag ws
      → (length ws ≤ 1) × (flag ≡ not (is_empty ws))
  Exclusive-length flag [] h = (omega arith, h)
  Exclusive-length flag (w ∷ []) h = (omega arith, h.0)
  Exclusive-length flag (w ∷ v ∷ ws) h = absurd h

module _ {ℓ} {T : Type ℓ} where
  abbrev SameMode : Queue T → Queue T → Type 0
  SameMode q q' = q'.mode ≡ q.mode

  push_returned-flag :
      (x : T) (priority timeout : ℤ) (q q' : Queue T) (b : Bool)
      → push_impl x priority timeout q ≡ push_returned b q'
      → SameMode q q'
        × (q'.producer_active ≡ q.producer_active)
        × (q'.consumer_active ≡ q.consumer_active)
  unfolding push_impl
  push_returned-flag x priority timeout q q' b e = ground arith

  push_blocked-flag :
      (x : T) (priority timeout : ℤ) (q q' : Queue T) (w : PushWait T)
      → push_impl x priority timeout q ≡ push_blocked w q'
      → SameMode q q'
        × (q'.consumer_active ≡ q.consumer_active)
        × (one_producer q.mode ≡ true
            → (q.producer_active ≡ false)
              × (q'.producer_active ≡ true)
              × (w.is_producer_active ≡ true))
  unfolding push_impl
  push_blocked-flag x priority timeout q q' w e = ground arith

  wake_push-flag :
      (w : PushWait T) (q q' : Queue T) (b : Bool)
      → wake_push w q ≡ some (b, q')
      → SameMode q q'
        × (q'.consumer_active ≡ q.consumer_active)
        × (w.is_producer_active ≡ true → q'.producer_active ≡ false)
  unfolding wake_push
  wake_push-flag w q q' b e = ground arith

  module _
      (take_top : List (PriorityItem T) → Option (PriorityItem T × List (PriorityItem T))) where
    abbrev SameFlags : Queue T → Queue T → Type 0
    SameFlags q q' =
        SameMode q q'
        × (q'.producer_active ≡ q.producer_active)
        × (q'.consumer_active ≡ q.consumer_active)

    take_front-flag : (xs : List T) (q : Queue T) → SameFlags q (take_front take_top xs q).1
    unfolding take_front
    take_front-flag [] q = (refl, refl, refl)
    take_front-flag (x ∷ xs) q = (refl, refl, refl)

    take_priority-flag :
        (o : Option (PriorityItem T × List (PriorityItem T))) (q : Queue T)
        → SameFlags q (take_priority take_top o q).1
    unfolding take_priority
    take_priority-flag none q = (refl, refl, refl)
    take_priority-flag (some (top, rest)) q = (refl, refl, refl)

    dequeue-flag : (q : Queue T) → SameFlags q (dequeue take_top q).1
    unfolding dequeue
    dequeue-flag q =
        ground (arith, take_front-flag q.queue q, take_priority-flag (take_top q.priority_queue) q)

    finish_pop-flag :
        (w : PopWait) (ok : Bool) (q : Queue T)
        → SameMode q (finish_pop take_top w ok q).1
          × ((finish_pop take_top w ok q).1.producer_active ≡ q.producer_active)
          × ((finish_pop take_top w ok q).1.consumer_active
              ≡ (if w.is_consumer_active then false else q.consumer_active))
    unfolding finish_pop
    finish_pop-flag w ok q =
        ground (arith, dequeue-flag q, dequeue-flag (record q { consumer_active = false }))

    pop_returned-flag :
        (timeout : ℤ) (q q' : Queue T) (x : Option T)
        → pop_impl take_top timeout q ≡ pop_returned x q'
        → SameFlags q q'
    unfolding pop_impl wait_for_non_empty
    pop_returned-flag timeout q q' x e = grind (arith, finish_pop-flag)

    pop_blocked-flag :
        (timeout : ℤ) (q q' : Queue T) (w : PopWait)
        → pop_impl take_top timeout q ≡ pop_blocked w q'
        → SameMode q q'
          × (q'.producer_active ≡ q.producer_active)
          × (one_consumer q.mode ≡ true
              → (q.consumer_active ≡ false)
                × (q'.consumer_active ≡ true)
                × (w.is_consumer_active ≡ true))
    unfolding pop_impl
    pop_blocked-flag timeout q q' w e = ground arith

    wake_pop-flag :
        (w : PopWait) (q q' : Queue T) (x : Option T)
        → wake_pop take_top w q ≡ some (x, q')
        → SameMode q q'
          × (q'.producer_active ≡ q.producer_active)
          × (w.is_consumer_active ≡ true → q'.consumer_active ≡ false)
    unfolding wake_pop
    wake_pop-flag w q q' x e = ground (arith, finish_pop-flag w true q, finish_pop-flag w false q)

    clear-flag : (q : Queue T) → SameFlags q (clear q)
    unfolding clear
    clear-flag q = ground arith

    abbrev OneProducer : QueueMode → System T → Type 0
    OneProducer mode s =
        (s.queue.mode ≡ mode)
        × Exclusive (λ w. w.is_producer_active) s.queue.producer_active s.producers

    Step-OneProducer :
        (mode : QueueMode)
        → one_producer mode ≡ true
        → (s t : System T) → Step take_top s t
        → OneProducer mode s
        → OneProducer mode t
    unfolding close
    Step-OneProducer m o s t (push_returns x p d b q e r) f =
        let g = push_returned-flag x p d s.queue q b e in rw (r, g.1) (g.0 ∙ f.0, f.1)
    Step-OneProducer m o s t (push_throws x p d e r) f = rw r f
    Step-OneProducer m o s t (push_blocks x p d w q e r) f =
        let g = push_blocked-flag x p d s.queue q w e in
        let flags = g.2 (ap one_producer f.0 ∙ o) in
        rw r (
          g.0 ∙ f.0,
          Exclusive-block _ s.queue.producer_active q.producer_active s.producers w flags.0 flags.1
              flags.2 f.1,
        )
    Step-OneProducer m o s t (push_wakes ws vs w b q e k r) f =
        let g = wake_push-flag w s.queue q b k in
        let alone =
          Exclusive-wake (λ (v : PushWait T). v.is_producer_active) s.queue.producer_active ws vs w
            (rw (← e) f.1) in
        rw (r, alone.1) (g.0 ∙ f.0, g.2 alone.0)
    Step-OneProducer m o s t (pop_returns d x q e r) f =
        let g = pop_returned-flag d s.queue q x e in rw (r, g.1) (g.0 ∙ f.0, f.1)
    Step-OneProducer m o s t (pop_throws d e r) f = rw r f
    Step-OneProducer m o s t (pop_blocks d w q e r) f =
        let g = pop_blocked-flag d s.queue q w e in rw (r, g.1) (g.0 ∙ f.0, f.1)
    Step-OneProducer m o s t (pop_wakes ws vs w x q e k r) f =
        let g = wake_pop-flag w s.queue q x k in rw (r, g.1) (g.0 ∙ f.0, f.1)
    Step-OneProducer m o s t (closes r) f = rw r f
    Step-OneProducer m o s t (clears r) f =
        let g = clear-flag s.queue in rw (r, g.1) (g.0 ∙ f.0, f.1)

    -- In a mode with a single producer at most one `push` waits at a time, and the flag that makes
    -- a second producer throw is set exactly while one waits: no return, timeout, `close` or
    -- `clear` leaves it set.
    pub Reach-one_producer :
        {s : System T} (use_priority : Bool) (mode : QueueMode) (max_size : ℕ)
        → one_producer mode ≡ true
        → Reach take_top (start (new_queue use_priority mode max_size)) s
        → (length s.producers ≤ 1) × (s.queue.producer_active ≡ not (is_empty s.producers))
    unfolding new_queue
    Reach-one_producer {s} use_priority mode max_size o r =
        Exclusive-length _ s.queue.producer_active s.producers
          (Reach-keeps take_top (OneProducer mode) (Step-OneProducer mode o) r (refl, refl)).1

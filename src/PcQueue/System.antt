-- ===== src/PcQueue/System.antt =====
-- Threads that share one queue of Project_work/include/queue.hpp: every interleaving of their
-- calls, and of the wake-ups of those that wait, is a sequence of steps.
use cplus_plus_developer_pro.Prelude.{
  ◌≡◌, Bool, true, false, Option, none, some, List, [], ◌∷◌, ◌++◌, map, snoc, if◌then◌else◌,
}
use cplus_plus_developer_pro.Prelude.Int.{ℤ}
use cplus_plus_developer_pro.PcQueue.{
  Queue, PriorityItem, PushWait, PopWait, push_returned, push_thrown, push_blocked, pop_returned,
  pop_thrown, pop_blocked, push_impl, wake_push, pop_impl, wake_pop, close, clear,
}

-- The queue, the calls that wait, and the history: the items whose `push` has returned true, and
-- those that have left by a `pop` or a `clear`, both in the order in which that happened.
pub record System {ℓ} (T : Type ℓ) : Type ℓ where
  pub queue : Queue T
  pub producers : List (PushWait T)
  pub consumers : List PopWait
  pub accepted : List T
  pub gone : List T

module _ {ℓ} {T : Type ℓ} where
  abbrev pub start : Queue T → System T
  start q = record { queue = q; producers = []; consumers = []; accepted = []; gone = [] }

  -- The items that the queue holds.
  abbrev pub contents : Queue T → List T
  contents q = if q.use_priority then map (λ i. i.item) q.priority_queue else q.queue

  abbrev pub accept : Bool → T → List T → List T
  accept true x xs = snoc xs x
  accept false x xs = xs

  abbrev pub leave : Option T → List T → List T
  leave none xs = xs
  leave (some x) xs = snoc xs x

module _ {ℓ} {T : Type ℓ}
    (take_top : List (PriorityItem T) → Option (PriorityItem T × List (PriorityItem T))) where
  pub data Step (s t : System T) : Type ℓ where
    push_returns :
        (x : T) (priority timeout : ℤ) (b : Bool) (q : Queue T)
        → push_impl x priority timeout s.queue ≡ push_returned b q
        → t ≡ record s { queue = q; accepted = accept b x s.accepted }
        → Step s t
    push_throws :
        (x : T) (priority timeout : ℤ)
        → push_impl x priority timeout s.queue ≡ push_thrown
        → t ≡ s
        → Step s t
    push_blocks :
        (x : T) (priority timeout : ℤ) (w : PushWait T) (q : Queue T)
        → push_impl x priority timeout s.queue ≡ push_blocked w q
        → t ≡ record s { queue = q; producers = w ∷ s.producers }
        → Step s t
    push_wakes :
        (ws vs : List (PushWait T)) (w : PushWait T) (b : Bool) (q : Queue T)
        → s.producers ≡ ws ++ w ∷ vs
        → wake_push w s.queue ≡ some (b, q)
        → t ≡ record s { queue = q; producers = ws ++ vs; accepted = accept b w.item s.accepted }
        → Step s t
    pop_returns :
        (timeout : ℤ) (x : Option T) (q : Queue T)
        → pop_impl take_top timeout s.queue ≡ pop_returned x q
        → t ≡ record s { queue = q; gone = leave x s.gone }
        → Step s t
    pop_throws : (timeout : ℤ) → pop_impl take_top timeout s.queue ≡ pop_thrown → t ≡ s → Step s t
    pop_blocks :
        (timeout : ℤ) (w : PopWait) (q : Queue T)
        → pop_impl take_top timeout s.queue ≡ pop_blocked w q
        → t ≡ record s { queue = q; consumers = w ∷ s.consumers }
        → Step s t
    pop_wakes :
        (ws vs : List PopWait) (w : PopWait) (x : Option T) (q : Queue T)
        → s.consumers ≡ ws ++ w ∷ vs
        → wake_pop take_top w s.queue ≡ some (x, q)
        → t ≡ record s { queue = q; consumers = ws ++ vs; gone = leave x s.gone }
        → Step s t
    closes : t ≡ record s { queue = close s.queue } → Step s t
    clears : t ≡ record s { queue = clear s.queue; gone = s.gone ++ contents s.queue } → Step s t

  pub data Reach (s : System T) : System T → Type ℓ where
    here : Reach s s
    next : {t u : System T} → Reach s t → Step t u → Reach s u

  -- What every step keeps holds in every state that can be reached.
  pub Reach-keeps {κ} :
      (P : System T → Type κ)
      → ((u v : System T) → Step u v → P u → P v)
      → {s t : System T} → Reach s t
      → P s
      → P t
  Reach-keeps P keeps here h = h
  Reach-keeps P keeps (next {t} {u} r st) h = keeps t u st (Reach-keeps P keeps r h)

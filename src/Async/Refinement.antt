-- ===== src/Async/Refinement.antt =====
-- The processor of HW_9/lib/async.cpp against what Blocks promises.
use cplus_plus_developer_pro.Prelude.{
  ℕ, ◌+◌, ◌-◌, ◌<◌, ◌≡◌, refl, sym, ap, ◌∙◌, inl, inr, true, false, ◌&&◌, List, [], ◌∷◌, ◌++◌,
  append-nil, append_assoc, arith, ltb, ◌==◌, if◌then◌else◌, Bool-cases, snoc, length-snoc,
  is_empty, is_empty-snoc,
}
use cplus_plus_developer_pro.Prelude.Text.{Text}
use cplus_plus_developer_pro.Blocks.{
  Pending, nothing_pending, collect, collect_all, leftover, blocks, emit, is_open, is_close,
}
use cplus_plus_developer_pro.BulkServer.Dynamic.{filled}
use cplus_plus_developer_pro.Async.{
  OutputTask, TaskManager, Queues, push_task, process_static, process_dynamic, add_open, add_close,
  add_command, add_task, is_dynamic_block_active, add_lines, finish, task_manager,
}

-- The commands of the queued tasks.
abbrev pub blocks_of : List OutputTask → List (List Text)
blocks_of [] = []
blocks_of (t ∷ ts) = t.commands ∷ blocks_of ts

blocks_of-snoc :
    (ts : List OutputTask) (t : OutputTask)
    → blocks_of (snoc ts t) ≡ blocks_of ts ++ t.commands ∷ []
blocks_of-snoc [] t = refl
blocks_of-snoc (u ∷ ts) t = ap (λ r. u.commands ∷ r) (blocks_of-snoc ts t)

-- Both queues have got the same blocks.
abbrev pub Grows : Queues → Queues → List (List Text) → Type 0
Grows q q' bs =
    (blocks_of q'.log_queue ≡ blocks_of q.log_queue ++ bs)
    × (blocks_of q'.file_queue ≡ blocks_of q.file_queue ++ bs)

Grows-refl : (q : Queues) → Grows q q []
Grows-refl q = (sym (append-nil (blocks_of q.log_queue)), sym (append-nil (blocks_of q.file_queue)))

Grows-trans :
    (q q' q'' : Queues) (bs cs : List (List Text))
    → Grows q q' bs
    → Grows q' q'' cs
    → Grows q q'' (bs ++ cs)
Grows-trans q q' q'' bs cs g h = (
  h.0 ∙ rw g.0 (append_assoc (blocks_of q.log_queue) bs cs),
  h.1 ∙ rw g.1 (append_assoc (blocks_of q.file_queue) bs cs),
)

push_task-Grows : (t : OutputTask) (q : Queues) → Grows q (push_task t q) (t.commands ∷ [])
unfolding push_task
push_task-Grows t q = (blocks_of-snoc q.log_queue t, blocks_of-snoc q.file_queue t)

-- The processor that stands for a depth and a list of pending commands.
pub record Represents (size : ℕ) (m : TaskManager) (c : Pending) : Type 0 where
  pub level : m.dynamic_block_nesting_level ≡ c.depth
  pub statics : m.static_block_task ≡ (if c.depth == 0 then c.commands else [])
  pub dynamics : m.dynamic_block_task ≡ (if c.depth == 0 then [] else c.commands)
  pub limit : m.max_static_task_count ≡ size

-- `mq'` follows `mq` by putting blocks into both queues, and stands for `c`.
pub record Follows (size : ℕ) (mq mq' : TaskManager × Queues) (c : Pending) (bs : List (List Text))
    : Type 0 where
  pub stands : Represents size mq'.0 c
  pub queued : Grows mq.1 mq'.1 bs

-- What putting a block out into the queues does.
process_static-lem :
    (m : TaskManager) (q : Queues)
    → let (m', q') = process_static (m, q) in
      Grows q q' (emit m.static_block_task)
      × (m'.static_block_task ≡ [])
      × (m'.dynamic_block_task ≡ m.dynamic_block_task)
      × (m'.dynamic_block_nesting_level ≡ m.dynamic_block_nesting_level)
      × (m'.max_static_task_count ≡ m.max_static_task_count)
unfolding process_static
process_static-lem m q = ground (
  arith,
  append-nil (blocks_of q.log_queue),
  append-nil (blocks_of q.file_queue),
  push_task-Grows
      (record {
        timestamp = m.static_block_timestamp;
        context_id = m.task_manager_id;
        commands = m.static_block_task;
      })
      q,
)

process_dynamic-lem :
    (m : TaskManager) (q : Queues)
    → let (m', q') = process_dynamic (m, q) in
      Grows q q' (emit m.dynamic_block_task)
      × (m'.dynamic_block_task ≡ [])
      × (m'.static_block_task ≡ m.static_block_task)
      × (m'.dynamic_block_nesting_level ≡ m.dynamic_block_nesting_level)
      × (m'.max_static_task_count ≡ m.max_static_task_count)
unfolding process_dynamic
process_dynamic-lem m q = ground (
  arith,
  append-nil (blocks_of q.log_queue),
  append-nil (blocks_of q.file_queue),
  push_task-Grows
      (record {
        timestamp = m.dynamic_block_timestamp;
        context_id = m.task_manager_id;
        commands = m.dynamic_block_task;
      })
      q,
)

module _ (now size : ℕ) where
  add_open-Follows :
      (m : TaskManager) (q : Queues) (c : Pending) (task : Text)
      → Represents size m c
      → is_open task ≡ true
      → Follows size (m, q) (add_open now (m, q)) (collect size task c).0 (collect size task c).1
  unfolding add_open collect is_dynamic_block_active
  add_open-Follows m q c task r e =
      ground
        (arith, Grows-refl q, process_static-lem (record m { dynamic_block_timestamp = now }) q)

  add_close-Follows :
      (m : TaskManager) (q : Queues) (c : Pending) (task : Text)
      → Represents size m c
      → is_open task ≡ false
      → is_close task ≡ true
      → 0 < c.depth
      → Follows size (m, q) (add_close (m, q)) (collect size task c).0 (collect size task c).1
  unfolding add_close collect is_dynamic_block_active
  add_close-Follows m q c task r e f h = ground (
    arith,
    Grows-refl q,
    process_dynamic-lem
        (record m { dynamic_block_nesting_level = m.dynamic_block_nesting_level - 1 }) q,
  )

  add_command-Follows :
      (m : TaskManager) (q : Queues) (c : Pending) (task : Text)
      → Represents size m c
      → is_open task ≡ false
      → (is_close task && ltb 0 c.depth) ≡ false
      → Follows size
          (m, q)
          (add_command now task (m, q))
          (collect size task c).0
          (collect size task c).1
  unfolding add_command collect is_dynamic_block_active
  add_command-Follows m q c task r e f = ground (
    arith,
    Grows-refl q,
    length-snoc c.commands task,
    is_empty-snoc c.commands task,
    process_static-lem (record m { static_block_task = snoc m.static_block_task task }) q,
    process_static-lem
        (record m {
          static_block_task = snoc m.static_block_task task;
          static_block_timestamp = now;
        })
        q,
  )

  add_task-Follows :
      (m : TaskManager) (q : Queues) (c : Pending) (task : Text)
      → Represents size m c
      → Follows size
          (m, q)
          (add_task now task (m, q))
          (collect size task c).0
          (collect size task c).1
  unfolding add_task
  add_task-Follows m q c task r = elim (Bool-cases (is_open task)) [
    | inl e ↦ rw e (add_open-Follows m q c task r e)
    | inr e ↦ elim (Bool-cases (is_close task && ltb 0 m.dynamic_block_nesting_level)) [
      | inl f ↦
          rw (e, f) (add_close-Follows m q c task r e (ground arith) (ground (arith, r.level)))
      | inr f ↦ rw (e, f) (add_command-Follows m q c task r e (ground (arith, r.level)))
    ]
  ]

Follows-trans :
    (size : ℕ) (mq mq' mq'' : TaskManager × Queues) (c' c'' : Pending) (bs cs : List (List Text))
    → Follows size mq mq' c' bs
    → Follows size mq' mq'' c'' cs
    → Follows size mq mq'' c'' (bs ++ cs)
Follows-trans size mq mq' mq'' c' c'' bs cs f g = record {
  stands = g.stands;
  queued = Grows-trans mq.1 mq'.1 mq''.1 bs cs f.queued g.queued;
}

add_lines-Follows :
    (clock : ℕ → ℕ) (n size : ℕ) (ls : List Text) (mq : TaskManager × Queues) (c : Pending)
    → Represents size mq.0 c
    → Follows size mq
        (add_lines clock n ls mq)
        (collect_all size (filled ls) c).0
        (collect_all size (filled ls) c).1
unfolding add_lines collect_all
add_lines-Follows clock n size [] mq c r = record { stands = r; queued = Grows-refl mq.1 }
add_lines-Follows clock n size (l ∷ ls) mq c r = elim (Bool-cases (is_empty l)) [
  | inl e ↦ rw e (add_lines-Follows clock (n + 1) size ls mq c r)
  | inr e ↦ rw e (
      let f = add_task-Follows (clock n) size mq.0 mq.1 c l r in
      Follows-trans size mq _ _ _ _ _ _ f (add_lines-Follows clock (n + 1) size ls _ _ f.stands))
]

finish-Grows :
    (size : ℕ) (m : TaskManager) (q : Queues) (c : Pending)
    → Represents size m c
    → Grows q (finish (m, q)).1 (leftover c)
unfolding finish is_dynamic_block_active
finish-Grows size m q c r = ground (arith, Grows-refl q, process_static-lem m q)

-- A new processor that is given the lines of a call and then finished adds to both queues exactly
-- the blocks that are promised for the lines that are not empty, in order: the log worker and the
-- file worker get the same blocks.
pub lines-blocks :
    (clock : ℕ → ℕ) (size id : ℕ) (ls : List Text) (q : Queues)
    → let q' = (finish (add_lines clock 0 ls (task_manager size id, q))).1 in
      (blocks_of q'.log_queue ≡ blocks_of q.log_queue ++ blocks size (filled ls))
      × (blocks_of q'.file_queue ≡ blocks_of q.file_queue ++ blocks size (filled ls))
unfolding task_manager blocks
lines-blocks clock size id ls q =
    let mq : TaskManager × Queues = (task_manager size id, q) in
    let f =
      add_lines-Follows clock 0 size ls mq nothing_pending
        (record { level = refl; statics = refl; dynamics = refl; limit = refl }) in
    let after = add_lines clock 0 ls mq in
    Grows-trans q after.1 (finish after).1 _ _ f.queued
      (finish-Grows size after.0 after.1 _ f.stands)

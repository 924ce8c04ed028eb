-- ===== src/Async.antt =====
-- HW_9/lib/async.cpp: the asynchronous library, in which each connection has a block processor of
-- its own. A handle is the address of its processor and 0 is the null pointer. The nesting level
-- never falls below 0 here, so it is a natural number. The clock gives the time at which the n-th
-- line of a call is handled.
pub mod Refinement
pub mod Restart
pub mod Workers
mod Tests
use cplus_plus_developer_pro.Prelude.{
  ℕ, ◌+◌, ◌-◌, Bool, true, false, not, ◌&&◌, Option, none, some, List, [], ◌∷◌, ltb, leb, ◌==◌,
  if◌then◌else◌, length, is_empty, snoc,
}
use cplus_plus_developer_pro.Prelude.Text.{Text, bytes, text_eq}
use cplus_plus_developer_pro.BulkServer.Lines.{lines}

pub record OutputTask : Type 0 where
  pub timestamp : ℕ
  pub context_id : ℕ
  pub commands : List Text

pub record TaskManager : Type 0 where
  pub dynamic_block_nesting_level : ℕ
  pub dynamic_block_timestamp : ℕ
  pub static_block_timestamp : ℕ
  pub max_static_task_count : ℕ
  pub task_manager_id : ℕ
  pub dynamic_block_task : List Text
  pub static_block_task : List Text

-- The two queues of the workers.
pub record Queues : Type 0 where
  pub log_queue : List OutputTask
  pub file_queue : List OutputTask

pub is_dynamic_block_active : TaskManager → Bool
is_dynamic_block_active m = ltb 0 m.dynamic_block_nesting_level

-- `log_queue().push(task); file_queue().push(task)` under the mutex.
unfoldable pub push_task : OutputTask → Queues → Queues
push_task task q = record q {
  log_queue = snoc q.log_queue task;
  file_queue = snoc q.file_queue task;
}

-- `process_tasks(static_block_task)`
pub process_static : TaskManager × Queues → TaskManager × Queues
process_static (m, q) =
    let task : OutputTask = record {
      timestamp = m.static_block_timestamp;
      context_id = m.task_manager_id;
      commands = m.static_block_task;
    } in
    if is_empty m.static_block_task
    then (m, q)
    else (record m { static_block_task = []; static_block_timestamp = 0 }, push_task task q)

-- `process_tasks(dynamic_block_task)`
pub process_dynamic : TaskManager × Queues → TaskManager × Queues
process_dynamic (m, q) =
    let task : OutputTask = record {
      timestamp = m.dynamic_block_timestamp;
      context_id = m.task_manager_id;
      commands = m.dynamic_block_task;
    } in
    if is_empty m.dynamic_block_task
    then (m, q)
    else (record m { dynamic_block_task = []; dynamic_block_timestamp = 0 }, push_task task q)

-- `add_task` of a `{`.
pub add_open : ℕ → TaskManager × Queues → TaskManager × Queues
unfolding is_dynamic_block_active process_static
add_open now (m, q) =
    let (m', q') =
      if is_dynamic_block_active m
      then (m, q)
      else process_static (record m { dynamic_block_timestamp = now }, q) in
    (record m' { dynamic_block_nesting_level = m'.dynamic_block_nesting_level + 1 }, q')

-- `add_task` of a `}` within a block.
pub add_close : TaskManager × Queues → TaskManager × Queues
unfolding is_dynamic_block_active process_dynamic
add_close (m, q) =
    let down = record m { dynamic_block_nesting_level = m.dynamic_block_nesting_level - 1 } in
    if is_dynamic_block_active down then (down, q) else process_dynamic (down, q)

-- `add_task` of anything else.
pub add_command : ℕ → Text → TaskManager × Queues → TaskManager × Queues
unfolding is_dynamic_block_active process_static
add_command now task (m, q) =
    let stamped =
      if is_empty m.static_block_task then record m { static_block_timestamp = now } else m in
    let stored = record stamped { static_block_task = snoc stamped.static_block_task task } in
    if is_dynamic_block_active m
    then (record m { dynamic_block_task = snoc m.dynamic_block_task task }, q)
    else if leb stored.max_static_task_count (length stored.static_block_task)
    then process_static (stored, q)
    else (stored, q)

pub add_task : ℕ → Text → TaskManager × Queues → TaskManager × Queues
add_task now task (m, q) =
    if text_eq task (bytes "{")
    then add_open now (m, q)
    else if text_eq task (bytes "}") && ltb 0 m.dynamic_block_nesting_level
    then add_close (m, q)
    else add_command now task (m, q)

pub finish : TaskManager × Queues → TaskManager × Queues
unfolding is_dynamic_block_active process_static
finish (m, q) =
    if not (is_dynamic_block_active m) && not (is_empty m.static_block_task)
    then process_static (m, q)
    else (m, q)

-- The loop of `receive` over its lines, which skips empty ones.
pub add_lines : (ℕ → ℕ) → ℕ → List Text → TaskManager × Queues → TaskManager × Queues
add_lines clock n [] mq = mq
add_lines clock n (l ∷ ls) mq =
    add_lines clock (n + 1) ls (if is_empty l then mq else add_task (clock n) l mq)

-- The static variables of the file.
pub record Library : Type 0 where
  pub contexts : List (ℕ × TaskManager)
  pub queues : Queues
  pub next_id : ℕ
  pub should_terminate : Bool
  pub threads_initialized : Bool

abbrev pub initial : Library
initial = record {
  contexts = [];
  queues = record { log_queue = []; file_queue = [] };
  next_id = 0;
  should_terminate = false;
  threads_initialized = false;
}

abbrev pub find : ℕ → List (ℕ × TaskManager) → Option TaskManager
find h [] = none
find h ((k, m) ∷ c) = if k == h then some m else find h c

abbrev pub store : ℕ → TaskManager → List (ℕ × TaskManager) → List (ℕ × TaskManager)
store h m [] = (h, m) ∷ []
store h m ((k, n) ∷ c) = if k == h then (k, m) ∷ c else (k, n) ∷ store h m c

abbrev pub erase : ℕ → List (ℕ × TaskManager) → List (ℕ × TaskManager)
erase h [] = []
erase h ((k, n) ∷ c) = if k == h then c else (k, n) ∷ erase h c

-- `init_threads` and `stop_threads`, but for the threads themselves.
pub init_threads : Library → Library
init_threads s = if s.threads_initialized then s else record s { threads_initialized = true }

pub stop_threads : Library → Library
stop_threads s =
    if s.threads_initialized
    then record s { threads_initialized = false; should_terminate = true }
    else s

-- A new processor for a context id.
pub task_manager : ℕ → ℕ → TaskManager
task_manager bulk id = record {
  dynamic_block_nesting_level = 0;
  dynamic_block_timestamp = 0;
  static_block_timestamp = 0;
  max_static_task_count = bulk;
  task_manager_id = id;
  dynamic_block_task = [];
  static_block_task = [];
}

pub connect : ℕ → ℕ → Library → ℕ × Library
unfolding init_threads
connect bulk address s =
    let ready = init_threads s in
    (
      address,
      record ready {
        next_id = ready.next_id + 1;
        contexts = store address (task_manager bulk ready.next_id) ready.contexts;
      },
    )

pub receive_in : (ℕ → ℕ) → ℕ → Text → Option TaskManager → Library → Library
receive_in clock handle input none s = s
receive_in clock handle input (some m) s =
    let (m', q') = add_lines clock 0 (lines input) (m, s.queues) in
    record s { contexts = store handle m' s.contexts; queues = q' }

pub receive : (ℕ → ℕ) → ℕ → Text → Library → Library
receive clock handle input s =
    if handle == 0 then s else receive_in clock handle input (find handle s.contexts) s

pub finish_in : ℕ → Option TaskManager → Library → Library
finish_in handle none s = s
finish_in handle (some m) s = record s {
  queues = (finish (m, s.queues)).1;
  contexts = erase handle s.contexts;
}

pub disconnect : ℕ → Library → Library
unfolding stop_threads
disconnect handle s =
    let finished = finish_in handle (find handle s.contexts) s in
    if handle == 0
    then s
    else if is_empty finished.contexts
    then stop_threads finished
    else finished

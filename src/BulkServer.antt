-- ===== src/BulkServer.antt =====
-- HW_10/lib/async.cpp: the bulk server's command processor. Connections share one manager of
-- static blocks; each has a dynamic block of its own. A handle is the address of its context, which
-- the allocator gives and 0 is the null pointer; a context's id stands for its decimal text. The
-- clock gives the time at which the n-th command of a call is handled.
pub mod Lines
pub mod Dynamic
pub mod Stray
pub mod Network
pub mod Lifecycle
pub mod Workers
mod Tests
use cplus_plus_developer_pro.Prelude.{
  ℕ, suc, ◌+◌, Bool, true, false, not, Option, none, some, List, [], ◌∷◌, ◌++◌, leb, ◌==◌,
  if◌then◌else◌, length, is_empty, snoc,
}
use cplus_plus_developer_pro.Prelude.Int.{ℤ, pos, ◌+ℤ◌, ◌-ℤ◌, ltb_ℤ, eq_ℤ}
use cplus_plus_developer_pro.Prelude.Text.{Text, bytes, text_eq}
use Lines.{lines}

pub record OutputTask : Type 0 where
  pub timestamp : ℕ
  pub context_id : ℕ
  pub commands : List Text

-- `taskmanager`
pub record Manager : Type 0 where
  pub static_block_timestamp : ℕ
  pub max_static_task_count : ℕ
  pub static_block_task : List Text

-- `ConnectionContext`
pub record Context : Type 0 where
  pub dynamic_block_nesting_level : ℤ
  pub dynamic_block_timestamp : ℕ
  pub id : ℕ
  pub dynamic_block_task : List Text

-- The static variables of the file.
pub record Server : Type 0 where
  pub shared_task_manager : Option Manager
  pub contexts : List (ℕ × Context)
  pub next_id : ℕ
  pub log_queue : List OutputTask
  pub file_queue : List OutputTask
  pub should_terminate : Bool
  pub threads_initialized : Bool

abbrev pub initial : Server
initial = record {
  shared_task_manager = none;
  contexts = [];
  next_id = 0;
  log_queue = [];
  file_queue = [];
  should_terminate = false;
  threads_initialized = false;
}

-- `taskmanager::process_tasks`, but for the `clear` of the caller's vector.
pub process_tasks : List Text → ℕ → ℕ → Server → Server
process_tasks block timestamp id s =
    let task : OutputTask = record { timestamp = timestamp; context_id = id; commands = block } in
    if is_empty block
    then s
    else record s { log_queue = snoc s.log_queue task; file_queue = snoc s.file_queue task }

-- `taskmanager::add_task`
pub manager_add : ℕ → Text → Manager → Server → Server
unfolding process_tasks
manager_add now task m s =
    let stamped =
      if is_empty m.static_block_task then record m { static_block_timestamp = now } else m in
    let stored = record stamped { static_block_task = snoc stamped.static_block_task task } in
    if leb stored.max_static_task_count (length stored.static_block_task)
    then process_tasks stored.static_block_task stored.static_block_timestamp 0
        (record s { shared_task_manager = some (record stored { static_block_task = [] }) })
    else record s { shared_task_manager = some stored }

-- `taskmanager::finish`
pub manager_finish : Manager → Server → Server
unfolding process_tasks
manager_finish m s =
    if not (is_empty m.static_block_task)
    then process_tasks m.static_block_task m.static_block_timestamp 0
        (record s { shared_task_manager = some (record m { static_block_task = [] }) })
    else s

-- `if (shared_task_manager()) shared_task_manager()->finish();`
pub finish_shared : Option Manager → Server → Server
unfolding manager_finish
finish_shared none s = s
finish_shared (some m) s = manager_finish m s

pub add_shared : ℕ → Text → Option Manager → Server → Server
unfolding manager_add
add_shared now task none s = s
add_shared now task (some m) s = manager_add now task m s

pub process_open : ℕ → Context × Server → Context × Server
process_open now (c, s) =
    let (c', s') =
      if eq_ℤ c.dynamic_block_nesting_level (pos 0)
      then (record c { dynamic_block_timestamp = now }, finish_shared s.shared_task_manager s)
      else (c, s) in
    (record c' { dynamic_block_nesting_level = c'.dynamic_block_nesting_level +ℤ pos 1 }, s')

-- `process_tasks` clears the vector that it is handed, unless it is empty.
pub flush_dynamic : Option Manager → Context × Server → Context × Server
unfolding process_tasks
flush_dynamic none (c, s) = (c, s)
flush_dynamic (some m) (c, s) = (
  record c { dynamic_block_task = [] },
  process_tasks c.dynamic_block_task c.dynamic_block_timestamp c.id s,
)

pub process_close : Context × Server → Context × Server
process_close (c, s) =
    let down = record c { dynamic_block_nesting_level = c.dynamic_block_nesting_level -ℤ pos 1 } in
    if eq_ℤ down.dynamic_block_nesting_level (pos 0)
    then flush_dynamic s.shared_task_manager (down, s)
    else (down, s)

pub process_plain : ℕ → Text → Context × Server → Context × Server
process_plain now command (c, s) =
    if is_empty command
    then (c, s)
    else if ltb_ℤ (pos 0) c.dynamic_block_nesting_level
    then (record c { dynamic_block_task = snoc c.dynamic_block_task command }, s)
    else (c, add_shared now command s.shared_task_manager s)

pub process_command : ℕ → Text → Context × Server → Context × Server
process_command now command cs =
    if text_eq command (bytes "{")
    then process_open now cs
    else if text_eq command (bytes "}")
    then process_close cs
    else process_plain now command cs

pub process_commands : (ℕ → ℕ) → ℕ → List Text → Context × Server → Context × Server
process_commands clock n [] cs = cs
process_commands clock n (l ∷ ls) cs =
    process_commands clock (n + 1) ls (process_command (clock n) l cs)

-- `contexts().find`, `contexts()[handle] = …` and `contexts().erase`.
abbrev pub find : ℕ → List (ℕ × Context) → Option Context
find h [] = none
find h ((k, c) ∷ m) = if k == h then some c else find h m

abbrev pub store : ℕ → Context → List (ℕ × Context) → List (ℕ × Context)
store h c [] = (h, c) ∷ []
store h c ((k, d) ∷ m) = if k == h then (k, c) ∷ m else (k, d) ∷ store h c m

abbrev pub erase : ℕ → List (ℕ × Context) → List (ℕ × Context)
erase h [] = []
erase h ((k, d) ∷ m) = if k == h then m else (k, d) ∷ erase h m

-- `init_threads` and `stop_threads`, but for the threads themselves.
pub init_threads : Server → Server
init_threads s =
    if s.threads_initialized
    then s
    else record s { threads_initialized = true; should_terminate = false }

pub stop_threads : Server → Server
stop_threads s =
    let finished = finish_shared s.shared_task_manager (record s { threads_initialized = false }) in
    if s.threads_initialized
    then record finished { should_terminate = true; shared_task_manager = none }
    else s

pub connect : ℕ → ℕ → Server → ℕ × Server
connect bulk address s =
    let manager : Manager = record {
      static_block_timestamp = 0;
      max_static_task_count = bulk;
      static_block_task = [];
    } in
    let ready : Server = elim s.shared_task_manager [
      | none ↦ init_threads (record s { shared_task_manager = some manager })
      | some m ↦ s
    ] in
    let context : Context = record {
      dynamic_block_nesting_level = pos 0;
      dynamic_block_timestamp = 0;
      id = ready.next_id;
      dynamic_block_task = [];
    } in
    (
      address,
      record ready { next_id = ready.next_id + 1; contexts = store address context ready.contexts },
    )

pub receive_in : (ℕ → ℕ) → ℕ → Text → Option Context → Server → Server
receive_in clock handle input none s = s
receive_in clock handle input (some c) s =
    let (c', s') = process_commands clock 0 (lines input) (c, s) in
    record s' { contexts = store handle c' s'.contexts }

pub receive : (ℕ → ℕ) → ℕ → Text → Server → Server
receive clock handle input s =
    if handle == 0 then s else receive_in clock handle input (find handle s.contexts) s

pub disconnect : ℕ → Server → Server
disconnect handle s =
    let erased = record s { contexts = erase handle s.contexts } in
    if handle == 0 then s else if is_empty erased.contexts then stop_threads erased else erased

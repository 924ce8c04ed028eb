-- ===== src/BulkServer/Workers.antt =====
-- The workers of HW_10/lib/async.cpp: the threads of `log_worker` and `file_worker`, which share the
-- queues with the program. A turn of a worker is two steps, since it holds the mutex only while
-- it takes a task: what it does with the task comes later. A worker that waits may look at its queue
-- at any time, as after a spurious wake-up, so that the steps are those of the code and more; that a
-- worker is woken at all is not modelled.
pub mod Log
pub mod Files
pub mod Names
mod Tests
use cplus_plus_developer_pro.Prelude.{
  ℕ, ◌+◌, ◌≡◌, Bool, true, false, Option, none, some, List, [], ◌∷◌, ◌++◌, if◌then◌else◌, is_empty,
  snoc,
}
use cplus_plus_developer_pro.Prelude.Text.{Text, bytes, text_eq}
use cplus_plus_developer_pro.BulkServer.{OutputTask}

-- What a thread does between two turns.
pub data Worker : Type 0 where
  idle : Worker
  holds : OutputTask → Worker
  ended : Worker

-- The parts of a file's name that `std::format` makes, and whether a file can be opened.
pub record Disk : Type 0 where
  pub name : Text
  pub seconds : ℕ → Text
  pub to_string : ℕ → Text
  pub opens : Text → Bool

-- The two queues, the flag, the threads and what they have written; the tasks that were ever pushed
-- are kept as a history.
pub record Workers : Type 0 where
  pub log_queue : List OutputTask
  pub file_queue : List OutputTask
  pub should_terminate : Bool
  pub log_thread : Worker
  pub file_thread1 : Worker
  pub file_thread2 : Worker
  pub file_counter : ℕ
  pub console : Text
  pub files : List (Text × Text)
  pub pushed : List OutputTask

-- The part of a turn under the mutex: nothing while the worker goes on waiting, and otherwise what it
-- is to do and what is left in the queue.
pub take : Bool → List OutputTask → Option (Worker × List OutputTask)
take should_terminate [] = if should_terminate then some (ended, []) else none
take should_terminate (t ∷ q) = some (holds t, q)

-- The loop over the commands.
abbrev pub listed : List Text → Text
listed [] = []
listed (c ∷ cs) = c ++ ((if is_empty cs then [] else bytes ", ") ++ listed cs)

-- A line of output for a task.
pub print_task : Text → OutputTask → Text
print_task name t = name ++ bytes ": " ++ listed t.commands ++ 10 ∷ []

-- What the log worker prints for a task that it has taken.
pub log_task : Text → OutputTask → Text → Text
log_task name t console = if is_empty t.commands then console else console ++ print_task name t

pub file_name : Disk → ℕ → ℕ → OutputTask → Text
file_name d thread_id file_counter t =
    d.name
    ++ d.seconds t.timestamp
    ++ bytes "_"
    ++ d.to_string t.context_id
    ++ bytes "_"
    ++ d.to_string thread_id
    ++ bytes "_"
    ++ d.to_string file_counter
    ++ bytes ".log"

-- The files after one was opened and written: a file of the same name is truncated.
abbrev pub write_file : (path text : Text) → List (Text × Text) → List (Text × Text)
write_file path text [] = (path, text) ∷ []
write_file path text ((q, old) ∷ fs) =
    if text_eq q path then (q, text) ∷ fs else (q, old) ∷ write_file path text fs

-- What a file worker writes for a task that it has taken.
pub file_task : Disk → ℕ → OutputTask → Workers → Workers
file_task d thread_id t s =
    let path = file_name d thread_id s.file_counter t in
    let counted = record s { file_counter = s.file_counter + 1 } in
    if is_empty t.commands
    then s
    else if d.opens path
    then record counted { files = write_file path (print_task d.name t) s.files }
    else counted

-- Between `init_threads` and the end of `stop_threads`: the program pushes tasks until it sets the
-- flag, and the three threads take turns in any order.
module _ (d : Disk) where
  pub data Step (s t : Workers) : Type 0 where
    pushes :
        (task : OutputTask)
        → s.should_terminate ≡ false
        → t ≡ record s {
          log_queue = snoc s.log_queue task;
          file_queue = snoc s.file_queue task;
          pushed = snoc s.pushed task;
        }
        → Step s t
    terminates : t ≡ record s { should_terminate = true } → Step s t
    log_takes :
        (w : Worker) (q : List OutputTask)
        → s.log_thread ≡ idle
        → take s.should_terminate s.log_queue ≡ some (w, q)
        → t ≡ record s { log_queue = q; log_thread = w }
        → Step s t
    log_prints :
        (task : OutputTask)
        → s.log_thread ≡ holds task
        → t ≡ record s { console = log_task d.name task s.console; log_thread = idle }
        → Step s t
    file1_takes :
        (w : Worker) (q : List OutputTask)
        → s.file_thread1 ≡ idle
        → take s.should_terminate s.file_queue ≡ some (w, q)
        → t ≡ record s { file_queue = q; file_thread1 = w }
        → Step s t
    file1_writes :
        (task : OutputTask)
        → s.file_thread1 ≡ holds task
        → t ≡ record (file_task d 1 task s) { file_thread1 = idle }
        → Step s t
    file2_takes :
        (w : Worker) (q : List OutputTask)
        → s.file_thread2 ≡ idle
        → take s.should_terminate s.file_queue ≡ some (w, q)
        → t ≡ record s { file_queue = q; file_thread2 = w }
        → Step s t
    file2_writes :
        (task : OutputTask)
        → s.file_thread2 ≡ holds task
        → t ≡ record (file_task d 2 task s) { file_thread2 = idle }
        → Step s t

  pub data Reach (s : Workers) : Workers → Type 0 where
    here : Reach s s
    next : {t u : Workers} → Reach s t → Step t u → Reach s u

  -- What every step keeps holds in every state that can be reached.
  pub Reach-keeps {κ} :
      (P : Workers → Type κ)
      → ((u v : Workers) → Step u v → P u → P v)
      → {s t : Workers} → Reach s t
      → P s
      → P t
  Reach-keeps P keeps here h = h
  Reach-keeps P keeps (next {t} {u} r st) h = keeps t u st (Reach-keeps P keeps r h)

  pub Reach-first : {s t u : Workers} → Step s t → Reach t u → Reach s u
  Reach-first st here = next here st
  Reach-first st (next r st') = next (Reach-first st r) st'

-- The threads when they have just been started.
abbrev pub started : Workers
started = record {
  log_queue = [];
  file_queue = [];
  should_terminate = false;
  log_thread = idle;
  file_thread1 = idle;
  file_thread2 = idle;
  file_counter = 0;
  console = [];
  files = [];
  pushed = [];
}

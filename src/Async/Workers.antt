-- ===== src/Async/Workers.antt =====
-- HW_9/lib/async.cpp: the log worker and the two file workers. A step of a worker is what it does
-- from one wait for the mutex to the next: it takes a task, or ends, and then it puts the task out.
-- The clock's whole seconds are a parameter, and so is which files can be opened. A worker that waits
-- may look at its queue at any time, as it may after a spurious wake-up; how it is woken is not
-- modelled, and a worker whose notification is missed is one that takes no further step. The number of
-- the files is an `int`, unbounded here.
pub mod Conservation
pub mod Files
pub mod Stopping
pub mod Joins
mod Tests
use cplus_plus_developer_pro.Prelude.{
  ℕ, ◌≡◌, ◌+◌, Bool, true, false, Option, none, some, List, [], ◌∷◌, ◌++◌, if◌then◌else◌, snoc,
  is_empty, ◌&&◌, ◌==◌,
}
use cplus_plus_developer_pro.Prelude.Text.{Text, bytes, join}
use cplus_plus_developer_pro.Async.{OutputTask, Queues, push_task}

pub data Worker : Type 0 where
  waiting : Worker
  holds : OutputTask → Worker
  ended : Worker

-- The parts of a file's name, and its text.
pub record LogFile : Type 0 where
  pub timestamp_seconds : ℕ
  pub context_id : ℕ
  pub thread_id : ℕ
  pub file_counter : ℕ
  pub text : Text

pub record Pool : Type 0 where
  pub queues : Queues
  pub should_terminate : Bool
  pub file_counter : ℕ
  pub log_thread : Worker
  pub file_thread1 : Worker
  pub file_thread2 : Worker
  pub output : List Text
  pub files : List LogFile

-- The critical section: `none` while the worker waits.
abbrev pub take_task : List OutputTask → Bool → Option (Worker × List OutputTask)
take_task [] true = some (ended, [])
take_task [] false = none
take_task (task ∷ queue) terminate = some (holds task, queue)

unfoldable pub commands_line : OutputTask → Text
commands_line task = bytes "bulk: " ++ join (bytes ", ") task.commands

abbrev pub with_log_task : Pool → Option (Worker × List OutputTask) → Option Pool
with_log_task p none = none
with_log_task p (some (w, queue)) =
    some (record p { log_thread = w; queues = record p.queues { log_queue = queue } })

-- The step of the log worker in a state.
unfoldable pub log_worker : Pool → Worker → Option Pool
unfolding commands_line
log_worker p waiting = with_log_task p (take_task p.queues.log_queue p.should_terminate)
log_worker p (holds task) = some (record p {
  log_thread = waiting;
  output = if is_empty task.commands then p.output else snoc p.output (commands_line task);
})
log_worker p ended = none

abbrev pub with_file_task : Pool → Option (Worker × List OutputTask) → Option (Worker × Pool)
with_file_task p none = none
with_file_task p (some (w, queue)) =
    some (w, record p { queues = record p.queues { file_queue = queue } })

abbrev pub same_name : LogFile → LogFile → Bool
same_name f g =
    f.timestamp_seconds == g.timestamp_seconds
    && f.context_id == g.context_id
    && f.thread_id == g.thread_id
    && f.file_counter == g.file_counter

-- What is written to a file of the same name replaces the old text.
unfoldable pub write_to : LogFile → List LogFile → List LogFile
write_to file [] = file ∷ []
write_to file (f ∷ fs) =
    let rest = write_to file fs in if same_name f file then file ∷ fs else f ∷ rest

module _ (seconds : ℕ → ℕ) (opens : LogFile → Bool) where
  abbrev pub file_of : ℕ → ℕ → OutputTask → LogFile
  file_of thread_id counter task = record {
    timestamp_seconds = seconds task.timestamp;
    context_id = task.context_id;
    thread_id = thread_id;
    file_counter = counter;
    text = snoc (commands_line task) 10;
  }

  unfoldable pub write_file : ℕ → OutputTask → Pool → Pool
  unfolding write_to
  write_file thread_id task p =
      let file = file_of thread_id p.file_counter task in
      if is_empty task.commands then p else record p {
        file_counter = p.file_counter + 1;
        files = if opens file then write_to file p.files else p.files;
      }

  -- The step of a file worker, and its new state.
  unfoldable pub file_worker : ℕ → Pool → Worker → Option (Worker × Pool)
  unfolding write_file
  file_worker thread_id p waiting =
      with_file_task p (take_task p.queues.file_queue p.should_terminate)
  file_worker thread_id p (holds task) = some (waiting, write_file thread_id task p)
  file_worker thread_id p ended = none

-- What happens next: a step of a worker, a task from a processor, or the flag of `stop_threads`.
pub data Event : Type 0 where
  logs : Event
  files_first : Event
  files_second : Event
  pushes : OutputTask → Event
  terminates : Event

abbrev pub first_of : Option (Worker × Pool) → Option Pool
first_of none = none
first_of (some (w, p)) = some (record p { file_thread1 = w })

abbrev pub second_of : Option (Worker × Pool) → Option Pool
second_of none = none
second_of (some (w, p)) = some (record p { file_thread2 = w })

module _ (seconds : ℕ → ℕ) (opens : LogFile → Bool) where
  -- `none` where the worker of a step waits or has ended.
  unfoldable pub step : Event → Pool → Option Pool
  unfolding log_worker file_worker push_task
  step logs p = log_worker p p.log_thread
  step files_first p = first_of (file_worker seconds opens 1 p p.file_thread1)
  step files_second p = second_of (file_worker seconds opens 2 p p.file_thread2)
  step (pushes task) p = some (record p { queues = push_task task p.queues })
  step terminates p = some (record p { should_terminate = true })

  unfoldable pub steps : List Event → Pool → Option Pool
  unfolding step
  steps [] p = some p
  steps (e ∷ es) p = elim (step e p) [ none ↦ none | some p' ↦ steps es p' ]

-- The workers that `init_threads` starts; the counter of the files and the flag stay as they were.
abbrev pub start_workers : Bool → ℕ → Queues → Pool
start_workers terminate counter queues = record {
  queues = queues;
  should_terminate = terminate;
  file_counter = counter;
  log_thread = waiting;
  file_thread1 = waiting;
  file_thread2 = waiting;
  output = [];
  files = [];
}

-- `stop_threads` returns once it has joined every worker.
pub record IsJoined (p : Pool) : Type 0 where
  pub log : p.log_thread ≡ ended
  pub file1 : p.file_thread1 ≡ ended
  pub file2 : p.file_thread2 ≡ ended

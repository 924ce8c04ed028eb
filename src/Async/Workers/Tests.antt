-- ===== src/Async/Workers/Tests.antt =====
-- The workers of HW_9/lib/async.cpp with one task, and with the tasks of some lines.
use cplus_plus_developer_pro.Prelude.{ℕ, ◌≡◌, refl, Bool, true, false, some, List, [], ◌∷◌}
use cplus_plus_developer_pro.Prelude.Text.{Text, bytes, join, text_eq}
use cplus_plus_developer_pro.Blocks.{blocks}
use cplus_plus_developer_pro.BulkServer.Dynamic.{filled}
use cplus_plus_developer_pro.Async.{
  OutputTask, push_task, finish, add_lines, add_task, add_command, add_open, add_close,
  process_static, process_dynamic, is_dynamic_block_active, task_manager,
}
use cplus_plus_developer_pro.Async.Refinement.{blocks_of}
use cplus_plus_developer_pro.Async.Workers.{
  ended, LogFile, Pool, Event, logs, files_first, files_second, pushes, terminates, write_to,
  file_of, step, steps, IsJoined, start_workers, log_worker, file_worker, write_file, commands_line,
}
use cplus_plus_developer_pro.Async.Workers.Conservation.{pushed}
use cplus_plus_developer_pro.Async.Workers.Files.{count_files, count_tasks}
use cplus_plus_developer_pro.Async.Workers.Joins.{
  no_tasks, queues_of, block_lines, received_lines-printed,
}

abbrev task : OutputTask
task = record { timestamp = 1500; context_id = 7; commands = bytes "a" ∷ bytes "b" ∷ [] }

abbrev seconds : ℕ → ℕ
seconds t = 1

abbrev opens : LogFile → Bool
opens f = true

abbrev last_task : OutputTask
last_task = record task { commands = bytes "c" ∷ [] }

abbrev schedule : List Event
schedule =
    pushes task
    ∷ files_second
    ∷ logs
    ∷ logs
    ∷ pushes last_task
    ∷ files_first
    ∷ terminates
    ∷ files_second
    ∷ files_first
    ∷ logs
    ∷ logs
    ∷ logs
    ∷ files_first
    ∷ files_second
    ∷ []

abbrev stopped : Pool
stopped = record {
  queues = no_tasks;
  should_terminate = true;
  file_counter = 2;
  log_thread = ended;
  file_thread1 = ended;
  file_thread2 = ended;
  output = bytes "bulk: a, b" ∷ bytes "bulk: c" ∷ [];
  files =
      record {
        timestamp_seconds = 1;
        context_id = 7;
        thread_id = 2;
        file_counter = 0;
        text = bytes "bulk: a, b\n";
      }
      ∷ record {
        timestamp_seconds = 1;
        context_id = 7;
        thread_id = 1;
        file_counter = 1;
        text = bytes "bulk: c\n";
      }
      ∷ [];
}

schedule-stopped : steps seconds opens schedule (start_workers false 0 no_tasks) ≡ some stopped
unfolding steps step log_worker file_worker write_file write_to commands_line join push_task
schedule-stopped = refl

stopped-IsJoined : IsJoined stopped
stopped-IsJoined = record { log = refl; file1 = refl; file2 = refl }

abbrev some_lines : List Text
some_lines = bytes "a" ∷ [] ∷ bytes "b" ∷ bytes "c" ∷ []

given : pushed schedule ≡ (queues_of (λ n. 1500) 2 7 some_lines).log_queue
unfolding finish add_lines add_task add_command add_open add_close process_static process_dynamic
    is_dynamic_block_active task_manager push_task text_eq
given = refl

-- A file of the same name as an earlier one replaces it.
same_name_replaces :
    write_to (file_of seconds opens 1 0 last_task) (file_of seconds opens 1 0 task ∷ [])
    ≡ file_of seconds opens 1 0 last_task ∷ []
unfolding write_to
same_name_replaces = refl

received_lines-printed_example :
    (stopped.output ≡ block_lines (blocks 2 (filled some_lines)))
    × ((kind : ℕ → ℕ → Text → Bool)
        → count_files seconds opens kind stopped.files
          ≡ count_tasks seconds opens kind (queues_of (λ n. 1500) 2 7 some_lines).log_queue)
    × (blocks_of (queues_of (λ n. 1500) 2 7 some_lines).log_queue ≡ blocks 2 (filled some_lines))
received_lines-printed_example =
    received_lines-printed seconds opens (λ n. 1500) 0 2 7 some_lines schedule stopped (λ f. refl)
      refl given schedule-stopped stopped-IsJoined

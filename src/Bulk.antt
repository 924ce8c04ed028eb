-- ===== src/Bulk.antt =====
-- HW_7/include/taskmanager.hpp and HW_7/lib/taskmanager.cpp: the batch command processor.
-- A reading of the system clock, and which log files can be opened, are arguments of each call.
-- `std::cout` is the text printed so far; the log files are the paths written so far, newest
-- first, each with its whole contents, since an `std::ofstream` truncates.
pub mod Refinement
pub mod Sessions
pub mod Files
mod Tests
use cplus_plus_developer_pro.Prelude.{
  ℕ, ◌+◌, ◌%◌, Bool, true, false, not, List, [], ◌∷◌, ◌++◌, ◌==◌, if◌then◌else◌, is_empty, snoc,
}
use cplus_plus_developer_pro.Prelude.Int.{ℤ, pos, negsuc, ◌+ℤ◌, ◌-ℤ◌, ltb_ℤ}
use cplus_plus_developer_pro.Prelude.Text.{Text, bytes, text_eq, join}

-- What the standard library does with a program's name, a time point and a number.
pub record Platform : Type 0 where
  -- `std::filesystem::path(name).filename().string()`
  pub filename : Text → Text
  -- `std::chrono::floor<std::chrono::seconds>(t.time_since_epoch()).count()`
  pub seconds : ℕ → ℕ
  -- `std::to_string`
  pub to_string : ℕ → Text

-- The members of `taskmanager`, with what it has written. A default `time_point` is 0.
pub record TaskManager : Type 0 where
  pub dynamic_block_nesting_level : ℤ
  pub task_count : ℕ
  pub max_static_task_count : ℕ
  pub stop_flag : Bool
  pub dynamic_block_timestamp : ℕ
  pub static_block_timestamp : ℕ
  pub task_manager_name : Text
  pub dynamic_block_task : List Text
  pub static_block_task : List Text
  pub console : Text
  pub files : List (Text × Text)

-- The constructor.
pub task_manager : ℕ → Text → TaskManager
task_manager max_task_count name = record {
  dynamic_block_nesting_level = pos 0;
  task_count = 0;
  max_static_task_count = max_task_count;
  stop_flag = false;
  dynamic_block_timestamp = 0;
  static_block_timestamp = 0;
  task_manager_name = name;
  dynamic_block_task = [];
  static_block_task = [];
  console = [];
  files = [];
}

pub is_dynamic_block_active : TaskManager → Bool
is_dynamic_block_active m = ltb_ℤ (pos 0) m.dynamic_block_nesting_level

-- Which of its two vectors `process_tasks` is handed.
pub data Block : Type 0 where
  static_block dynamic_block : Block

abbrev pub block_task : Block → TaskManager → List Text
block_task static_block m = m.static_block_task
block_task dynamic_block m = m.dynamic_block_task

-- `block_task.clear()`
abbrev pub clear : Block → TaskManager → TaskManager
clear static_block m = record m { static_block_task = [] }
clear dynamic_block m = record m { dynamic_block_task = [] }

-- `*timestamp`, where the pointer is chosen by the task count.
pub timestamp : TaskManager → ℕ
timestamp m = if m.task_count == 0 then m.dynamic_block_timestamp else m.static_block_timestamp

-- `*timestamp = {}; task_count = 0`
pub reset_timestamp : TaskManager → TaskManager
reset_timestamp m =
    if m.task_count == 0
    then record m { dynamic_block_timestamp = 0; task_count = 0 }
    else record m { static_block_timestamp = 0; task_count = 0 }

-- The line that both streams of `composite_stream` get.
pub render : Text → List Text → Text
render name block = name ++ bytes ": " ++ join (bytes ", ") block ++ bytes "\n"

-- Writing through `composite_stream`: the same text to `std::cout` and to the open file.
pub write_both : Text → Text → TaskManager → TaskManager
write_both path text m = record m { console = m.console ++ text; files = (path, text) ∷ m.files }

-- One line that `std::getline` yields, with the clock and the file system as it is handled, and
-- whether a signal has asked to `stop` before it is read.
pub record Line : Type 0 where
  pub text : Text
  pub now : ℕ
  pub opens : Text → Bool
  pub stops : Bool

-- `stop`, which the signal handler calls.
pub stop : TaskManager → TaskManager
stop m = record m { stop_flag = true }

module _ (p : Platform) where
  pub log_path : TaskManager → Text
  log_path m =
      p.filename m.task_manager_name ++ p.to_string (p.seconds (timestamp m)) ++ bytes ".log"

  -- `opens path` is whether an `std::ofstream` on that path is open.
  pub process_tasks : (Text → Bool) → Block → TaskManager → TaskManager × ℤ
  unfolding log_path timestamp reset_timestamp write_both
  process_tasks opens b m =
      if is_empty (block_task b m)
      then (m, pos 0)
      else if not (opens (log_path m))
      then (m, negsuc 0)
      else (
        reset_timestamp (
            clear b (
              write_both (log_path m) (render (p.filename m.task_manager_name) (block_task b m))
                m)),
        pos 0,
      )

  -- A `{` line.
  pub open_block : ℕ → (Text → Bool) → TaskManager → TaskManager × ℤ
  unfolding is_dynamic_block_active process_tasks
  open_block now opens m =
      let (m', ret) =
        if is_dynamic_block_active m
        then (m, pos 0)
        else process_tasks opens static_block (record m { dynamic_block_timestamp = now }) in
      (record m' { dynamic_block_nesting_level = m'.dynamic_block_nesting_level +ℤ pos 1 }, ret)

  -- The part of `add_task` below the two brackets: `ret` is what a `}` before it returned.
  pub add_command : ℕ → (Text → Bool) → Text → TaskManager × ℤ → TaskManager × ℤ
  unfolding is_dynamic_block_active process_tasks
  add_command now opens task (m, ret) =
      if is_dynamic_block_active m
      then (record m { dynamic_block_task = snoc m.dynamic_block_task task }, ret)
      else let stamped =
          if m.static_block_timestamp == 0 then record m { static_block_timestamp = now } else m in
        let counted = record stamped {
          static_block_task = snoc stamped.static_block_task task;
          task_count = stamped.task_count + 1;
        } in
        if counted.task_count % counted.max_static_task_count == 0
        then process_tasks opens static_block counted
        else (counted, ret)

  -- A `}` line: one too many is a command.
  pub close_block : ℕ → (Text → Bool) → Text → TaskManager → TaskManager × ℤ
  unfolding is_dynamic_block_active process_tasks add_command
  close_block now opens task m =
      let down = record m {
        dynamic_block_nesting_level = m.dynamic_block_nesting_level -ℤ pos 1;
      } in
      let (m', ret) =
        if is_dynamic_block_active down
        then (down, pos 0)
        else process_tasks opens dynamic_block down in
      if ltb_ℤ m'.dynamic_block_nesting_level (pos 0)
      then add_command now opens task (record m' { dynamic_block_nesting_level = pos 0 }, ret)
      else (m', ret)

  pub add_task : ℕ → (Text → Bool) → Text → TaskManager → TaskManager × ℤ
  unfolding open_block close_block add_command
  add_task now opens task m =
      if text_eq task (bytes "{")
      then open_block now opens m
      else if text_eq task (bytes "}")
      then close_block now opens task m
      else add_command now opens task (m, pos 0)

  -- The loop of `run`, until the stop flag is set or the input ends.
  pub run : List Line → TaskManager → TaskManager
  run [] m = m
  run (l ∷ ls) m =
      let m' = if l.stops then stop m else m in
      let rest = run ls (add_task l.now l.opens l.text m').0 in if m'.stop_flag then m' else rest

  -- The destructor.
  pub finish : (Text → Bool) → TaskManager → TaskManager
  unfolding is_dynamic_block_active process_tasks
  finish opens m = if is_dynamic_block_active m then m else (process_tasks opens static_block m).0

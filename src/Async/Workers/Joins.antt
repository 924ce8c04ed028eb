-- ===== src/Async/Workers/Joins.antt =====
-- HW_9/lib/async.cpp: what the workers have put out when all of them have ended, from the lines of a
-- processor to the console and the files.
use cplus_plus_developer_pro.Prelude.{
  ℕ, ◌≡◌, refl, sym, ap, ◌∙◌, Bool, true, false, some, List, [], ◌∷◌, ◌++◌, if◌then◌else◌, is_empty,
  arith, append-nil,
}
use cplus_plus_developer_pro.Prelude.Text.{Text, bytes, join}
use cplus_plus_developer_pro.Blocks.{blocks}
use cplus_plus_developer_pro.BulkServer.Dynamic.{filled}
use cplus_plus_developer_pro.Async.{OutputTask, Queues, finish, add_lines, task_manager}
use cplus_plus_developer_pro.Async.Refinement.{blocks_of, lines-blocks}
use cplus_plus_developer_pro.Async.Workers.{
  LogFile, Pool, Event, steps, IsJoined, start_workers, commands_line,
}
use cplus_plus_developer_pro.Async.Workers.Conservation.{Then-some, shown, pushed, log_in_order}
use cplus_plus_developer_pro.Async.Workers.Files.{count_files, count_tasks, files_written_once}
use cplus_plus_developer_pro.Async.Workers.Stopping.{stops_last, IsEnding, steps-IsEnding}

abbrev pub no_tasks : Queues
no_tasks = record { log_queue = []; file_queue = [] }

module _ (seconds : ℕ → ℕ) (opens : LogFile → Bool) where
  -- When every worker has ended, in a run in which no task is pushed once the flag is set, the lines of
  -- all tasks are printed in the order in which these were pushed, and, where every file can be opened,
  -- each task with commands has its file, which no other one has replaced.
  pool_drains :
      ((f : LogFile) → opens f ≡ true)
      → (kind : ℕ → ℕ → Text → Bool) (counter : ℕ) (es : List Event) (p' : Pool)
      → stops_last false es ≡ true
      → steps seconds opens es (start_workers false counter no_tasks) ≡ some p'
      → IsJoined p'
      → (p'.output ≡ shown (pushed es))
        × (count_files seconds opens kind p'.files ≡ count_tasks seconds opens kind (pushed es))
  pool_drains all kind counter es p' last run joined =
      let start = start_workers false counter no_tasks in
      let fresh : IsEnding start = record { log = tt; file1 = tt; file2 = tt } in
      let s = Then-some _ p' (steps-IsEnding seconds opens es start last fresh) run in
      let no_logs : p'.queues.log_queue ≡ [] = (rw joined.log at s.log).1 in
      let no_files : p'.queues.file_queue ≡ [] = (rw joined.file1 at s.file1).1 in
      let order = rw (joined.log, no_logs) at (log_in_order seconds opens es start p' run) in
      let once =
        rw (joined.file1, joined.file2, no_files) at
          (files_written_once seconds opens kind all es start p' tt run) in
      (sym (append-nil p'.output) ∙ order, omega (arith, once))

-- The lines of blocks; a block without commands has none.
abbrev pub block_lines : List (List Text) → List Text
block_lines [] = []
block_lines (b ∷ bs) =
    if is_empty b then block_lines bs else (bytes "bulk: " ++ join (bytes ", ") b) ∷ block_lines bs

shown-blocks_of : (ts : List OutputTask) → shown ts ≡ block_lines (blocks_of ts)
unfolding commands_line
shown-blocks_of [] = refl
shown-blocks_of (t ∷ ts) =
    ap (λ ls. if is_empty t.commands then ls else commands_line t ∷ ls) (shown-blocks_of ts)

-- The queues after a new processor was given the lines of a call and was finished.
abbrev pub queues_of : (clock : ℕ → ℕ) (size id : ℕ) → List Text → Queues
queues_of clock size id ls = (finish (add_lines clock 0 ls (task_manager size id, no_tasks))).1

-- The workers are started with no task and with the flag not set, and the tasks that are pushed while
-- they run, all of them before the flag is set, are those that a new processor pushes for the lines it
-- is given and its end. Where every file can be opened, then, when the workers have ended, in whatever
-- order they ran, the log worker has printed the blocks that are promised for the lines that are not
-- empty, in order, a line for each; and the files of each kind (by the second, the context and the
-- text) that are there are as many as the tasks that are to give such a file, whose commands are these
-- blocks: no file has replaced another.
pub received_lines-printed :
    (seconds : ℕ → ℕ) (opens : LogFile → Bool) (clock : ℕ → ℕ) (counter size id : ℕ)
    (ls : List Text) (es : List Event) (p' : Pool)
    → ((f : LogFile) → opens f ≡ true)
    → stops_last false es ≡ true
    → pushed es ≡ (queues_of clock size id ls).log_queue
    → steps seconds opens es (start_workers false counter no_tasks) ≡ some p'
    → IsJoined p'
    → (p'.output ≡ block_lines (blocks size (filled ls)))
      × ((kind : ℕ → ℕ → Text → Bool)
          → count_files seconds opens kind p'.files
            ≡ count_tasks seconds opens kind (queues_of clock size id ls).log_queue)
      × (blocks_of (queues_of clock size id ls).log_queue ≡ blocks size (filled ls))
received_lines-printed seconds opens clock counter size id ls es p' all last given run joined =
    let every : ℕ → ℕ → Text → Bool = λ s c t. true in
    let (printed, rest) = pool_drains seconds opens all every counter es p' last run joined in
    let (logged, filed) = lines-blocks clock size id ls no_tasks in
    (
      printed
          ∙ ap shown given
          ∙ shown-blocks_of (queues_of clock size id ls).log_queue
          ∙ ap block_lines logged,
      λ kind.
          (pool_drains seconds opens all kind counter es p' last run joined).1
          ∙ ap (count_tasks seconds opens kind) given,
      logged,
    )

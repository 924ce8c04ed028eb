-- ===== src/Async/Tests.antt =====
-- The library of HW_9/lib/async.cpp on concrete inputs.
use cplus_plus_developer_pro.Prelude.{ℕ, ◌≡◌, refl, true, ◌++◌, List, [], ◌∷◌}
use cplus_plus_developer_pro.Prelude.Text.{Text, bytes}
use cplus_plus_developer_pro.Async.{
  Queues, Library, initial, finish, task_manager, disconnect, connect, init_threads, stop_threads,
  finish_in, add_lines, is_dynamic_block_active,
}
use cplus_plus_developer_pro.Blocks.{blocks}
use cplus_plus_developer_pro.BulkServer.Dynamic.{filled}
use cplus_plus_developer_pro.Async.Refinement.{blocks_of, lines-blocks}
use cplus_plus_developer_pro.Async.Restart.{connects, disconnects, calls, call}

abbrev some_lines : List Text
some_lines =
    bytes "a"
    ∷ []
    ∷ bytes "b"
    ∷ bytes "{"
    ∷ bytes "c"
    ∷ bytes "{"
    ∷ bytes "d"
    ∷ bytes "}"
    ∷ bytes "}"
    ∷ bytes "e"
    ∷ []

abbrev no_tasks : Queues
no_tasks = record { log_queue = []; file_queue = [] }

abbrev clock : ℕ → ℕ
clock n = n

-- A library whose only connection was closed.
abbrev stopped : Library
stopped = calls (connects 3 16 ∷ disconnects 16 ∷ []) initial

stopped-terminated : stopped.should_terminate ≡ true
unfolding calls call connect disconnect init_threads stop_threads finish_in finish
    is_dynamic_block_active task_manager
stopped-terminated = refl

-- The workers that a later `connect` starts find the flag set.
restarted : (calls (connects 3 32 ∷ []) stopped).threads_initialized ≡ true
unfolding calls call connect disconnect init_threads stop_threads finish_in finish
    is_dynamic_block_active task_manager
restarted = refl

abbrev given : Queues
given = (finish (add_lines clock 0 some_lines (task_manager 2 7, no_tasks))).1

lines-blocks_example :
    (blocks_of given.log_queue ≡ [] ++ blocks 2 (filled some_lines))
    × (blocks_of given.file_queue ≡ [] ++ blocks 2 (filled some_lines))
lines-blocks_example = lines-blocks clock 2 7 some_lines no_tasks

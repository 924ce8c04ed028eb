-- ===== src/BulkServer/Tests.antt =====
-- The bulk server at concrete connections.
use cplus_plus_developer_pro.Prelude.{
  ℕ, ◌+◌, ◌≡◌, refl, true, some, List, [], ◌∷◌, ◌++◌, snoc, if◌then◌else◌,
}
use cplus_plus_developer_pro.Prelude.Int.{pos}
use cplus_plus_developer_pro.Prelude.Text.{Text, bytes, text_eq}
use cplus_plus_developer_pro.Blocks.Nesting.{Balanced}
use cplus_plus_developer_pro.BulkServer.{Manager, Context, Server, initial, process_commands}
use cplus_plus_developer_pro.BulkServer.Lines.{lines}
use cplus_plus_developer_pro.BulkServer.Dynamic.{tasks_of, dynamic_block}
use cplus_plus_developer_pro.BulkServer.Lifecycle.{
  IsServing, Call, connects, receives, disconnects, calls, calls-IsServing,
}
use cplus_plus_developer_pro.BulkServer.Network.{
  eof, start, leave, read_rest, handle_read, Event, arrives, reads, event, events,
}
use cplus_plus_developer_pro.BulkServer.Network.Sessions.{
  joined, arrived, relayed, unfinished, handle_read_lem,
}

abbrev manager : Manager
manager = record {
  static_block_timestamp = 5;
  max_static_task_count = 3;
  static_block_task = bytes "cmd1" ∷ [];
}

abbrev fresh : Context
fresh = record {
  dynamic_block_nesting_level = pos 0;
  dynamic_block_timestamp = 0;
  id = 4;
  dynamic_block_task = [];
}

abbrev server : Server
server = record initial {
  shared_task_manager = some manager;
  contexts = (1, fresh) ∷ [];
  threads_initialized = true;
}

abbrev clock : ℕ → ℕ
clock n = n + 10

abbrev body : List Text
body = bytes "cmd2" ∷ bytes "{" ∷ [] ∷ bytes "cmd3" ∷ bytes "}" ∷ []

body-Balanced : Balanced body
unfolding text_eq
body-Balanced =
    Balanced.command (refl, refl)
      (Balanced.nested (Balanced.command (refl, refl) (Balanced.command (refl, refl) Balanced.done))
        Balanced.done refl)

dynamic_block_example :
    let (c', s') =
      process_commands clock 0 (bytes "{" ∷ (body ++ bytes "}" ∷ [])) (fresh, server) in
    let out =
      tasks_of (bytes "cmd1" ∷ []) 5 0 ++ tasks_of (bytes "cmd2" ∷ bytes "cmd3" ∷ []) 10 4 in
    (s'.log_queue ≡ out)
    × (s'.file_queue ≡ out)
    × (s'.shared_task_manager ≡ some (record manager { static_block_task = [] }))
    × (c'.dynamic_block_nesting_level ≡ pos 0)
    × (c'.dynamic_block_task ≡ [])
unfolding text_eq
dynamic_block_example = dynamic_block clock 0 fresh manager server body-Balanced refl refl refl

abbrev history : List Call
history = connects 3 1 ∷ receives clock 1 (bytes "cmd1\ncmd2") ∷ disconnects 1 ∷ connects 2 1 ∷ []

calls-IsServing_example : IsServing (calls history initial)
calls-IsServing_example = calls-IsServing history

split_lines : lines (bytes "a\n\nbc") ≡ bytes "a" ∷ [] ∷ bytes "bc" ∷ []
unfolding lines
split_lines = refl

-- A line in two pieces, and a last one without a newline.
abbrev stream : List Event
stream = arrives (bytes "cm") ∷ arrives (bytes "d1" ++ 10 ∷ bytes "cmd2") ∷ reads 5 ∷ []

handle_read_lem_example :
    let s = events clock stream (start 3 7) in
    let last = handle_read clock eof 0 s in
    (parts : List Text) × (last.calls ≡ connects 3 7 ∷ snoc (relayed clock 7 parts) (disconnects 7))
    × (joined parts ≡ (if unfinished s.buffer then snoc (arrived stream) 10 else arrived stream))
    × (leave clock last ≡ last)
handle_read_lem_example = handle_read_lem clock 3 7 stream refl

two_reads :
    (handle_read clock eof 0 (events clock stream (start 3 7))).calls
    ≡ connects 3 7
      ∷ receives clock 7 (bytes "cmd1" ++ 10 ∷ [])
      ∷ receives clock 7 (bytes "cmd2" ++ 10 ∷ [])
      ∷ disconnects 7
      ∷ []
unfolding handle_read events event start leave read_rest
two_reads = refl

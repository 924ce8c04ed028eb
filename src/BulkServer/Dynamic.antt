-- ===== src/BulkServer/Dynamic.antt =====
-- Dynamic blocks of HW_10/lib/async.cpp: what a connection's brackets put into the queues.
use native.Mathlib.Nat.{add-zero}
use cplus_plus_developer_pro.Prelude.{
  length-append, ℕ, suc, ◌+◌, ◌≡◌, refl, sym, ap, ◌∙◌, some, List, [], ◌∷◌, ◌++◌, if◌then◌else◌,
  length, is_empty, append-nil, append_assoc, arith,
}
use cplus_plus_developer_pro.Prelude.Int.{pos, pos-add-one, pos-sub-one}
use cplus_plus_developer_pro.Prelude.Text.{Text, text_eq}
use cplus_plus_developer_pro.Blocks.Laws.{IsPlain}
use cplus_plus_developer_pro.Blocks.Nesting.{
  Balanced, done, command, nested, commands_of, commands_of-append, open_line, close_line,
}
use cplus_plus_developer_pro.BulkServer.{
  OutputTask, Manager, Context, Server, process_tasks, manager_finish, finish_shared, flush_dynamic,
  process_open, process_close, process_plain, process_command, process_commands,
}

-- Commands but for the empty ones, which this processor skips.
abbrev pub filled : List Text → List Text
filled [] = []
filled (t ∷ ts) = if is_empty t then filled ts else t ∷ filled ts

filled-append : (ts us : List Text) → filled (ts ++ us) ≡ filled ts ++ filled us
filled-append [] us = refl
filled-append (t ∷ ts) us = ground (arith, filled-append ts us)

-- A context at a depth, with commands stored.
abbrev at : Context → ℕ → List Text → Context
at c depth cmds = record c { dynamic_block_nesting_level = pos depth; dynamic_block_task = cmds }

add-suc-one : (n k : ℕ) → n + 1 + k ≡ n + suc k
add-suc-one n k = omega arith

regroup : (n k l : ℕ) → n + 1 + k + 1 + l ≡ n + suc (k + suc l)
regroup n k l = omega arith

module _ (clock : ℕ → ℕ) where
  inside-plain :
      (now : ℕ) (t : Text) (c : Context) (d : ℕ) (cmds : List Text) (s : Server)
      → IsPlain t
      → process_command now t (at c (suc d) cmds, s) ≡ (at c (suc d) (cmds ++ filled (t ∷ [])), s)
  unfolding process_command process_plain
  inside-plain now t c d cmds s h = ground (arith, append-nil cmds)

  inside-open :
      (now : ℕ) (c : Context) (d : ℕ) (cmds : List Text) (s : Server)
      → process_command now open_line (at c (suc d) cmds, s) ≡ (at c (suc (suc d)) cmds, s)
  unfolding process_command process_open text_eq
  inside-open now c d cmds s = ground (arith, pos-add-one (suc d))

  inside-close :
      (now : ℕ) (c : Context) (d : ℕ) (cmds : List Text) (s : Server)
      → process_command now close_line (at c (suc (suc d)) cmds, s) ≡ (at c (suc d) cmds, s)
  unfolding process_command process_close text_eq
  inside-close now c d cmds s = ground (arith, pos-sub-one (suc (suc d)))

  process_commands-cons :
      (n : ℕ) (t : Text) (ts : List Text) (cs : Context × Server) {cs' : Context × Server}
      → process_command (clock n) t cs ≡ cs'
      → process_commands clock n (t ∷ ts) cs ≡ process_commands clock (n + 1) ts cs'
  unfolding process_commands
  process_commands-cons n t ts cs e = ap (process_commands clock (n + 1) ts) e

  -- Within a block, balanced lines add their commands and put nothing into the queues.
  inside-Balanced :
      {body : List Text} (n : ℕ) (rest : List Text) (c : Context) (d : ℕ) (cmds : List Text)
      (s : Server)
      → Balanced body
      → process_commands clock n (body ++ rest) (at c (suc d) cmds, s)
        ≡ process_commands clock
            (n + length body)
            rest
            (at c (suc d) (cmds ++ filled (commands_of body)), s)
  unfolding text_eq
  inside-Balanced n rest c d cmds s done = rw (append-nil cmds, add-zero n)
  inside-Balanced n rest c d cmds s (command {t} {ts} h b) =
      process_commands-cons n t (ts ++ rest) (at c (suc d) cmds, s)
        (inside-plain (clock n) t c d cmds s h)
      ∙ inside-Balanced (n + 1) rest c d (cmds ++ filled (t ∷ [])) s b
      ∙ rw (
        append_assoc cmds (filled (t ∷ [])) (filled (commands_of ts)),
        ← filled-append (t ∷ []) (commands_of ts),
        h.0,
        h.1,
        add-suc-one n (length ts),
      )
  inside-Balanced n rest c d cmds s (nested {ts} {us} b b' e) =
      rw (e, append_assoc ts (close_line ∷ us) rest)
        (process_commands-cons n open_line (ts ++ close_line ∷ (us ++ rest)) (at c (suc d) cmds, s)
            (inside-open (clock n) c d cmds s)
          ∙ inside-Balanced (n + 1) (close_line ∷ (us ++ rest)) c (suc d) cmds s b
          ∙ process_commands-cons (n + 1 + length ts) close_line (us ++ rest) _
              (inside-close (clock (n + 1 + length ts)) c d (cmds ++ filled (commands_of ts)) s)
          ∙ inside-Balanced (n + 1 + length ts + 1) rest c d (cmds ++ filled (commands_of ts)) s b'
          ∙ rw (
            commands_of-append ts (close_line ∷ us),
            filled-append (commands_of ts) (commands_of us),
            append_assoc cmds (filled (commands_of ts)) (filled (commands_of us)),
            length-append ts (close_line ∷ us),
            regroup n (length ts) (length us),
          ))

  outer-open :
      (now : ℕ) (c : Context) (s : Server)
      → process_command now open_line (at c 0 [], s) ≡ (
        at (record c { dynamic_block_timestamp = now }) 1 [],
        finish_shared s.shared_task_manager s,
      )
  unfolding process_command process_open text_eq
  outer-open now c s = ground (arith, pos-add-one 0)

  outer-close :
      (now : ℕ) (c : Context) (cmds : List Text) (m : Manager) (s : Server)
      → s.shared_task_manager ≡ some m
      → process_command now close_line (at c 1 cmds, s)
        ≡ (at c 0 [], process_tasks cmds c.dynamic_block_timestamp c.id s)
  unfolding process_command process_close flush_dynamic text_eq
  outer-close now c cmds m s e = ground (arith, pos-sub-one 1)

-- The tasks that a block gives.
abbrev pub tasks_of : List Text → ℕ → ℕ → List OutputTask
tasks_of [] timestamp id = []
tasks_of (t ∷ ts) timestamp id =
    record { timestamp = timestamp; context_id = id; commands = t ∷ ts } ∷ []

process_tasks-queues :
    (block : List Text) (timestamp id : ℕ) (s : Server)
    → ((process_tasks block timestamp id s).log_queue ≡ s.log_queue ++ tasks_of block timestamp id)
      × ((process_tasks block timestamp id s).file_queue
          ≡ s.file_queue ++ tasks_of block timestamp id)
      × ((process_tasks block timestamp id s).shared_task_manager ≡ s.shared_task_manager)
unfolding process_tasks
process_tasks-queues [] timestamp id s =
    (sym (append-nil s.log_queue), sym (append-nil s.file_queue), refl)
process_tasks-queues (t ∷ ts) timestamp id s = (refl, refl, refl)

pub manager_finish-queues :
    (m : Manager) (s : Server)
    → s.shared_task_manager ≡ some m
    → let out = tasks_of m.static_block_task m.static_block_timestamp 0 in
      let s' = manager_finish m s in
      (s'.log_queue ≡ s.log_queue ++ out)
      × (s'.file_queue ≡ s.file_queue ++ out)
      × (s'.shared_task_manager ≡ some (record m { static_block_task = [] }))
unfolding manager_finish
manager_finish-queues m s e = ground (
  arith,
  process_tasks-queues m.static_block_task m.static_block_timestamp 0
      (record s { shared_task_manager = some (record m { static_block_task = [] }) }),
  append-nil s.log_queue,
  append-nil s.file_queue,
)

finish_shared-some :
    (m : Manager) (s : Server)
    → s.shared_task_manager ≡ some m
    → finish_shared s.shared_task_manager s ≡ manager_finish m s
unfolding finish_shared
finish_shared-some m s e = ground arith

process_block :
    (clock : ℕ → ℕ) (n : ℕ) {body : List Text} (c : Context) (m : Manager) (s : Server)
    → Balanced body
    → s.shared_task_manager ≡ some m
    → process_commands clock n (open_line ∷ (body ++ close_line ∷ [])) (at c 0 [], s) ≡ (
      at (record c { dynamic_block_timestamp = clock n }) 0 [],
      process_tasks (filled (commands_of body)) (clock n) c.id (manager_finish m s),
    )
unfolding process_commands
process_block clock n {body} c m s b e =
    process_commands-cons clock n open_line (body ++ close_line ∷ []) (at c 0 [], s)
      (outer-open clock (clock n) c s)
    ∙ rw (finish_shared-some m s e) (
        inside-Balanced clock (n + 1) (close_line ∷ []) stamped 0 [] (manager_finish m s) b
        ∙ process_commands-cons clock (n + 1 + length body) close_line [] _ (
            outer-close clock (clock (n + 1 + length body)) stamped (filled (commands_of body))
              (record m { static_block_task = [] }) (manager_finish m s)
              (manager_finish-queues m s e).2))
  where
    stamped : Context
    stamped = record c { dynamic_block_timestamp = clock n }

-- A connection outside any block that sends a bracketed block puts two tasks into both queues: the
-- commands pending in the shared manager, if there are any, and then all its own commands as
-- one block under its own id, stamped with the time of the `{`; the brackets inside are skipped
-- however deep they nest, and so are empty lines. The connection is then outside again, and
-- the shared manager holds nothing.
pub dynamic_block :
    (clock : ℕ → ℕ) (n : ℕ) {body : List Text} (c : Context) (m : Manager) (s : Server)
    → Balanced body
    → c.dynamic_block_nesting_level ≡ pos 0
    → c.dynamic_block_task ≡ []
    → s.shared_task_manager ≡ some m
    → let (c', s') = process_commands clock n (open_line ∷ (body ++ close_line ∷ [])) (c, s) in
      let out =
        tasks_of m.static_block_task m.static_block_timestamp 0
        ++ tasks_of (filled (commands_of body)) (clock n) c.id in
      (s'.log_queue ≡ s.log_queue ++ out)
      × (s'.file_queue ≡ s.file_queue ++ out)
      × (s'.shared_task_manager ≡ some (record m { static_block_task = [] }))
      × (c'.dynamic_block_nesting_level ≡ pos 0)
      × (c'.dynamic_block_task ≡ [])
dynamic_block clock n {body} c m s b level task shared =
    let out : Context = at c 0 [] in
    let same : c ≡ out = ground arith in
    rw (same, process_block clock n c m s b shared)
      (
        queues.0 ∙ rw pending.0 (append_assoc s.log_queue first second),
        queues.1 ∙ rw pending.1 (append_assoc s.file_queue first second),
        queues.2 ∙ pending.2,
        refl,
        refl,
      )
  where
    first : List OutputTask
    first = tasks_of m.static_block_task m.static_block_timestamp 0

    second : List OutputTask
    second = tasks_of (filled (commands_of body)) (clock n) c.id

    pending :
        ((manager_finish m s).log_queue ≡ s.log_queue ++ first)
        × ((manager_finish m s).file_queue ≡ s.file_queue ++ first)
        × ((manager_finish m s).shared_task_manager ≡ some (record m { static_block_task = [] }))
    pending = manager_finish-queues m s shared

    queues :
        (let s' = process_tasks (filled (commands_of body)) (clock n) c.id (manager_finish m s) in
          (s'.log_queue ≡ (manager_finish m s).log_queue ++ second)
          × (s'.file_queue ≡ (manager_finish m s).file_queue ++ second)
          × (s'.shared_task_manager ≡ (manager_finish m s).shared_task_manager))
    queues = process_tasks-queues (filled (commands_of body)) (clock n) c.id (manager_finish m s)

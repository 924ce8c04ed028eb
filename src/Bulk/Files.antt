-- ===== src/Bulk/Files.antt =====
-- The log files of HW_7: what a failure to open one leaves behind, and what a second block within
-- one second overwrites.
use cplus_plus_developer_pro.Prelude.{
  ℕ, ◌≡◌, ◌≢◌, ◌⊎◌, Bool, false, Option, none, some, List, [], ◌∷◌, ◌++◌, arith, if◌then◌else◌,
  snoc,
}
use cplus_plus_developer_pro.Prelude.Int.{pos}
use cplus_plus_developer_pro.Prelude.Text.{Text, bytes, text_eq, text_eq_iff}
use cplus_plus_developer_pro.Blocks.Laws.{IsPlain}
use cplus_plus_developer_pro.Bulk.{
  Platform, TaskManager, task_manager, render, add_task, add_command, run,
}
use cplus_plus_developer_pro.Bulk.Refinement.{always, undisturbed}

-- No log file can be opened.
abbrev pub never : Text → Bool
never path = false

-- The contents of a path.
abbrev pub contents : Text → List (Text × Text) → Option Text
contents path [] = none
contents path ((q, text) ∷ files) = if text_eq q path then some text else contents path files

abbrev stored : TaskManager → List Text
stored m = m.static_block_task ++ m.dynamic_block_task

add_task-plain :
    (p : Platform) (now : ℕ) (opens : Text → Bool) (task : Text) (m : TaskManager)
    → IsPlain task
    → add_task p now opens task m ≡ add_command p now opens task (m, pos 0)
unfolding add_task
add_task-plain p now opens task m h = rw (h.0, h.1)

-- While no log file can be opened a command that is no bracket is only stored: nothing is printed or
-- written, and the block that could not be written stays where it was, with the new command at its
-- end.
add_task-never :
    (p : Platform) (now : ℕ) (task : Text) (m : TaskManager)
    → IsPlain task
    → let m' = (add_task p now never task m).0 in
      (m'.console ≡ m.console)
      × (m'.files ≡ m.files)
      × (((m'.static_block_task ≡ snoc m.static_block_task task)
            × (m'.dynamic_block_task ≡ m.dynamic_block_task))
          ⊎ ((m'.static_block_task ≡ m.static_block_task)
              × (m'.dynamic_block_task ≡ snoc m.dynamic_block_task task)))
unfolding add_command
add_task-never p now task m h = rw (add_task-plain p now never task m h) (ground arith)

abbrev pub log_name : Platform → Text → ℕ → Text
log_name p name now = p.filename name ++ p.to_string (p.seconds now) ++ bytes ".log"

-- A manager with blocks of one command, between two commands.
abbrev idle : Text → Text → List (Text × Text) → TaskManager
idle name console files = record (task_manager 1 name) { console = console; files = files }

add_task-idle :
    (p : Platform) (name t : Text) (now : ℕ) (console : Text) (files : List (Text × Text))
    → IsPlain t
    → (add_task p now always t (idle name console files)).0
      ≡ idle name
          (console ++ render (p.filename name) (t ∷ []))
          ((log_name p name now, render (p.filename name) (t ∷ [])) ∷ files)
unfolding add_command task_manager
add_task-idle p name t now console files h =
    rw (add_task-plain p now always t (idle name console files) h)

add_two :
    (p : Platform) (name t u : Text) (now later : ℕ)
    → IsPlain t
    → IsPlain u
    → (run p (undisturbed ((t, now) ∷ (u, later) ∷ [])) (task_manager 1 name)).files
      ≡ (log_name p name later, render (p.filename name) (u ∷ []))
        ∷ (log_name p name now, render (p.filename name) (t ∷ []))
        ∷ []
unfolding run task_manager
add_two p name t u now later ht hu = simp (
  add_task-idle p name t now [] [] ht,
  add_task-idle p name u later (render (p.filename name) (t ∷ []))
      ((log_name p name now, render (p.filename name) (t ∷ [])) ∷ []) hu,
)

-- Two blocks that are started within one second share a log file, and only the second one is in it:
-- after two commands without brackets in blocks of one command, that file holds the second one's
-- block, and there is no other file.
pub same_second_overwrites :
    (p : Platform) (name t u : Text) (now later : ℕ)
    → IsPlain t
    → IsPlain u
    → p.seconds later ≡ p.seconds now
    → let m = run p (undisturbed ((t, now) ∷ (u, later) ∷ [])) (task_manager 1 name) in
      (contents (log_name p name now) m.files ≡ some (render (p.filename name) (u ∷ [])))
      × ((path : Text) → path ≢ log_name p name now → contents path m.files ≡ none)
same_second_overwrites p name t u now later ht hu same =
    rw (add_two p name t u now later ht hu, same)
      (
        ground (arith, text_eq_iff (log_name p name now) (log_name p name now)),
        λ path ne. ground (arith, text_eq_iff (log_name p name now) path),
      )

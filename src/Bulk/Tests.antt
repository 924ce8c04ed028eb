-- ===== src/Bulk/Tests.antt =====
-- The examples of HW_7/README.md, and the theorems at concrete inputs.
use cplus_plus_developer_pro.Prelude.{
  ℕ, zero, suc, ◌/◌, ◌≡◌, ◌≢◌, none, some, refl, List, [], ◌∷◌, arith,
}
use cplus_plus_developer_pro.Prelude.Int.{◌+ℤ◌, ◌-ℤ◌}
use cplus_plus_developer_pro.Prelude.Text.{Text, bytes, text_eq, join}
use cplus_plus_developer_pro.Blocks.{blocks}
use cplus_plus_developer_pro.Blocks.Nesting.{Balanced}
use cplus_plus_developer_pro.Bulk.{
  Platform, TaskManager, task_manager, add_task, render, run, finish,
}
use cplus_plus_developer_pro.Bulk.Refinement.{always, undisturbed, texts, printed, session-blocks}
use cplus_plus_developer_pro.Bulk.Sessions.{session}
use cplus_plus_developer_pro.Bulk.Files.{log_name, contents, same_second_overwrites}

-- A platform whose seconds are tens of ticks, printed in unary.
abbrev strokes : ℕ → Text
strokes zero = []
strokes (suc n) = b'|' ∷ strokes n

abbrev platform : Platform
platform = record { filename = λ name. name; seconds = λ t. t / 10; to_string = strokes }

abbrev plain_lines : List (Text × ℕ)
plain_lines =
    (bytes "cmd1", 1)
    ∷ (bytes "cmd2", 2)
    ∷ (bytes "cmd3", 3)
    ∷ (bytes "cmd4", 4)
    ∷ (bytes "cmd5", 5)
    ∷ []

abbrev dynamic_lines : List (Text × ℕ)
dynamic_lines =
    (bytes "{", 1)
    ∷ (bytes "cmd5", 2)
    ∷ (bytes "{", 3)
    ∷ (bytes "cmd7", 4)
    ∷ (bytes "}", 5)
    ∷ (bytes "cmd9", 6)
    ∷ (bytes "}", 7)
    ∷ plain_lines

session_plain :
    session platform 3 (bytes "bulk") plain_lines
    ≡ bytes "bulk: cmd1, cmd2, cmd3\nbulk: cmd4, cmd5\n"
unfolding run finish add_task task_manager render join text_eq ◌+ℤ◌ ◌-ℤ◌
session_plain = refl

session_nested :
    session platform 3 (bytes "bulk") dynamic_lines
    ≡ bytes "bulk: cmd5, cmd7, cmd9\nbulk: cmd1, cmd2, cmd3\nbulk: cmd4, cmd5\n"
unfolding run finish add_task task_manager render join text_eq ◌+ℤ◌ ◌-ℤ◌
session_nested = refl

session-blocks_example :
    (finish platform always
      (run platform (undisturbed dynamic_lines) (task_manager 3 (bytes "bulk")))).console
    ≡ printed (bytes "bulk") (blocks 3 (texts dynamic_lines))
session-blocks_example = session-blocks platform 3 (bytes "bulk") dynamic_lines (omega arith)

nested_body : Balanced (bytes "cmd5" ∷ bytes "{" ∷ bytes "cmd7" ∷ bytes "}" ∷ bytes "cmd9" ∷ [])
unfolding text_eq
nested_body =
    Balanced.command (refl, refl)
      (Balanced.nested (Balanced.command (refl, refl) Balanced.done)
        (Balanced.command (refl, refl) Balanced.done) refl)

abbrev within_one_second : TaskManager
within_one_second =
    run platform (undisturbed ((bytes "cmd1", 11) ∷ (bytes "cmd2", 12) ∷ []))
      (task_manager 1 (bytes "bulk"))

same_second_overwrites_example :
    (contents (log_name platform (bytes "bulk") 11) within_one_second.files
      ≡ some (render (bytes "bulk") (bytes "cmd2" ∷ [])))
    × ((path : Text)
        → path ≢ log_name platform (bytes "bulk") 11
        → contents path within_one_second.files ≡ none)
unfolding text_eq
same_second_overwrites_example =
    same_second_overwrites platform (bytes "bulk") (bytes "cmd1") (bytes "cmd2") 11 12 (refl, refl)
      (refl, refl) refl

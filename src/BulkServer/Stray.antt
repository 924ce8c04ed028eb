-- ===== src/BulkServer/Stray.antt =====
-- A `}` with no block open, in HW_10/lib/async.cpp. HW_7 and HW_9 take it for a command.
use cplus_plus_developer_pro.Prelude.{ℕ, ◌+◌, ◌≡◌, refl, false, [], ◌∷◌, is_empty, arith}
use cplus_plus_developer_pro.Prelude.Int.{ℤ, pos, negsuc, ◌+ℤ◌, ◌-ℤ◌}
use cplus_plus_developer_pro.Prelude.Text.{Text, text_eq}
use cplus_plus_developer_pro.Blocks.Laws.{IsPlain}
use cplus_plus_developer_pro.Blocks.Nesting.{open_line, close_line}
use cplus_plus_developer_pro.BulkServer.{
  Context, Server, add_shared, process_open, process_close, process_plain, process_command,
  process_commands,
}

module _ (c : Context) (s : Server) where
  abbrev level : ℤ → Context
  level l = record c { dynamic_block_nesting_level = l }

  close_line-outside :
      (now : ℕ) → process_command now close_line (level (pos 0), s) ≡ (level (negsuc 0), s)
  unfolding process_command process_close text_eq ◌-ℤ◌
  close_line-outside now = refl

  open_line-below :
      (now : ℕ) → process_command now open_line (level (negsuc 0), s) ≡ (level (pos 0), s)
  unfolding process_command process_open text_eq ◌+ℤ◌
  open_line-below now = refl

  plain-outside :
      (now : ℕ) (cmd : Text)
      → IsPlain cmd
      → is_empty cmd ≡ false
      → process_command now cmd (level (pos 0), s)
        ≡ (level (pos 0), add_shared now cmd s.shared_task_manager s)
  unfolding process_command process_plain
  plain-outside now cmd h n = rw (h.0, h.1, n)

-- When a connection outside any block sends a `}` and then a block of one command, the block is no
-- block: its `{` flushes nothing, its command goes to the shared manager like one outside, and
-- after its `}` the level of the connection is -1.
stray_close :
    (clock : ℕ → ℕ) (n : ℕ) (cmd : Text) (c : Context) (s : Server)
    → c.dynamic_block_nesting_level ≡ pos 0
    → IsPlain cmd
    → is_empty cmd ≡ false
    → process_commands clock n (close_line ∷ open_line ∷ cmd ∷ close_line ∷ []) (c, s) ≡ (
      record c { dynamic_block_nesting_level = negsuc 0 },
      add_shared (clock (n + 1 + 1)) cmd s.shared_task_manager s,
    )
unfolding process_commands
stray_close clock n cmd c s e h f =
    let same : c ≡ level c s (pos 0) = ground arith in
    rw same (
      rw (
        close_line-outside c s (clock n),
        open_line-below c s (clock (n + 1)),
        plain-outside c s (clock (n + 1 + 1)) cmd h f,
        close_line-outside c (add_shared (clock (n + 1 + 1)) cmd s.shared_task_manager s)
            (clock (n + 1 + 1 + 1)),
      ))

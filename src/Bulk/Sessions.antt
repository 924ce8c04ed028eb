-- ===== src/Bulk/Sessions.antt =====
-- What a session of the HW_7 processor prints, in the terms of HW_7/README.md.
use cplus_plus_developer_pro.Prelude.{ℕ, ◌<◌, ◌≡◌, ap, ◌∙◌, List, [], ◌∷◌, ◌++◌, All}
use cplus_plus_developer_pro.Prelude.Text.{Text}
use cplus_plus_developer_pro.Blocks.{blocks, emit}
use cplus_plus_developer_pro.Blocks.Laws.{IsPlain, IsChunked, concat, blocks-plain}
use cplus_plus_developer_pro.Blocks.Nesting.{
  Balanced, commands_of, open_line, close_line, blocks-Balanced, blocks-unclosed,
}
use cplus_plus_developer_pro.Bulk.{Platform, task_manager, run, finish}
use cplus_plus_developer_pro.Bulk.Refinement.{
  always, printed, printed-append, undisturbed, texts, session-blocks,
}

-- The text on `std::cout` after a session that nothing disturbs.
abbrev pub session : Platform → ℕ → Text → List (Text × ℕ) → Text
session p size name ls = (finish p always (run p (undisturbed ls) (task_manager size name))).console

-- With a positive size, in a session that nothing disturbs, commands without brackets are printed in
-- blocks of exactly `size`, the last one of at most `size` at the end of the input, and no command is
-- lost, repeated or moved.
session-static :
    (p : Platform) (size : ℕ) (name : Text) (ls : List (Text × ℕ))
    → 0 < size
    → All IsPlain (texts ls)
    → (bs : List (List Text)) × (session p size name ls ≡ printed (p.filename name) bs)
      × IsChunked size bs
      × (concat bs ≡ texts ls)
session-static p size name ls positive h =
    let cut = blocks-plain size (texts ls) positive h in
    (blocks size (texts ls), session-blocks p size name ls positive, cut.0, cut.1)

-- In a session that nothing disturbs, a dynamic block at the start of the input is printed as one
-- block of all its commands, however deep its brackets nest and whatever the positive size is, and
-- the rest of the input as if it stood alone.
session-dynamic :
    (p : Platform) (size : ℕ) (name : Text) (ls rest : List (Text × ℕ)) {body : List Text}
    → 0 < size
    → Balanced body
    → texts ls ≡ open_line ∷ (body ++ close_line ∷ texts rest)
    → session p size name ls
      ≡ printed (p.filename name) (emit (commands_of body)) ++ session p size name rest
session-dynamic p size name ls rest {body} positive b e =
    session-blocks p size name ls positive
    ∙ ap (printed (p.filename name)) (ap (blocks size) e ∙ blocks-Balanced size (texts rest) b)
    ∙ rw (session-blocks p size name rest positive)
        (printed-append (p.filename name) (emit (commands_of body)) (blocks size (texts rest)))

-- With a positive size, a session that nothing disturbs prints nothing when its input is a dynamic
-- block that the end of the input leaves open.
session-unclosed :
    (p : Platform) (size : ℕ) (name : Text) (ls : List (Text × ℕ)) {body : List Text}
    → 0 < size
    → Balanced body
    → texts ls ≡ open_line ∷ body
    → session p size name ls ≡ []
session-unclosed p size name ls positive b e =
    session-blocks p size name ls positive
    ∙ ap (printed (p.filename name)) (ap (blocks size) e ∙ blocks-unclosed size b)

-- ===== src/BulkServer/Lines.antt =====
-- `std::getline` over an `std::istringstream`, called until it fails: the lines of a text.
use cplus_plus_developer_pro.Prelude.{
  true, false, List, [], ◌∷◌, ◌==◌, is_empty, snoc, if◌then◌else◌,
}
use cplus_plus_developer_pro.Prelude.Text.{Text}

-- What is read of the current line, and the rest of the text. The end of the text ends a line that
-- has a character.
pub lines_from : Text → Text → List Text
lines_from line [] = if is_empty line then [] else line ∷ []
lines_from line (c ∷ cs) = elim (c == b'\n') [
  | true ↦ line ∷ lines_from [] cs
  | false ↦ lines_from (snoc line c) cs
]

unfoldable pub lines : Text → List Text
unfolding lines_from
lines input = lines_from [] input

-- ===== src/Matrix/Tests.antt =====
-- The matrix at concrete cells, as in HW_6/test/matrix_test.cpp.
use cplus_plus_developer_pro.Prelude.{
  ℕ, ◌<◌, false, some, ◌++◌, ◌≡◌, refl, [], ◌∷◌, if◌then◌else◌, ==_iff, ◌==◌,
}
use cplus_plus_developer_pro.Prelude.Int.{ℤ, pos}
use cplus_plus_developer_pro.Prelude.Text.{Text, bytes}
use cplus_plus_developer_pro.Matrix.{Eq, Coords, same_coords, Matrix, size, assign, read}
use cplus_plus_developer_pro.Matrix.Iteration.{end, deref, cell_at, format}
use cplus_plus_developer_pro.Matrix.Visits.{lines_of, iteration_lem}
use cplus_plus_developer_pro.Matrix.Cells.{IsSparse, read-assign}

instance abbrev number_eq : Eq ℕ
number_eq = record { beq = λ a b. a == b; beq_iff = ==_iff }

abbrev corner : Coords
corner = record { row = pos 100; col = pos 100 }

abbrev cells : Matrix ℕ
cells = (corner, 314) ∷ []

cells-IsSparse : IsSparse 0 cells
cells-IsSparse = ((refl, tt), (refl, tt))

read-assign_example :
    read 0 corner (assign 0 corner 0 cells)
    ≡ (if same_coords corner corner then 0 else read 0 corner cells)
read-assign_example = read-assign 0 corner corner 0 cells cells-IsSparse

freed : size (assign 0 corner 0 cells) ≡ 0
unfolding size assign same_coords
freed = refl

abbrev letter : ℤ → Text
letter z = bytes "n"

abbrev mark : ℕ → Text
mark v = bytes "v"

iteration_lem_example :
    ((it : ℕ)
      → it < end cells
      → (row : ℤ) × (col : ℤ) × (deref cells it ≡ some (row, col, read 0 (cell_at row col) cells))
        × (number_eq.beq (read 0 (cell_at row col) cells) 0 ≡ false))
    × ((row col : ℤ)
        → number_eq.beq (read 0 (cell_at row col) cells) 0 ≡ false
        → (it : ℕ) × (it < end cells)
          × (deref cells it ≡ some (row, col, read 0 (cell_at row col) cells)))
    × (format letter mark cells [] ≡ some ([] ++ lines_of letter mark cells))
iteration_lem_example = iteration_lem 0 letter mark cells [] cells-IsSparse

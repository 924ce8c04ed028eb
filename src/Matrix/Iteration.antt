-- ===== src/Matrix/Iteration.antt =====
-- HW_6/include/matrix.hpp: the rows, the iterators and the formatters. An iterator is a place in the
-- unordered map, whose order is that of the list; past its end it has no cell. The formats of the
-- numbers and of the values are a parameter.
use cplus_plus_developer_pro.Prelude.{
  ℕ, zero, suc, ◌+◌, Bool, not, Option, none, some, ◌++◌, ◌==◌, if◌then◌else◌, length, get_elem?,
}
use cplus_plus_developer_pro.Prelude.Int.{ℤ}
use cplus_plus_developer_pro.Prelude.Text.{Text, bytes}
use cplus_plus_developer_pro.Matrix.{Eq, Coords, Matrix, size, read}

-- `Matrix::operator[]` gives a row, and its `operator[]` a cell.
abbrev pub cell_at : (row col : ℤ) → Coords
cell_at row col = record { row = row; col = col }

-- `operator!=` and `operator++`
abbrev pub differs : ℕ → ℕ → Bool
differs a b = not (a == b)

abbrev pub next : ℕ → ℕ
next it = it + 1

module _ {ℓ} {T : Type ℓ} where
  abbrev pub begin : Matrix T → ℕ
  begin m = 0

  abbrev pub end : Matrix T → ℕ
  end m = length m

  -- `operator*`
  abbrev pub cell_of : Coords × T → ℤ × ℤ × T
  cell_of (k, v) = (k.row, k.col, v)

  unfoldable pub deref : Matrix T → ℕ → Option (ℤ × ℤ × T)
  deref m it = elim (get_elem? m it) [ none ↦ none | some c ↦ some (cell_of c) ]

module _ {ℓ} {T : Type ℓ} (number : ℤ → Text) (value : T → Text) where
  abbrev pub cell_line : ℤ × ℤ × T → Text
  cell_line (row, col, v) =
      number row ++ bytes " " ++ number col ++ bytes " " ++ value v ++ bytes "\n"

  -- The loop of the formatter of a matrix, with what is put out so far.
  unfoldable pub format_from : (fuel : ℕ) → Matrix T → (it : ℕ) → Text → Option Text
  unfolding deref
  format_from zero m it out = none
  format_from (suc fuel) m it out =
      if differs it (end m)
      then (elim (deref m it) [
        | none ↦ none
        | some c ↦ format_from fuel m (next it) (out ++ cell_line c)
      ])
      else some out

  -- The loop ends after as many steps as there are cells.
  unfoldable pub format : Matrix T → Text → Option Text
  unfolding format_from
  format m out = format_from (suc (size m)) m (begin m) out

-- `std::formatter<ProxyCell>`
unfoldable pub format_cell {ℓ} : {T : Type ℓ} ⦃e : Eq T⦄ → (T → Text) → T → Coords → Matrix T → Text
format_cell value default k m = value (read default k m)

-- ===== src/Matrix/Visits.antt =====
-- What an iteration over the matrix of HW_6/include/matrix.hpp visits.
use cplus_plus_developer_pro.Prelude.{
  ℕ, zero, suc, ◌≡◌, ◌<◌, refl, sym, ap, ◌∙◌, true, false, some, [], ◌∷◌, ◌++◌, length, get_elem?,
  arith, Bool-cases, inl, inr, append_assoc, append-nil, length-append, length-snoc, snoc,
  Option-cases, All,
}
use mathlib.Core.Option.{get_or}
use cplus_plus_developer_pro.Prelude.Int.{ℤ}
use cplus_plus_developer_pro.Prelude.Text.{Text}
use cplus_plus_developer_pro.Matrix.{Eq, Coords, same_coords, Matrix, find, size, read}
use cplus_plus_developer_pro.Matrix.Cells.{IsMap, IsSparse, same_coords→eq, same_coords_refl}
use cplus_plus_developer_pro.Matrix.Iteration.{
  cell_at, end, differs, cell_of, deref, cell_line, format_from, format,
}

module _ {ℓ} {T : Type ℓ} where
  -- A cell of the list is the one that is found at its coordinates.
  find-get_elem? :
      (m : Matrix T) (i : ℕ)
      → IsMap m
      → i < length m
      → (k : Coords) × (v : T) × (get_elem? m i ≡ some (k, v)) × (find k m ≡ some v)
  find-get_elem? [] i h below = absurd (omega (arith, below))
  find-get_elem? ((j, w) ∷ m) zero h below = (j, w, refl, rw (same_coords_refl j))
  find-get_elem? ((j, w) ∷ m) (suc i) h below =
      let (k, v, at, found) = find-get_elem? m i h.1 (omega (arith, below)) in
      (
        k,
        v,
        at,
        elim (Bool-cases (same_coords j k)) [
          | inl e ↦ absurd (cc (h.0, found, same_coords→eq j k e))
          | inr e ↦ rw e found
        ],
      )

  -- The place of a cell that is found.
  get_elem?-find :
      (k : Coords) (v : T) (m : Matrix T)
      → find k m ≡ some v
      → (i : ℕ) × (i < length m) × (get_elem? m i ≡ some (k, v))
  get_elem?-find k v [] e = cc e
  get_elem?-find k v ((j, w) ∷ m) e = elim (Bool-cases (same_coords j k)) [
    | inl s ↦ (0, omega arith, cc (same_coords→eq j k s, rw s at e))
    | inr s ↦
        let (i, below, at) = get_elem?-find k v m (rw s at e) in (suc i, omega (arith, below), at)
  ]

module _ {ℓ} {T : Type ℓ} (number : ℤ → Text) (value : T → Text) where
  -- The lines of the cells in order.
  abbrev pub lines_of : Matrix T → Text
  lines_of [] = []
  lines_of (c ∷ m) = cell_line number value (cell_of c) ++ lines_of m

  get_elem?-append :
      (done : Matrix T) (c : Coords × T) (rest : Matrix T)
      → get_elem? (done ++ (c ∷ rest)) (length done) ≡ some c
  get_elem?-append [] c rest = refl
  get_elem?-append (d ∷ done) c rest = get_elem?-append done c rest

  -- The loop when some cells are done.
  format_from-done :
      (done rest : Matrix T) (out : Text)
      → format_from number value (suc (length rest)) (done ++ rest) (length done) out
        ≡ some (out ++ lines_of rest)
  unfolding format_from deref
  format_from-done done [] out =
      let stays : differs (length done) (length (done ++ [])) ≡ false =
        ground (arith, length-append done []) in
      rw (format_from, stays, append-nil out)
  format_from-done done (c ∷ rest) out =
      let line = cell_line number value (cell_of c) in
      let goes : differs (length done) (length (done ++ (c ∷ rest))) ≡ true =
        ground (arith, length-append done (c ∷ rest)) in
      let out' = out ++ line in
      let steps = suc (length rest) in
      let place =
        ap (λ it. format_from number value steps (done ++ (c ∷ rest)) it out')
          (length-snoc done c) in
      let same =
        ap (λ m. format_from number value steps m (length (snoc done c)) out')
          (append_assoc done (c ∷ []) rest) in
      let further = format_from-done (snoc done c) rest out' in
      rw (format_from, deref, goes, get_elem?-append done c rest)
        (sym place ∙ sym same ∙ further ∙ ap some (append_assoc out line (lines_of rest)))

module _ {ℓ} {T : Type ℓ} ⦃e : Eq T⦄ (default : T) where
  All-get_elem? :
      (m : Matrix T) (i : ℕ) (k : Coords) (v : T)
      → All (λ c. e.beq c.1 default ≡ false) m
      → get_elem? m i ≡ some (k, v)
      → e.beq v default ≡ false
  All-get_elem? [] i k v h at = cc at
  All-get_elem? ((j, w) ∷ m) zero k v h at = cc (at, h.0)
  All-get_elem? ((j, w) ∷ m) (suc i) k v h at = All-get_elem? m i k v h.1 at

  -- In a matrix that holds no coordinates twice and no default value, an iterator before the end gives
  -- a row, a column and the value that the cell there reads as, which is not the default; a cell that
  -- does not read as the default is given by such an iterator; and the format of the matrix is a line
  -- for each of the iterators, in order, after what was put out before.
  pub iteration_lem :
      (number : ℤ → Text) (value : T → Text) (m : Matrix T) (out : Text)
      → IsSparse default m
      → ((it : ℕ)
          → it < end m
          → (row : ℤ) × (col : ℤ) × (deref m it ≡ some (row, col, read default (cell_at row col) m))
            × (e.beq (read default (cell_at row col) m) default ≡ false))
        × ((row col : ℤ)
            → e.beq (read default (cell_at row col) m) default ≡ false
            → (it : ℕ) × (it < end m)
              × (deref m it ≡ some (row, col, read default (cell_at row col) m)))
        × (format number value m out ≡ some (out ++ lines_of number value m))
  unfolding deref read format size
  iteration_lem number value m out h = (
    λ it below.
        let (k, v, at, found) = find-get_elem? m it h.0 below in
        (
          k.row,
          k.col,
          rw (deref, at, read, found),
          rw (read, found) (All-get_elem? m it k v h.1 at),
        ),
    λ row col stored. visit (cell_at row col) stored,
    format_from-done number value [] m out,
  )
    where
      visit :
          (k : Coords)
          → e.beq (get_or (find k m) default) default ≡ false
          → (it : ℕ) × (it < end m) × (deref m it ≡ some (k.row, k.col, get_or (find k m) default))
      visit k stored = elim (Option-cases (find k m)) [
        | inl n ↦ absurd (cc (rw n at stored, (e.beq_iff default default).1 refl))
        | inr (v, f) ↦ let (i, below, at) = get_elem?-find k v m f in (i, below, rw (deref, at, f))
      ]

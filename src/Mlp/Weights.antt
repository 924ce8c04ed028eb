-- ===== src/Mlp/Weights.antt =====
-- The entries of the weights that `loadWeights` of HW_13/lib/mlp.cpp reads.
use cplus_plus_developer_pro.Prelude.{
  ℕ, zero, suc, ◌≡◌, ◌<◌, ◌+◌, refl, ap, ◌∙◌, Bool, true, false, ◌&&◌, Option, none, some, List, [],
  ◌∷◌, ltb, leb, ◌==◌, if◌then◌else◌, get_elem?, arith, inl, inr, Bool-cases,
}
use cplus_plus_developer_pro.Prelude.Text.{Text}
use cplus_plus_developer_pro.Mlp.{
  MatrixXf, Floats, Impl, resize, write, fill_row, fill_rows, load_weights,
}

abbrev pub or_else {ℓ} : {A : Type ℓ} → Option A → Option A → Option A
or_else none d = d
or_else (some v) d = some v

module _ {F : Type 0} where
  -- A cell outside the cells that are still to come.
  fill_row-other :
      (limit row col : ℕ) (vs : List F) (m : MatrixXf F) (r c : ℕ)
      → (r == row && leb col c) ≡ false
      → (fill_row limit row col vs m).at r c ≡ m.at r c
  unfolding fill_row
  fill_row-other limit row col [] m r c out = refl
  fill_row-other limit row col (v ∷ vs) m r c out =
      let further : (r == row && leb (col + 1) c) ≡ false = ground arith in
      let not_here : (r == row && c == col) ≡ false = ground arith in
      let rest = fill_row-other limit row (col + 1) vs (write row col v m) r c further in
      elim (Bool-cases (ltb col limit)) [ inl e ↦ rw e (rest ∙ rw not_here) | inr e ↦ rw e ]

  fill_row-here :
      (limit row col : ℕ) (vs : List F) (m : MatrixXf F) (c d : ℕ)
      → c ≡ col + d
      → (fill_row limit row col vs m).at row c
        ≡ (if ltb c limit then or_else (get_elem? vs d) (m.at row c) else m.at row c)
  unfolding fill_row
  fill_row-here limit row col [] m c d e = ground arith
  fill_row-here limit row col (v ∷ vs) m c zero e =
      let passed : (row == row && leb (col + 1) c) ≡ false = ground arith in
      let here : (row == row && c == col) ≡ true = ground arith in
      let rest = fill_row-other limit row (col + 1) vs (write row col v m) row c passed in
      let same : ltb c limit ≡ ltb col limit = ground arith in
      rw same (elim (Bool-cases (ltb col limit)) [ inl h ↦ rw h (rest ∙ rw here) | inr h ↦ rw h ])
  fill_row-here limit row col (v ∷ vs) m c (suc d) e =
      let rest = fill_row-here limit row (col + 1) vs (write row col v m) c d (omega arith) in
      let not_here : (row == row && c == col) ≡ false = ground arith in
      elim (Bool-cases (ltb col limit)) [
        | inl h ↦ rw h (rest ∙ rw not_here)
        | inr h ↦ let beyond : ltb c limit ≡ false = ground arith in rw (h, beyond)
      ]

  fill_row-size :
      (limit row col : ℕ) (vs : List F) (m : MatrixXf F)
      → ((fill_row limit row col vs m).rows ≡ m.rows)
        × ((fill_row limit row col vs m).cols ≡ m.cols)
  unfolding fill_row
  fill_row-size limit row col [] m = (refl, refl)
  fill_row-size limit row col (v ∷ vs) m =
      let rest = fill_row-size limit row (col + 1) vs (write row col v m) in
      elim (Bool-cases (ltb col limit)) [ inl e ↦ rw e rest | inr e ↦ rw e (refl, refl) ]

module _ {F : Type 0} (f : Floats F) where
  -- What a file has for a cell: a number of a line, within the dimensions.
  abbrev number_at : (cols : ℕ) → Option Text → ℕ → Option F
  number_at cols none c = none
  number_at cols (some line) c = if ltb c cols then get_elem? (f.numbers line) c else none

  abbrev pub entry : (rows cols : ℕ) → List Text → (r c : ℕ) → Option F
  entry rows cols lines r c = if ltb r rows then number_at cols (get_elem? lines r) c else none

  fill_rows-other :
      (rows cols row : ℕ) (lines : List Text) (m : MatrixXf F) (r c : ℕ)
      → r < row
      → (fill_rows f rows cols row lines m).at r c ≡ m.at r c
  unfolding fill_rows
  fill_rows-other rows cols row [] m r c before = refl
  fill_rows-other rows cols row (line ∷ lines) m r c before =
      let apart : (r == row && leb 0 c) ≡ false = ground arith in
      let filled = fill_row cols row 0 (f.numbers line) m in
      elim (Bool-cases (ltb row rows)) [
        | inl e ↦ rw e (
            fill_rows-other rows cols (row + 1) lines filled r c (omega arith)
            ∙ fill_row-other cols row 0 (f.numbers line) m r c apart)
        | inr e ↦ rw e
      ]

  fill_rows-here :
      (rows cols row : ℕ) (lines : List Text) (m : MatrixXf F) (r c d : ℕ)
      → r ≡ row + d
      → (fill_rows f rows cols row lines m).at r c
        ≡ or_else (if ltb r rows then number_at cols (get_elem? lines d) c else none) (m.at r c)
  unfolding fill_rows
  fill_rows-here rows cols row [] m r c d e = ground arith
  fill_rows-here rows cols row (line ∷ lines) m r c zero e =
      let same : r ≡ row = omega arith in
      let filled = fill_row cols row 0 (f.numbers line) m in
      rw same (elim (Bool-cases (ltb row rows)) [
        | inl h ↦ rw h (
            fill_rows-other rows cols (row + 1) lines filled row c (omega arith)
            ∙ fill_row-here cols row 0 (f.numbers line) m c c (omega arith)
            ∙ or_else_if (ltb c cols) (get_elem? (f.numbers line) c) (m.at row c))
        | inr h ↦ rw h
      ])
    where
      or_else_if :
          (b : Bool) (o v : Option F)
          → (if b then or_else o v else v) ≡ or_else (if b then o else none) v
      or_else_if true o v = refl
      or_else_if false o v = refl
  fill_rows-here rows cols row (line ∷ lines) m r c (suc d) e =
      let filled = fill_row cols row 0 (f.numbers line) m in
      let apart : (r == row && leb 0 c) ≡ false = ground arith in
      let kept = fill_row-other cols row 0 (f.numbers line) m r c apart in
      let rest = fill_rows-here rows cols (row + 1) lines filled r c d (omega arith) in
      elim (Bool-cases (ltb row rows)) [
        | inl h ↦ rw (h, ← kept) rest
        | inr h ↦ let beyond : ltb r rows ≡ false = ground arith in rw (h, beyond)
      ]

  fill_rows-size :
      (rows cols row : ℕ) (lines : List Text) (m : MatrixXf F)
      → ((fill_rows f rows cols row lines m).rows ≡ m.rows)
        × ((fill_rows f rows cols row lines m).cols ≡ m.cols)
  unfolding fill_rows
  fill_rows-size rows cols row [] m = (refl, refl)
  fill_rows-size rows cols row (line ∷ lines) m =
      let filled = fill_row cols row 0 (f.numbers line) m in
      let (a, b) = fill_row-size cols row 0 (f.numbers line) m in
      let (a', b') = fill_rows-size rows cols (row + 1) lines filled in
      elim (Bool-cases (ltb row rows)) [ inl e ↦ rw e (a' ∙ a, b' ∙ b) | inr e ↦ rw e (refl, refl) ]

-- What a matrix of the dimensions has already.
abbrev pub kept : {F : Type 0} → (rows cols : ℕ) → MatrixXf F → (r c : ℕ) → Option F
kept rows cols m r c = if m.rows == rows && m.cols == cols then m.at r c else none

resize-at :
    {F : Type 0} (rows cols : ℕ) (m : MatrixXf F) (r c : ℕ)
    → (resize rows cols m).at r c ≡ kept rows cols m r c
unfolding resize
resize-at rows cols m r c = elim (Bool-cases (m.rows == rows && m.cols == cols)) [
  | inl e ↦ rw e
  | inr e ↦ rw e
]

-- When both files can be opened, the weights are loaded. Then the matrices have 784 rows of 128 and
-- 128 rows of 10 entries. An entry within these is the number at its place in the line with the
-- number of its row, where the file has such a line and the line so many numbers; any other entry is
-- what it was before if the matrix had this size already, and was not written otherwise.
pub load_weights_lem :
    {F : Type 0} (f : Floats F) (lines lines' : List Text) (impl : Impl F)
    → let (done, i) = load_weights f (some lines) (some lines') impl in
      (done ≡ true)
      × ((i.w1.rows ≡ 784) × (i.w1.cols ≡ 128) × (i.w2.rows ≡ 128) × (i.w2.cols ≡ 10))
      × ((r c : ℕ) → i.w1.at r c ≡ or_else (entry f 784 128 lines r c) (kept 784 128 impl.w1 r c))
      × ((r c : ℕ) → i.w2.at r c ≡ or_else (entry f 128 10 lines' r c) (kept 128 10 impl.w2 r c))
unfolding load_weights resize
load_weights_lem {F} f lines lines' impl =
    let m = resize 784 128 impl.w1 in
    let m' = resize 128 10 impl.w2 in
    let (a, b) = fill_rows-size f 784 128 0 lines m in
    let (c, d) = fill_rows-size f 128 10 0 lines' m' in
    (
      refl,
      (a, b, c, d),
      λ r c.
          fill_rows-here f 784 128 0 lines m r c r (omega arith)
          ∙ ap (or_else (entry f 784 128 lines r c)) (resize-at 784 128 impl.w1 r c),
      λ r c.
          fill_rows-here f 128 10 0 lines' m' r c r (omega arith)
          ∙ ap (or_else (entry f 128 10 lines' r c)) (resize-at 128 10 impl.w2 r c),
    )

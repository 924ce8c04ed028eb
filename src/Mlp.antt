-- ===== src/Mlp.antt =====
-- HW_13/lib/mlp.cpp: the weights of a network with two layers, its predictions and their evaluation. The
-- floating point numbers are a parameter, with what Eigen does with vectors of them, and so are
-- the numbers that the library reads from texts. A file is the list of its lines, or `none`
-- when it cannot be opened; a product of the wrong dimensions, which Eigen asserts, is `none`.
pub mod Weights
pub mod Evaluation
mod Tests
use cplus_plus_developer_pro.Prelude.{
  ℕ, zero, suc, ◌+◌, Bool, true, false, ◌&&◌, Option, none, some, List, [], ◌∷◌, ltb, ◌==◌,
  if◌then◌else◌, snoc, map, replicate, is_empty, length,
}
use cplus_plus_developer_pro.Prelude.Int.{ℤ, pos, eq_ℤ}
use cplus_plus_developer_pro.Prelude.Text.{Text}
use cplus_plus_developer_pro.JoinServer.{Stream, read_int}

-- `Eigen::MatrixXf`; an entry that was never written is `none`.
pub record MatrixXf (F : Type 0) : Type 0 where
  pub rows : ℕ
  pub cols : ℕ
  pub at : ℕ → ℕ → Option F

-- The arithmetic: `product w x` is the product of the transpose of `w` with `x`, where the
-- dimensions fit, and `max_index` what `maxCoeff` stores.
pub record Floats (F : Type 0) : Type 0 where
  pub nought : F
  pub one : F
  pub pixel_max_value : F
  pub add : F → F → F
  pub div : F → F → F
  pub neg : F → F
  pub exp : F → F
  pub sum : List F → F
  pub product : MatrixXf F → List F → List F
  pub max_index : List F → ℕ
  pub ratio : (correct total : ℕ) → F
  -- The numbers that `>>` reads from a line until it fails, and `std::from_chars`.
  pub numbers : Text → List F
  pub pixel_of : Text → Option F
  pub label_of : Text → Option ℤ

module _ {F : Type 0} where
  -- The entries stay when the matrix has the size already; otherwise none is known.
  unfoldable pub resize : ℕ → ℕ → MatrixXf F → MatrixXf F
  resize rows cols m = record {
    rows = rows;
    cols = cols;
    at = if m.rows == rows && m.cols == cols then m.at else (λ r c. none);
  }

  abbrev pub write : ℕ → ℕ → F → MatrixXf F → MatrixXf F
  write row col value m = record m {
    at = λ r c. if r == row && c == col then some value else m.at r c;
  }

  -- The inner loop of `loadWeights`, with its limit, over the numbers of a line.
  unfoldable pub fill_row : (limit row col : ℕ) → List F → MatrixXf F → MatrixXf F
  fill_row limit row col [] m = m
  fill_row limit row col (value ∷ values) m =
      let rest = fill_row limit row (col + 1) values (write row col value m) in
      if ltb col limit then rest else m

-- The members of `Impl`.
pub record Impl (F : Type 0) : Type 0 where
  pub w1 : MatrixXf F
  pub w2 : MatrixXf F

-- The calls of `std::getline` with a comma, until they fail: what is read of a token comes first.
unfoldable pub tokens_from : Text → Text → List Text
tokens_from token [] = if is_empty token then [] else token ∷ []
tokens_from token (c ∷ s) = elim (c == 44) [
  | true ↦ token ∷ tokens_from [] s
  | false ↦ tokens_from (snoc token c) s
]

unfoldable pub tokens : Text → List Text
unfolding tokens_from
tokens line = tokens_from [] line

-- The class label at the start of a line, if there is one.
abbrev pub first_label : (Text → Option ℤ) → List Text → Option ℤ
first_label label_of [] = none
first_label label_of (token ∷ ts) = label_of token

abbrev pub rest_of : List Text → List Text
rest_of [] = []
rest_of (token ∷ ts) = ts

-- `>>` into an `int` that is 0.
abbrev pub read_label : Text → ℤ
read_label line = (read_int (pos 0) (record { rest = line; failed = false })).0

-- The counters of the evaluations.
pub record Counts : Type 0 where
  pub correct : ℕ
  pub total : ℕ

abbrev pub no_counts : Counts
no_counts = record { correct = 0; total = 0 }

unfoldable pub counted : (true_label predicted_label : ℤ) → Counts → Counts
counted true_label predicted_label k = record {
  correct = if eq_ℤ predicted_label true_label then k.correct + 1 else k.correct;
  total = k.total + 1;
}

module _ {F : Type 0} (f : Floats F) where
  -- The outer loop of `loadWeights`.
  unfoldable pub fill_rows : (rows cols row : ℕ) → List Text → MatrixXf F → MatrixXf F
  unfolding fill_row
  fill_rows rows cols row [] m = m
  fill_rows rows cols row (line ∷ lines) m =
      let rest = fill_rows rows cols (row + 1) lines (fill_row cols row 0 (f.numbers line) m) in
      if ltb row rows then rest else m

  unfoldable pub load_weights : (w1_file w2_file : Option (List Text)) → Impl F → Bool × Impl F
  unfolding fill_rows resize
  load_weights none w2_file impl = (false, impl)
  load_weights (some lines) none impl =
      (false, record impl { w1 = fill_rows 784 128 0 lines (resize 784 128 impl.w1) })
  load_weights (some lines) (some lines') impl = (
    true,
    record {
      w1 = fill_rows 784 128 0 lines (resize 784 128 impl.w1);
      w2 = fill_rows 128 10 0 lines' (resize 128 10 impl.w2);
    },
  )

  unfoldable pub sigma : List F → List F
  sigma z = map (λ x. f.div f.one (f.add f.one (f.exp (f.neg x)))) z

  unfoldable pub softmax : List F → List F
  softmax z = let exp_z = map f.exp z in map (λ x. f.div x (f.sum exp_z)) exp_z

  -- The product, unless Eigen asserts.
  abbrev pub transposed_product : MatrixXf F → List F → Option (List F)
  transposed_product w x = if w.rows == length x then some (f.product w x) else none

  unfoldable pub predict : Impl F → List F → Option ℕ
  unfolding sigma softmax
  predict impl image =
      elim (transposed_product impl.w1 (map (λ p. f.div p f.pixel_max_value) image)) [
        | none ↦ none
        | some z1 ↦ elim (transposed_product impl.w2 (sigma z1)) [
          | none ↦ none
          | some z2 ↦ some (f.max_index (softmax z2))
        ]
      ]

  -- The loop over the pixels of a line: a missing one ends it, an unreadable one is 0.
  unfoldable pub fill_image : ℕ → List Text → List F
  fill_image zero ts = []
  fill_image (suc n) [] = replicate (suc n) f.nought
  fill_image (suc n) (token ∷ ts) =
      (elim (f.pixel_of token) [ none ↦ f.nought | some value ↦ value ]) ∷ fill_image n ts

  -- The body of the loop of `evaluate`; `none` is an assertion of Eigen.
  unfoldable pub evaluate_line : Impl F → Text → Counts → Option Counts
  unfolding predict fill_image tokens counted
  evaluate_line impl line k = elim (first_label f.label_of (tokens line)) [
    | none ↦ some k
    | some true_label ↦ elim (predict impl (fill_image 784 (rest_of (tokens line)))) [
      | none ↦ none
      | some predicted_label ↦ some (counted true_label (pos predicted_label) k)
    ]
  ]

  unfoldable pub evaluate_lines : Impl F → List Text → Counts → Option Counts
  unfolding evaluate_line
  evaluate_lines impl [] k = some k
  evaluate_lines impl (line ∷ lines) k = elim (evaluate_line impl line k) [
    | none ↦ none
    | some k' ↦ evaluate_lines impl lines k'
  ]

  -- The loop of `evaluate_with_predictions` over both files.
  unfoldable pub count_predictions : List Text → List Text → Counts → Counts
  unfolding tokens counted
  count_predictions [] pred k = k
  count_predictions (line ∷ test) [] k = k
  count_predictions (line ∷ test) (pred_line ∷ pred) k =
      elim (first_label f.label_of (tokens line)) [
        | none ↦ count_predictions test pred k
        | some true_label ↦
            count_predictions test pred (counted true_label (read_label pred_line) k)
      ]

  unfoldable pub evaluate : Impl F → (test_file : Option (List Text)) → Option F
  unfolding evaluate_lines
  evaluate impl none = some f.nought
  evaluate impl (some lines) = elim (evaluate_lines impl lines no_counts) [
    | none ↦ none
    | some k ↦ some (f.ratio k.correct k.total)
  ]

  unfoldable pub evaluate_with_predictions : (test_file pred_file : Option (List Text)) → F
  unfolding count_predictions
  evaluate_with_predictions none pred_file = f.nought
  evaluate_with_predictions (some test) none = f.nought
  evaluate_with_predictions (some test) (some pred) =
      let k = count_predictions test pred no_counts in f.ratio k.correct k.total

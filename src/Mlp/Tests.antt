-- ===== src/Mlp/Tests.antt =====
-- A network whose numbers are natural numbers: the products are zero and every label is read as 0.
use cplus_plus_developer_pro.Prelude.{
  ℕ, zero, suc, ◌≡◌, ◌≤◌, ◌+◌, ◌/◌, refl, ap, true, Option, none, some, List, [], ◌∷◌, replicate,
  length, ltb, if◌then◌else◌, ◌-◌,
}
use cplus_plus_developer_pro.Prelude.Int.{pos}
use cplus_plus_developer_pro.Prelude.Text.{Text, bytes}
use cplus_plus_developer_pro.JoinServer.{read_int, skip_ws, span, number}
use cplus_plus_developer_pro.Mlp.{
  MatrixXf, Floats, Impl, Counts, resize, load_weights, evaluate, evaluate_lines, evaluate_line,
  evaluate_with_predictions, no_counts, predict, fill_image, tokens, tokens_from, read_label,
  rest_of, sigma, softmax,
}
use cplus_plus_developer_pro.Mlp.Weights.{or_else, kept, entry, load_weights_lem}
use cplus_plus_developer_pro.Mlp.Evaluation.{
  IsEigen, Predicts, no_lines, a_line, labelled, load_weights-evaluate, evaluate_same,
}

abbrev digit_of : Text → Option ℕ
digit_of [] = none
digit_of (c ∷ cs) = if ltb c 48 then none else some c

abbrev zeros : MatrixXf ℕ → List ℕ → List ℕ
zeros w x = replicate w.cols 0

abbrev whole : Floats ℕ
whole = record {
  nought = 0;
  one = 1;
  pixel_max_value = 255;
  add = λ a b. a + b;
  div = λ a b. a / b;
  neg = λ a. a;
  exp = λ a. a;
  sum = λ xs. length xs;
  product = zeros;
  max_index = λ z. 0;
  ratio = λ correct total. correct + total;
  numbers = λ line. line;
  pixel_of = digit_of;
  label_of = λ t. elim (digit_of t) [ none ↦ none | some d ↦ some (pos (d - 48)) ];
}

length-zeros : (n : ℕ) → length {A = ℕ} (replicate n 0) ≡ n
length-zeros zero = refl
length-zeros (suc n) = ap suc (length-zeros n)

whole-IsEigen : IsEigen whole
whole-IsEigen = record {
  product_size = λ w x e. length-zeros w.cols;
  index_bound = λ z below. below;
}

abbrev no_matrix : MatrixXf ℕ
no_matrix = record { rows = 0; cols = 0; at = λ r c. none }

abbrev unloaded : Impl ℕ
unloaded = record { w1 = no_matrix; w2 = no_matrix }

abbrev loaded : Impl ℕ
loaded = record { w1 = resize 784 128 no_matrix; w2 = resize 128 10 no_matrix }

abbrev weights : List Text
weights = bytes "12" ∷ bytes "3" ∷ []

load_weights_lem_example :
    let (done, i) = load_weights whole (some weights) (some weights) unloaded in
    (done ≡ true)
    × ((i.w1.rows ≡ 784) × (i.w1.cols ≡ 128) × (i.w2.rows ≡ 128) × (i.w2.cols ≡ 10))
    × ((r c : ℕ)
        → i.w1.at r c ≡ or_else (entry whole 784 128 weights r c) (kept 784 128 unloaded.w1 r c))
    × ((r c : ℕ)
        → i.w2.at r c ≡ or_else (entry whole 128 10 weights r c) (kept 128 10 unloaded.w2 r c))
load_weights_lem_example = load_weights_lem whole weights weights unloaded

load_weights-evaluate_example :
    let (done, i) = load_weights whole (some weights) (some weights) unloaded in
    (k : Counts) × (evaluate_lines whole i (bytes "0,1" ∷ []) no_counts ≡ some k)
    × (evaluate whole i (some (bytes "0,1" ∷ [])) ≡ some (whole.ratio k.correct k.total))
    × (k.total ≡ labelled whole (bytes "0,1" ∷ []))
    × (k.correct ≤ k.total)
load_weights-evaluate_example =
    load_weights-evaluate whole whole-IsEigen weights weights unloaded (bytes "0,1" ∷ [])

predicted : predict whole loaded (fill_image whole 784 (rest_of (tokens (bytes "0,1")))) ≡ some 0
unfolding predict tokens tokens_from fill_image resize sigma softmax
predicted = refl

read : read_label (bytes "0") ≡ pos 0
unfolding read_int skip_ws span number
read = refl

first-Predicts : Predicts whole loaded (bytes "0,1" ∷ []) (bytes "0" ∷ [])
first-Predicts = a_line 0 predicted read no_lines

evaluate_same_example :
    evaluate whole loaded (some (bytes "0,1" ∷ []))
    ≡ some (evaluate_with_predictions whole (some (bytes "0,1" ∷ [])) (some (bytes "0" ∷ [])))
evaluate_same_example =
    evaluate_same whole loaded (bytes "0,1" ∷ []) (bytes "0" ∷ []) first-Predicts

-- Without the weights, a line with a label reaches an assertion of Eigen.
not_loaded : evaluate whole unloaded (some (bytes "0,1" ∷ [])) ≡ none
unfolding evaluate evaluate_lines evaluate_line predict tokens tokens_from fill_image resize
not_loaded = refl

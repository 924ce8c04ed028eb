-- ===== src/Mlp/Evaluation.antt =====
-- The predictions and the two evaluations of HW_13/lib/mlp.cpp.
use cplus_plus_developer_pro.Prelude.{
  ℕ, zero, suc, ◌≡◌, ◌<◌, ◌≤◌, ◌+◌, refl, sym, ap, ◌∙◌, true, none, some, List, [], ◌∷◌, ◌==◌,
  replicate, map, length, arith, inl, inr, Bool-cases, Option-cases,
}
use cplus_plus_developer_pro.Prelude.Int.{ℤ, pos, eq_ℤ}
use cplus_plus_developer_pro.Prelude.Text.{Text}
use cplus_plus_developer_pro.Mlp.{
  MatrixXf, Floats, Impl, Counts, load_weights, sigma, softmax, predict, transposed_product,
  fill_image, evaluate_line, evaluate_lines, evaluate, read_label, count_predictions,
  evaluate_with_predictions, no_counts, counted, first_label, rest_of, tokens,
}
use cplus_plus_developer_pro.Mlp.Weights.{load_weights_lem}

-- What Eigen says of the dimensions: the product has an entry for each column, and `maxCoeff`
-- stores the index of an entry.
pub record IsEigen {F : Type 0} (f : Floats F) : Type 0 where
  pub product_size :
      (w : MatrixXf F) (x : List F) → w.rows ≡ length x → length (f.product w x) ≡ w.cols
  pub index_bound : (z : List F) → 0 < length z → f.max_index z < length z

pub record IsLoaded {F : Type 0} (i : Impl F) : Type 0 where
  pub rows_1 : i.w1.rows ≡ 784
  pub cols_1 : i.w1.cols ≡ 128
  pub rows_2 : i.w2.rows ≡ 128
  pub cols_2 : i.w2.cols ≡ 10

length-map {ℓ κ} :
    {A : Type ℓ} {B : Type κ} (g : A → B) (xs : List A) → length (map g xs) ≡ length xs
length-map g [] = refl
length-map g (x ∷ xs) = ap suc (length-map g xs)

length-replicate {ℓ} : {A : Type ℓ} (n : ℕ) (x : A) → length (replicate n x) ≡ n
length-replicate zero x = refl
length-replicate (suc n) x = ap suc (length-replicate n x)

module _ {F : Type 0} (f : Floats F) where
  length-fill_image : (n : ℕ) (ts : List Text) → length (fill_image f n ts) ≡ n
  unfolding fill_image
  length-fill_image zero ts = refl
  length-fill_image (suc n) [] = length-replicate (suc n) f.nought
  length-fill_image (suc n) (t ∷ ts) = ap suc (length-fill_image n ts)

  product-fits :
      (w : MatrixXf F) (x : List F)
      → w.rows ≡ length x
      → transposed_product f w x ≡ some (f.product w x)
  product-fits w x e = let fits : (w.rows == length x) ≡ true = ground arith in rw fits

  length-sigma : (z : List F) → length (sigma f z) ≡ length z
  unfolding sigma
  length-sigma z = length-map (λ x. f.div f.one (f.add f.one (f.exp (f.neg x)))) z

  length-softmax : (z : List F) → length (softmax f z) ≡ length z
  unfolding softmax
  length-softmax z =
      let exp_z = map f.exp z in length-map (λ x. f.div x (f.sum exp_z)) exp_z ∙ length-map f.exp z

  predict-bound :
      IsEigen f
      → (i : Impl F) → IsLoaded i
      → (image : List F) → length image ≡ 784
      → (label : ℕ) × (predict f i image ≡ some label) × (label < 10)
  unfolding predict
  predict-bound eigen i loaded image n =
      let scaled = map (λ p. f.div p f.pixel_max_value) image in
      let z1 = f.product i.w1 scaled in
      let z2 = f.product i.w2 (sigma f z1) in
      let fits : i.w1.rows ≡ length scaled =
        loaded.rows_1 ∙ sym (length-map (λ p. f.div p f.pixel_max_value) image ∙ n) in
      let size : length (sigma f z1) ≡ 128 =
        length-sigma z1 ∙ eigen.product_size i.w1 scaled fits ∙ loaded.cols_1 in
      let fits' : i.w2.rows ≡ length (sigma f z1) = loaded.rows_2 ∙ sym size in
      let size' : length (softmax f z2) ≡ 10 =
        length-softmax z2 ∙ eigen.product_size i.w2 (sigma f z1) fits' ∙ loaded.cols_2 in
      let below = eigen.index_bound (softmax f z2) (omega (arith, size')) in
      (
        f.max_index (softmax f z2),
        rw (predict, product-fits i.w1 scaled fits, product-fits i.w2 (sigma f z1) fits'),
        omega (arith, below, size'),
      )

  -- The lines whose class label can be read.
  unfoldable pub labelled : List Text → ℕ
  labelled [] = 0
  labelled (line ∷ lines) = elim (first_label f.label_of (tokens line)) [
    | none ↦ labelled lines
    | some l ↦ labelled lines + 1
  ]

  counted-total :
      (l p : ℤ) (k : Counts)
      → k.correct ≤ k.total
      → ((counted l p k).total ≡ k.total + 1) × ((counted l p k).correct ≤ (counted l p k).total)
  unfolding counted
  counted-total l p k le = elim (Bool-cases (eq_ℤ p l)) [
    | inl e ↦ rw e (refl, omega arith)
    | inr e ↦ rw e (refl, omega arith)
  ]

  evaluate_lines-total :
      IsEigen f
      → (i : Impl F) → IsLoaded i
      → (lines : List Text) (k : Counts) → k.correct ≤ k.total
      → (k' : Counts) × (evaluate_lines f i lines k ≡ some k')
        × (k'.total ≡ k.total + labelled lines)
        × (k'.correct ≤ k'.total)
  unfolding evaluate_lines evaluate_line labelled
  evaluate_lines-total eigen i loaded [] k le = (k, refl, omega arith, le)
  evaluate_lines-total eigen i loaded (line ∷ lines) k le =
      let ts = tokens line in
      let image = fill_image f 784 (rest_of ts) in
      let (p, q, below) = predict-bound eigen i loaded image (length-fill_image 784 (rest_of ts)) in
      elim (Option-cases (first_label f.label_of ts)) [
        | inl e ↦
            rw (evaluate_lines, evaluate_line, labelled, e)
              (evaluate_lines-total eigen i loaded lines k le)
        | inr (l, e) ↦
            let (n, le') = counted-total l (pos p) k le in
            let (k', run, n', le'') =
              evaluate_lines-total eigen i loaded lines (counted l (pos p) k) le' in
            rw (evaluate_lines, evaluate_line, labelled, e, q) (k', run, omega (arith, n, n'), le'')
      ]

  -- A file of predictions that has, for each line of a test file, the prediction for it.
  pub data Predicts (i : Impl F) : (test pred : List Text) → Type 0 where
    no_lines : Predicts i [] []
    a_line :
        {line pred_line : Text} {test pred : List Text} (label : ℕ)
        → predict f i (fill_image f 784 (rest_of (tokens line))) ≡ some label
        → read_label pred_line ≡ pos label
        → Predicts i test pred
        → Predicts i (line ∷ test) (pred_line ∷ pred)

  evaluate_lines-count_predictions :
      (i : Impl F) (test pred : List Text)
      → Predicts i test pred
      → (k : Counts) → evaluate_lines f i test k ≡ some (count_predictions f test pred k)
  unfolding evaluate_lines evaluate_line count_predictions
  evaluate_lines-count_predictions i [] [] no_lines k = refl
  evaluate_lines-count_predictions i [] (pred_line ∷ pred) same k = elim same [ ]
  evaluate_lines-count_predictions i (line ∷ test) [] same k = elim same [ ]
  evaluate_lines-count_predictions i (line ∷ test) (pred_line ∷ pred) (a_line label e e' rest) k =
      elim (Option-cases (first_label f.label_of (tokens line))) [
        | inl e0 ↦
            rw (evaluate_lines, evaluate_line, count_predictions, e0)
              (evaluate_lines-count_predictions i test pred rest k)
        | inr (l, e1) ↦
            rw (evaluate_lines, evaluate_line, count_predictions, e1, e, e')
              (evaluate_lines-count_predictions i test pred rest (counted l (pos label) k))
      ]

  -- When a file of predictions has for each line of a test file the label that the network predicts
  -- for it, the evaluation with the file gives what the evaluation of the network gives.
  pub evaluate_same :
      (i : Impl F) (test pred : List Text)
      → Predicts i test pred
      → evaluate f i (some test) ≡ some (evaluate_with_predictions f (some test) (some pred))
  unfolding evaluate evaluate_with_predictions
  evaluate_same i test pred same =
      let run = evaluate_lines-count_predictions i test pred same no_counts in rw (evaluate, run)

-- Once the weights are loaded, an evaluation reads every line without an assertion of Eigen, counts
-- the lines whose class label can be read, and finds at most these predicted correctly.
pub load_weights-evaluate :
    {F : Type 0} (f : Floats F)
    → IsEigen f
    → (lines lines' : List Text) (i : Impl F) (test : List Text)
    → let (done, i') = load_weights f (some lines) (some lines') i in
      (k : Counts) × (evaluate_lines f i' test no_counts ≡ some k)
      × (evaluate f i' (some test) ≡ some (f.ratio k.correct k.total))
      × (k.total ≡ labelled f test)
      × (k.correct ≤ k.total)
unfolding evaluate
load_weights-evaluate f eigen lines lines' i test =
    let (done, (a, b, c, d), rest, rest') = load_weights_lem f lines lines' i in
    let i' = (load_weights f (some lines) (some lines') i).1 in
    let loaded : IsLoaded i' = record { rows_1 = a; cols_1 = b; rows_2 = c; cols_2 = d } in
    let (k, run, n, le) = evaluate_lines-total f eigen i' loaded test no_counts (omega arith) in
    (k, run, rw (evaluate, run), omega (arith, n), le)

-- ===== src/MapReduce/Reduce/Totals.antt =====
-- HW_12: the reducers after the mappers.
use cplus_plus_developer_pro.Prelude.{
  ℕ, ◌≡◌, ◌+◌, ◌^◌, none, some, List, [], ◌∷◌, ◌++◌, ltb, if◌then◌else◌, is_empty, replicate,
}
use cplus_plus_developer_pro.Prelude.Text.{Text}
use cplus_plus_developer_pro.MapReduce.{Prices, extract_price_field}
use cplus_plus_developer_pro.MapReduce.Reduce.{Numbers}

abbrev total : {P : Type 0} → List (P × ℕ) → ℕ
total [] = 0
total ((p, n) ∷ counts) = n + total counts

-- The counts of the prices that occur fewer than 2^16 times.
abbrev pub small_total : {P : Type 0} → List (P × ℕ) → ℕ
small_total [] = 0
small_total ((p, n) ∷ counts) = (if ltb n (2 ^ 16) then n else 0) + small_total counts

-- The lines whose price can be read.
abbrev pub priced : {P : Type 0} → Prices P → List Text → ℕ
priced prices [] = 0
priced prices (line ∷ lines) =
    let price_field = extract_price_field line 44 9 in
    (if is_empty price_field
      then 0
      else elim (prices.from_chars price_field) [ none ↦ 0 | some p ↦ 1 ])
    + priced prices lines

-- The text of the price, after white space, is read up to the tab that follows. A price whose text
-- `>>` does not take, such as one that is not finite or one outside the range of the reducer's numbers,
-- is not read.
pub record IsRead {P Q : Type 0} (a : Numbers P Q) (p : P) : Type 0 where
  pub shown : Q
  pub reads :
      (spaces : ℕ) (t : Text)
      → a.read_price (9 ∷ (replicate spaces 32 ++ a.price_text p ++ (9 ∷ t))) ≡ some (shown, 9 ∷ t)

-- The text of a count, after white space, is read as the count.
pub record ReadsCounts {P Q : Type 0} (a : Numbers P Q) : Type 0 where
  pub count : (spaces n : ℕ) → a.read_count (9 ∷ (replicate spaces 32 ++ a.count_text n)) ≡ some n

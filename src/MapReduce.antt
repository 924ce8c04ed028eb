-- ===== src/MapReduce.antt =====
-- HW_12/mapper.cpp, and what HW_12/mapper_variance.cpp has in common with it: the field of a line that
-- holds the price, and the count of each price. The prices with their order and with
-- `std::from_chars` are a parameter.
pub mod Fields
pub mod Counts
pub mod Reduce
mod Tests
use cplus_plus_developer_pro.Prelude.{
  ℕ, zero, suc, ◌+◌, Bool, true, false, not, ◌&&◌, ◌||◌, Option, none, some, List, [], ◌∷◌, ◌++◌,
  ◌==◌, if◌then◌else◌, is_empty, snoc,
}
use cplus_plus_developer_pro.Prelude.Text.{Text}

pub record Scan : Type 0 where
  pub in_quotes : Bool
  pub current_index : ℕ
  pub current_field : Text

-- The body of the loop of `extract_price_field` for a character, none at its `break`.
abbrev pub scan_char : (delimiter field_index chr : ℕ) → Scan → Option Scan
scan_char delimiter field_index chr s =
    if chr == 34
    then some (record s { in_quotes = not s.in_quotes })
    else if chr == delimiter && not s.in_quotes
    then (if s.current_index == field_index
        then none
        else some (record s { current_index = s.current_index + 1; current_field = [] }))
    else if s.current_index == field_index
    then some (record s { current_field = snoc s.current_field chr })
    else some s

unfoldable pub scan : (delimiter field_index : ℕ) → Text → Scan → Text
scan delimiter field_index [] s = s.current_field
scan delimiter field_index (chr ∷ str) s = elim (scan_char delimiter field_index chr s) [
  | none ↦ s.current_field
  | some s' ↦ scan delimiter field_index str s'
]

abbrev pub scan_start : Scan
scan_start = record { in_quotes = false; current_index = 0; current_field = [] }

unfoldable pub extract_price_field : Text → (delimiter field_index : ℕ) → Text
extract_price_field str delimiter field_index = scan delimiter field_index str scan_start

-- What the mapper does with a `double`.
pub record Prices (P : Type 0) : Type 0 where
  pub less : P → P → Bool
  pub from_chars : Text → Option P

module _ {P : Type 0} (prices : Prices P) where
  -- The keys of a `std::map` are the same when neither is less.
  abbrev pub same_key : P → P → Bool
  same_key p q = not (prices.less p q) && not (prices.less q p)

  -- `price_counts[price]++`, on the entries in the order of their keys. The count is an `int`, whose
  -- overflow after 2^31 - 1 lines of a price is not modelled.
  unfoldable pub count_price : P → List (P × ℕ) → List (P × ℕ)
  count_price p [] = (p, 1) ∷ []
  count_price p ((q, n) ∷ counts) =
      let rest = count_price p counts in
      if prices.less p q
      then (p, 1) ∷ (q, n) ∷ counts
      else if prices.less q p
      then (q, n) ∷ rest
      else (q, n + 1) ∷ counts

  -- The body of the loop of `main` for a line.
  unfoldable pub map_line : Text → List (P × ℕ) → List (P × ℕ)
  map_line line counts =
      let price_field = extract_price_field line 44 9 in
      if is_empty price_field then counts else elim (prices.from_chars price_field) [
        | none ↦ counts
        | some price ↦ count_price price counts
      ]

  unfoldable pub map_lines : List Text → List (P × ℕ) → List (P × ℕ)
  map_lines [] counts = counts
  map_lines (line ∷ lines) counts = map_lines lines (map_line line counts)

-- ===== src/MapReduce/Reduce.antt =====
-- HW_12: what the mappers print, and HW_12/reducer.cpp and HW_12/reducer_variance.cpp. A line that is read
-- has no newline. The arithmetic, the texts of numbers and the reading of numbers with `>>` are
-- parameters; a count that is read is stored where its type has room for it.
pub mod Totals
use cplus_plus_developer_pro.Prelude.{
  ℕ, zero, suc, ◌+◌, ◌-◌, ◌^◌, ◌%◌, Bool, true, false, Option, none, some, List, [], ◌∷◌, ◌++◌, ltb,
  if◌then◌else◌, length, map, replicate,
}
use cplus_plus_developer_pro.Prelude.Text.{Text, bytes}
use cplus_plus_developer_pro.JoinServer.{Stream, read_word}

-- The prices `P` of a mapper, a `double`, and the numbers `Q` of a reducer: a `float` in reducer.cpp, a
-- `double` in reducer_variance.cpp.
pub record Numbers (P Q : Type 0) : Type 0 where
  pub nought : Q
  pub add : Q → Q → Q
  pub mul : Q → Q → Q
  pub div : Q → Q → Q
  pub sub : Q → Q → Q
  pub of_count : ℕ → Q
  pub square : P → P
  pub price_text : P → Text
  pub count_text : ℕ → Text
  -- What `>>` reads, and what it leaves; a count is the number that is written.
  pub read_price : Text → Option (Q × Text)
  pub read_count : Text → Option ℕ

-- `std::setw`
abbrev pub padded : ℕ → Text → Text
padded width t = replicate (width - length t) 32 ++ t

-- `>>` into the key, up to the text after it.
abbrev pub after_key : Text → Option Text
after_key line =
    let (key, s) = read_word [] (record { rest = line; failed = false }) in
    if s.failed then none else some s.rest

abbrev pub stored : (bits : ℕ) → Option ℕ → Option ℕ
stored bits none = none
stored bits (some n) = if ltb n (2 ^ bits) then some n else none

module _ {P Q : Type 0} (a : Numbers P Q) where
  -- The lines of mapper.cpp and of mapper_variance.cpp.
  abbrev pub entry_line : P × ℕ → Text
  entry_line (price, count) =
      bytes "price\t" ++ (a.price_text price ++ (bytes "\t" ++ a.count_text count))

  abbrev pub variance_line : P × ℕ → Text
  variance_line (price, count) =
      bytes "price\t"
      ++ (padded 5 (a.price_text price)
          ++ (bytes "\t"
              ++ (padded 11 (a.price_text (a.square price))
                  ++ (bytes "\t" ++ padded 4 (a.count_text count)))))

  abbrev pub then_price : Option Text → Option (Q × Text)
  then_price none = none
  then_price (some t) = a.read_price t

  abbrev pub then_count : (bits : ℕ) → Option (Q × Text) → Option (Q × ℕ)
  then_count bits none = none
  then_count bits (some (p, t)) = elim (stored bits (a.read_count t)) [
    | none ↦ none
    | some n ↦ some (p, n)
  ]

  -- `iss >> key >> price >> value_count`
  unfoldable pub read_entry : Text → Option (Q × ℕ)
  read_entry line = then_count 64 (then_price (after_key line))

  pub record Mean : Type 0 where
    pub sum : Q
    pub count : ℕ

  -- The loop of reducer.cpp, whose count is a `size_t`.
  unfoldable pub reduce : List Text → Mean → Mean
  unfolding read_entry
  reduce [] m = m
  reduce (line ∷ lines) m = elim (read_entry line) [
    | none ↦ reduce lines m
    | some (p, n) ↦
        reduce lines
          (record { sum = a.add m.sum (a.mul p (a.of_count n)); count = (m.count + n) % 2 ^ 64 })
  ]

  unfoldable pub mean : Mean → Q
  mean m = if ltb 0 m.count then a.div m.sum (a.of_count m.count) else a.nought

  abbrev pub then_squared : Option (Q × Text) → Option (Q × (Q × Text))
  then_squared none = none
  then_squared (some (p, t)) = elim (a.read_price t) [ none ↦ none | some r ↦ some (p, r) ]

  abbrev pub then_small_count : Option (Q × (Q × Text)) → Option (Q × Q × ℕ)
  then_small_count none = none
  then_small_count (some (p, (q, t))) = elim (stored 16 (a.read_count t)) [
    | none ↦ none
    | some n ↦ some (p, q, n)
  ]

  -- `iss >> key >> price >> price_squared >> value_count`, whose count is a `uint16_t`.
  unfoldable pub read_variance : Text → Option (Q × Q × ℕ)
  read_variance line = then_small_count (then_squared (then_price (after_key line)))

  pub record Moments : Type 0 where
    pub sum : Q
    pub sum_squared : Q
    pub count : ℕ

  -- The loop of reducer_variance.cpp; its `int64_t` overflows after more than 2^47 lines.
  unfoldable pub reduce_variance : List Text → Moments → Moments
  unfolding read_variance
  reduce_variance [] m = m
  reduce_variance (line ∷ lines) m = elim (read_variance line) [
    | none ↦ reduce_variance lines m
    | some (p, q, n) ↦ reduce_variance lines (record {
      sum = a.add m.sum (a.mul p (a.of_count n));
      sum_squared = a.add m.sum_squared (a.mul q (a.of_count n));
      count = m.count + n;
    })
  ]

  unfoldable pub variance : Moments → Q
  variance m =
      let mean' = if ltb 0 m.count then a.div m.sum (a.of_count m.count) else a.nought in
      let mean_squared =
        if ltb 0 m.count then a.div m.sum_squared (a.of_count m.count) else a.nought in
      a.sub mean_squared (a.mul mean' mean')

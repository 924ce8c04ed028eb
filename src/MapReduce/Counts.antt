-- ===== src/MapReduce/Counts.antt =====
-- The counts of prices that HW_12/mapper.cpp keeps.
use cplus_plus_developer_pro.Prelude.{
  ℕ, ◌≡◌, ◌+◌, Bool, true, false, not, ◌&&◌, Option, none, some, List, [], ◌∷◌, if◌then◌else◌,
  is_empty, arith,
}
use cplus_plus_developer_pro.Prelude.Text.{Text}
use cplus_plus_developer_pro.MapReduce.{
  Prices, same_key, count_price, map_line, map_lines, extract_price_field,
}

abbrev one_if : Bool → ℕ
one_if b = if b then 1 else 0

module _ {P : Type 0} (prices : Prices P) where
  -- Neither being less is an equivalence, as `std::map` asks of its order.
  pub record IsOrder : Type 0 where
    pub same_less :
        (p q r : P) → same_key prices p q ≡ true → same_key prices p r ≡ same_key prices q r

  -- The count of a price: that of the entries whose key is the same.
  abbrev pub count_of : P → List (P × ℕ) → ℕ
  count_of p [] = 0
  count_of p ((q, n) ∷ counts) = (if same_key prices p q then n else 0) + count_of p counts

  -- Whether the price of a line is the given one.
  abbrev pub has_price : P → Text → Bool
  has_price p line =
      let price_field = extract_price_field line 44 9 in
      not (is_empty price_field)
      && elim (prices.from_chars price_field) [ none ↦ false | some q ↦ same_key prices p q ]

  -- How many lines have the price.
  abbrev pub lines_with : P → List Text → ℕ
  lines_with p [] = 0
  lines_with p (line ∷ lines) = one_if (has_price p line) + lines_with p lines

  count_of-count_price :
      (order : IsOrder) (p q : P) (counts : List (P × ℕ))
      → count_of p (count_price prices q counts) ≡ one_if (same_key prices p q) + count_of p counts
  unfolding count_price
  count_of-count_price order p q [] = ground arith
  count_of-count_price order p q ((r, n) ∷ counts) =
      ground (arith, count_of-count_price order p q counts, order.same_less q r p)

  count_of-map_line :
      (order : IsOrder) (p : P) (line : Text) (counts : List (P × ℕ))
      → count_of p (map_line prices line counts) ≡ one_if (has_price p line) + count_of p counts
  unfolding map_line
  count_of-map_line order p line counts =
      let price_field = extract_price_field line 44 9 in
      by_price (is_empty price_field) (prices.from_chars price_field)
    where
      by_price :
          (b : Bool) (o : Option P)
          → count_of p (
              if b then counts else elim o as (λ x. List (P × ℕ)) [
                | none ↦ counts
                | some price ↦ count_price prices price counts
              ])
            ≡ one_if
                (not b && elim o as (λ x. Bool) [ none ↦ false | some q ↦ same_key prices p q ])
              + count_of p counts
      by_price true o = ground arith
      by_price false none = ground arith
      by_price false (some q) = count_of-count_price order p q counts

  count_of-map_lines_from :
      (order : IsOrder) (p : P) (lines : List Text) (counts : List (P × ℕ))
      → count_of p (map_lines prices lines counts) ≡ lines_with p lines + count_of p counts
  unfolding map_lines
  count_of-map_lines_from order p [] counts = omega arith
  count_of-map_lines_from order p (line ∷ lines) counts = omega (
    arith,
    count_of-map_line order p line counts,
    count_of-map_lines_from order p lines (map_line prices line counts),
  )

-- When neither being less is an equivalence of the prices, the counts that the mapper has for
-- a price at the end of its input add up to the number of lines whose price field is a number
-- that is the same as this price.
count_of-map_lines :
    {P : Type 0} (prices : Prices P) (order : IsOrder prices) (p : P) (lines : List Text)
    → count_of prices p (map_lines prices lines []) ≡ lines_with prices p lines
count_of-map_lines prices order p lines =
    omega (arith, count_of-map_lines_from prices order p lines [])

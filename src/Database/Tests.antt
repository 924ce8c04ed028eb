-- ===== src/Database/Tests.antt =====
-- The database of HW_11/lib/database.cpp with the tables of HW_11/test/join_server_test.cpp, and
-- with ids written in unary instead of decimal.
use cplus_plus_developer_pro.Prelude.{
  ◌++◌, ℕ, zero, suc, ◌≡◌, refl, ap, false, not, ◌&&◌, ◌||◌, Option, some, List, [], ◌∷◌, ◌==◌, map,
  if◌then◌else◌, All, length,
}
use cplus_plus_developer_pro.Prelude.Int.{ℤ, pos, negsuc}
use cplus_plus_developer_pro.Prelude.Text.{Text, bytes}
use cplus_plus_developer_pro.Database.{
  name_of, Database, Decimal, RoundTrips, contains, member, row, common_row, intersection,
  symmetric_difference, by_id, common_rows, other_rows,
}
use cplus_plus_developer_pro.Database.Ids.{Ascending}
use cplus_plus_developer_pro.Database.Queries.{intersection-rows, symmetric_difference-rows}

abbrev ones : ℕ → Text
ones zero = []
ones (suc n) = 49 ∷ ones n

abbrev unary : ℤ → Text
unary (pos n) = 49 ∷ ones n
unary (negsuc n) = 45 ∷ ones n

abbrev from_unary : Text → Option ℤ
from_unary [] = some (pos 0)
from_unary (c ∷ s) = if c == 45 then some (negsuc (length s)) else some (pos (length s))

abbrev unaries : Decimal
unaries = record { to_string = unary; from_chars = from_unary }

length-ones : (n : ℕ) → length (ones n) ≡ n
length-ones zero = refl
length-ones (suc n) = ap suc (length-ones n)

ones-no_comma : (n : ℕ) → All (λ c. (c == 44) ≡ false) (ones n)
ones-no_comma zero = tt
ones-no_comma (suc n) = (refl, ones-no_comma n)

unary-reads : (i : ℤ) → from_unary (unary i) ≡ some i
unary-reads (pos n) = ap (λ k. some (pos k)) (length-ones n)
unary-reads (negsuc n) = ap (λ k. some (negsuc k)) (length-ones n)

unary-no_comma : (i : ℤ) → All (λ c. (c == 44) ≡ false) (unary i)
unary-no_comma (pos n) = (refl, ones-no_comma n)
unary-no_comma (negsuc n) = (refl, ones-no_comma n)

unaries-RoundTrips : RoundTrips unaries
unaries-RoundTrips = record { reads = unary-reads; no_comma = unary-no_comma }

abbrev two_tables : Database
two_tables = record {
  table_a = (pos 4, bytes "quality") ∷ (pos 3, bytes "violation") ∷ (pos 0, bytes "lean") ∷ [];
  table_b = (pos 6, bytes "flour") ∷ (pos 3, bytes "proposal") ∷ (negsuc 1, bytes "precision") ∷ [];
}

intersection-rows_example :
    (ids : List ℤ) × (intersection unaries two_tables
      ≡ map
          (λ i.
            unaries.to_string i
            ++ bytes ","
            ++ name_of i two_tables.table_a
            ++ bytes ","
            ++ name_of i two_tables.table_b)
          ids)
    × Ascending ids
    × ((k : ℤ) → member k ids ≡ (contains k two_tables.table_a && contains k two_tables.table_b))
intersection-rows_example = intersection-rows unaries two_tables

symmetric_difference-rows_example :
    (ids : List ℤ) × (symmetric_difference unaries two_tables
      ≡ map (λ i. row unaries i two_tables) ids)
    × Ascending ids
    × ((k : ℤ)
        → member k ids ≡ (
            contains k two_tables.table_a && not (contains k two_tables.table_b)
            || contains k two_tables.table_b && not (contains k two_tables.table_a)))
symmetric_difference-rows_example = symmetric_difference-rows unaries unaries-RoundTrips two_tables

four_rows :
    symmetric_difference unaries two_tables
    ≡ bytes "-1,,precision" ∷ bytes "1,lean," ∷ bytes "11111,quality," ∷ bytes "1111111,,flour" ∷ []
unfolding symmetric_difference other_rows row by_id
four_rows = refl

one_row : intersection unaries two_tables ≡ bytes "1111,violation,proposal" ∷ []
unfolding intersection common_rows common_row
one_row = refl

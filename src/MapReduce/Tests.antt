-- ===== src/MapReduce/Tests.antt =====
-- Lines of the data set that HW_12 reads, with prices that are written in unary.
use cplus_plus_developer_pro.Prelude.{
  ℕ, ◌≡◌, ◌+◌, ◌-◌, ◌*◌, ◌/◌, refl, Option, none, some, if◌then◌else◌, List, [], ◌∷◌, ltb, length,
  replicate, arith,
}
use cplus_plus_developer_pro.JoinServer.{skip_ws}
use cplus_plus_developer_pro.MapReduce.Reduce.{Numbers}
use cplus_plus_developer_pro.Prelude.Text.{Text, bytes, join}
use cplus_plus_developer_pro.MapReduce.{
  Prices, count_price, map_line, map_lines, scan, extract_price_field,
}
use cplus_plus_developer_pro.MapReduce.Fields.{Piece, plain, quoted, texts, extract_price_field_lem}
use cplus_plus_developer_pro.MapReduce.Counts.{IsOrder}

abbrev fields : List (List Piece)
fields = (plain (bytes "1") ∷ []) ∷ (quoted (bytes "a,b") ∷ plain (bytes "c") ∷ []) ∷ [] ∷ []

extract_price_field_lem_example :
    extract_price_field (join (44 ∷ []) (texts fields)) 44 1 ≡ bytes "a,bc"
extract_price_field_lem_example =
    extract_price_field_lem 44 1 fields refl
      ((((refl, refl), tt), tt), (((refl, (refl, (refl, tt))), (((refl, refl), tt), tt)), (tt, tt)))

abbrev unary : Prices ℕ
unary = record { less = ltb; from_chars = λ s. some (length s) }

unary-IsOrder : IsOrder unary
unary-IsOrder = record { same_less = λ p q r e. ground arith }

abbrev lines : List Text
lines = bytes ",,,,,,,,,11,x" ∷ bytes "short" ∷ bytes ",\",\",,,,,,,,22" ∷ []

counted : map_lines unary lines [] ≡ (2, 2) ∷ []
unfolding map_lines map_line extract_price_field scan count_price
counted = refl

-- A price below 10 is printed as a digit, another as a text that is not read, and a count in unary.
abbrev price_of : Text → Option (ℕ × Text)
price_of [] = none
price_of (c ∷ t) = if ltb c 58 then some (c - 48, t) else none

abbrev tallies : Numbers ℕ ℕ
tallies = record {
  nought = 0;
  add = λ x y. x + y;
  mul = λ x y. x * y;
  div = λ x y. x / y;
  sub = λ x y. x - y;
  of_count = λ n. n;
  square = λ p. p * p;
  price_text = λ p. if ltb p 10 then (48 + p) ∷ [] else bytes "inf";
  count_text = λ n. replicate n 49;
  read_price = λ t. price_of (skip_ws t);
  read_count = λ t. some (length (skip_ws t));
}

-- ===== src/IpFilter/Tests.antt =====
-- The filter of HW_2 on addresses, as in HW_2/test/ip_filter_test.cpp.
use cplus_plus_developer_pro.Prelude.{ℕ, ◌<◌, ◌≡◌, refl, true, List, [], ◌∷◌, map, arith, All}
use cplus_plus_developer_pro.Prelude.Text.{Text}
use cplus_plus_developer_pro.IpFilter.{value, from_chars, comp, filter}
use cplus_plus_developer_pro.IpFilter.Parts.{decimal, from_chars-decimal}
use cplus_plus_developer_pro.IpFilter.Order.{IsOctet}
use cplus_plus_developer_pro.IpFilter.Select.{
  texts_of, arguments, agreeing, AllOctets, filter-agreeing,
}

from_chars-decimal_example : from_chars (decimal 205) ≡ value 205
from_chars-decimal_example = from_chars-decimal 205 (omega arith)

abbrev ip : Text → Text → List Text
ip s t = s ∷ t ∷ []

ip-octets : (m n : ℕ) → m < 256 → n < 256 → All IsOctet (ip (decimal m) (decimal n))
ip-octets m n g h = ((m, from_chars-decimal m g), ((n, from_chars-decimal n h), tt))

abbrev late : List Text
late = texts_of (10 ∷ 1 ∷ [])

abbrev middle : List Text
middle = texts_of (9 ∷ 200 ∷ [])

abbrev early : List Text
early = texts_of (9 ∷ 30 ∷ [])

late-middle : comp late middle ≡ true
unfolding comp from_chars
late-middle = refl

middle-early : comp middle early ≡ true
unfolding comp from_chars
middle-early = refl

abbrev pool : List (List ℕ)
pool = (46 ∷ 70 ∷ 1 ∷ []) ∷ (46 ∷ 7 ∷ []) ∷ (46 ∷ 70 ∷ 29 ∷ []) ∷ []

pool-octets : All AllOctets pool
pool-octets = (
  (omega arith, (omega arith, (omega arith, tt))),
  ((omega arith, (omega arith, tt)), ((omega arith, (omega arith, (omega arith, tt))), tt)),
)

filter-agreeing_example :
    filter (map texts_of pool) (arguments (46 ∷ 70 ∷ []))
    ≡ value (map texts_of (agreeing (46 ∷ 70 ∷ []) pool))
filter-agreeing_example =
    filter-agreeing (46 ∷ 70 ∷ []) pool (omega arith, (omega arith, tt)) pool-octets

-- ===== src/IpFilter/Select.antt =====
-- `filter` of HW_2/include/ip_filter.hpp on addresses in decimal, against a filter of numbers.
use cplus_plus_developer_pro.Prelude.{
  ℕ, ◌<◌, ◌≡◌, refl, inl, inr, Bool, true, ◌&&◌, List, [], ◌∷◌, ◌==◌, map, if◌then◌else◌, arith,
  All, Bool-cases,
}
use cplus_plus_developer_pro.Prelude.Int.{ℤ, pos}
use cplus_plus_developer_pro.Prelude.Text.{Text}
use cplus_plus_developer_pro.IpFilter.{value, filter, select, matches, in_range}
use cplus_plus_developer_pro.IpFilter.Parts.{decimal, from_chars-decimal}

-- An address of numbers as texts, and octets as the arguments of `filter`.
abbrev pub texts_of : List ℕ → List Text
texts_of = map decimal

abbrev pub arguments : List ℕ → List ℤ
arguments = map pos

abbrev pub AllOctets : List ℕ → Type 0
AllOctets = All (λ n. n < 256)

-- Whether two lists of numbers agree as far as both go.
abbrev pub agree : List ℕ → List ℕ → Bool
agree [] ns = true
agree (o ∷ os) [] = true
agree (o ∷ os) (n ∷ ns) = n == o && agree os ns

abbrev pub agreeing : List ℕ → List (List ℕ) → List (List ℕ)
agreeing os [] = []
agreeing os (ns ∷ pool) = let rest = agreeing os pool in if agree os ns then ns ∷ rest else rest

matches-agree : (os ns : List ℕ) → AllOctets ns → matches (arguments os) (texts_of ns) ≡ agree os ns
unfolding matches
matches-agree [] ns h = refl
matches-agree (o ∷ os) [] h = refl
matches-agree (o ∷ os) (n ∷ ns) h =
    rw (from_chars-decimal n h.0, matches-agree os ns h.1) (ground arith)

in_range-arguments : (os : List ℕ) → AllOctets os → in_range (arguments os) ≡ true
unfolding in_range
in_range-arguments [] h = refl
in_range-arguments (o ∷ os) h = ground (arith, in_range-arguments os h.1)

select-agreeing :
    (os : List ℕ) (pool : List (List ℕ))
    → All AllOctets pool
    → select (arguments os) (map texts_of pool) ≡ map texts_of (agreeing os pool)
unfolding select
select-agreeing os [] h = refl
select-agreeing os (ns ∷ pool) h = elim (Bool-cases (agree os ns)) [
  | inl e ↦ rw (matches-agree os ns h.0, select-agreeing os pool h.1, e) refl
  | inr e ↦ rw (matches-agree os ns h.0, select-agreeing os pool h.1, e) refl
]

-- On addresses of octets in decimal, `filter` by octets succeeds and gives, in their order, just the
-- addresses that agree with the octets as far as both go.
pub filter-agreeing :
    (os : List ℕ) (pool : List (List ℕ))
    → AllOctets os
    → All AllOctets pool
    → filter (map texts_of pool) (arguments os) ≡ value (map texts_of (agreeing os pool))
unfolding filter
filter-agreeing os pool h g = rw (in_range-arguments os h, select-agreeing os pool g) refl

-- ===== src/IpFilter.antt =====
-- HW_2/lib/ip_filter.cpp and HW_2/include/ip_filter.hpp: the filter of addresses. An address is the
-- list of its parts as texts. Where the sources have two versions of a function for different
-- compilers, both compute what is modelled here.
pub mod Parts
pub mod Order
pub mod Select
mod Tests
use cplus_plus_developer_pro.Prelude.{
  ℕ, ◌+◌, ◌-◌, ◌*◌, Bool, true, false, ◌&&◌, ◌||◌, List, [], ◌∷◌, ◌++◌, ltb, leb, ◌==◌,
  if◌then◌else◌, is_empty, snoc,
}
use cplus_plus_developer_pro.Prelude.Int.{ℤ, pos, ltb_ℤ, eq_ℤ}
use cplus_plus_developer_pro.Prelude.Text.{Text, bytes}

-- The error codes, and `std::expected` with one of them.
pub data Errc : Type 0 where
  invalid_argument : Errc
  result_out_of_range : Errc
  value_too_large : Errc

pub data Expected {ℓ} (A : Type ℓ) : Type ℓ where
  value : A → Expected A
  unexpected : Errc → Expected A

abbrev pub is_digit : ℕ → Bool
is_digit c = leb 48 c && leb c 57

-- `std::from_chars` in base 10: the digits that the text starts with, and the number they give.
abbrev pub digits : Text → Text
digits [] = []
digits (c ∷ s) = if is_digit c then c ∷ digits s else []

abbrev pub number : ℕ → Text → ℕ
number n [] = n
number n (c ∷ s) = number (n * 10 + (c - 48)) s

pub from_chars : Text → Expected ℕ
from_chars s =
    if is_empty (digits s)
    then unexpected invalid_argument
    else if leb (number 0 (digits s)) 255
    then value (number 0 (digits s))
    else unexpected result_out_of_range

-- `split`: the text since the last delimiter is the first argument after it.
pub split_from : ℕ → Text → Text → List Text
split_from d piece [] = piece ∷ []
split_from d piece (c ∷ s) =
    if c == d then piece ∷ split_from d [] s else split_from d (snoc piece c) s

pub split : ℕ → Text → List Text
unfolding split_from
split d s = split_from d [] s

-- The comparison of `reverse_lexicographic_sort`.
abbrev pub compare_parts : Expected ℕ → Expected ℕ → Bool → Bool
compare_parts (value m) (value n) rest = if m == n then rest else ltb n m
compare_parts (value m) (unexpected e) rest = rest
compare_parts (unexpected e) y rest = rest

pub comp : List Text → List Text → Bool
comp [] ys = false
comp (x ∷ xs) [] = false
comp (x ∷ xs) (y ∷ ys) = compare_parts (from_chars x) (from_chars y) (comp xs ys)

abbrev pub is_octet : Expected ℕ → ℤ → Bool
is_octet (value n) octet = eq_ℤ (pos n) octet
is_octet (unexpected e) octet = false

-- Whether no octet of `filter` is out of range, and whether an address has them at its start.
pub in_range : List ℤ → Bool
in_range [] = true
in_range (octet ∷ octets) =
    if ltb_ℤ octet (pos 0) || ltb_ℤ (pos 255) octet then false else in_range octets

pub matches : List ℤ → List Text → Bool
matches [] ip = true
matches (octet ∷ octets) [] = true
matches (octet ∷ octets) (part ∷ ip) = is_octet (from_chars part) octet && matches octets ip

pub select : List ℤ → List (List Text) → List (List Text)
select octets [] = []
select octets (ip ∷ pool) =
    let rest = select octets pool in if matches octets ip then ip ∷ rest else rest

pub filter : List (List Text) → List ℤ → Expected (List (List Text))
filter pool octets =
    if in_range octets then value (select octets pool) else unexpected value_too_large

pub has_octet : ℕ → List Text → Bool
has_octet octet [] = false
has_octet octet (part ∷ ip) = is_octet (from_chars part) (pos octet) || has_octet octet ip

pub any_selected : List (List Text) → ℕ → List (List Text)
any_selected [] octet = []
any_selected (ip ∷ pool) octet =
    let rest = any_selected pool octet in if has_octet octet ip then ip ∷ rest else rest

pub filter_any : List (List Text) → ℕ → Expected (List (List Text))
filter_any pool octet = value (any_selected pool octet)

-- `print` of one address.
pub print_ip : List Text → Text
print_ip [] = []
print_ip (part ∷ ip) = part ++ ((if is_empty ip then [] else 46 ∷ []) ++ print_ip ip)

-- `v.at(0)`
pub at_first : List Text → Expected Text
at_first [] = unexpected result_out_of_range
at_first (t ∷ ts) = value t

-- `ip_pool.push_back(split(v.at(0), '.'))`, before the lines that follow.
pub push_ip : Expected Text → Expected (List (List Text)) → Expected (List (List Text))
push_ip (unexpected e) pool = unexpected e
push_ip (value t) (unexpected e) = unexpected e
push_ip (value t) (value pool) = value (split 46 t ∷ pool)

-- The loop of `stdin_to_vector` over its lines.
pub stdin_to_vector : List Text → Expected (List (List Text))
stdin_to_vector [] = value []
stdin_to_vector (line ∷ lines) = push_ip (at_first (split 9 line)) (stdin_to_vector lines)

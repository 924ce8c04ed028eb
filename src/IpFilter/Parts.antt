-- ===== src/IpFilter/Parts.antt =====
-- Parts of addresses of HW_2/lib/ip_filter.cpp: splitting a text and printing its pieces, and octets in
-- decimal.
use cplus_plus_developer_pro.Prelude.{
  ℕ, ◌+◌, ◌/◌, ◌%◌, ◌<◌, ◌≡◌, refl, sym, ap, ◌∙◌, inl, inr, false, List, [], ◌∷◌, ◌++◌, ltb, ◌==◌,
  if◌then◌else◌, is_empty, snoc, arith, append-nil, append_assoc, Bool-cases, map,
}
use cplus_plus_developer_pro.Prelude.Text.{Text}
use cplus_plus_developer_pro.IpFilter.{
  value, split_from, split, print_ip, at_first, push_ip, stdin_to_vector, from_chars,
}

split_from-filled : (d : ℕ) (piece s : Text) → is_empty (split_from d piece s) ≡ false
unfolding split_from
split_from-filled d piece [] = refl
split_from-filled d piece (c ∷ s) = ground (arith, split_from-filled d (snoc piece c) s)

print_ip-split_from : (piece s : Text) → print_ip (split_from 46 piece s) ≡ piece ++ s
unfolding print_ip split_from
print_ip-split_from piece [] = refl
print_ip-split_from piece (c ∷ s) = elim (Bool-cases (c == 46)) [
  | inl e ↦
      let dot : c ≡ 46 = ground arith in
      rw (e, split_from-filled 46 [] s, print_ip-split_from [] s, dot) refl
  | inr e ↦ rw e (print_ip-split_from (snoc piece c) s ∙ append_assoc piece (c ∷ []) s)
]

-- Printing the parts that a text is split into at its dots gives back the text.
print_ip-split : (s : Text) → print_ip (split 46 s) ≡ s
unfolding split
print_ip-split s = print_ip-split_from [] s

-- A number below 1000 in decimal.
abbrev pub decimal : ℕ → Text
decimal n =
    if ltb n 10
    then (48 + n) ∷ []
    else if ltb n 100
    then (48 + n / 10) ∷ (48 + n % 10) ∷ []
    else (48 + n / 100) ∷ (48 + n / 10 % 10) ∷ (48 + n % 10) ∷ []

-- The decimal text of an octet is read back as that octet.
pub from_chars-decimal : (n : ℕ) → n < 256 → from_chars (decimal n) ≡ value n
unfolding from_chars
from_chars-decimal n h = ground arith

-- The first column of a line.
abbrev pub before_tab : Text → Text
before_tab [] = []
before_tab (c ∷ s) = if c == 9 then [] else c ∷ before_tab s

at_first-split_from :
    (piece s : Text) → at_first (split_from 9 piece s) ≡ value (piece ++ before_tab s)
unfolding at_first split_from
at_first-split_from piece [] = ap value (sym (append-nil piece))
at_first-split_from piece (c ∷ s) = elim (Bool-cases (c == 9)) [
  | inl e ↦ rw e (ap value (sym (append-nil piece)))
  | inr e ↦
      rw e (
        at_first-split_from (snoc piece c) s
        ∙ ap value (append_assoc piece (c ∷ []) (before_tab s)))
]

at_first-split : (s : Text) → at_first (split 9 s) ≡ value (before_tab s)
unfolding split
at_first-split s = at_first-split_from [] s

-- Reading never fails, and takes from each line, in order, its first column split at the dots.
stdin_to_vector-columns :
    (lines : List Text)
    → stdin_to_vector lines ≡ value (map (λ line. split 46 (before_tab line)) lines)
unfolding stdin_to_vector push_ip
stdin_to_vector-columns [] = refl
stdin_to_vector-columns (line ∷ lines) =
    rw (at_first-split line, stdin_to_vector-columns lines) refl

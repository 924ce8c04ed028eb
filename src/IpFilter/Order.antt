-- ===== src/IpFilter/Order.antt =====
-- The order and the filter of HW_2/lib/ip_filter.cpp.
use cplus_plus_developer_pro.Prelude.{ℕ, ◌≡◌, refl, Bool, true, false, List, [], ◌∷◌, arith, All}
use cplus_plus_developer_pro.Prelude.Text.{Text}
use cplus_plus_developer_pro.IpFilter.{Expected, value, unexpected, from_chars, compare_parts, comp}

-- A part that is read as an octet.
abbrev pub IsOctet : Text → Type 0
IsOctet part = (n : ℕ) × (from_chars part ≡ value n)

compare_parts_asymm :
    (a b : Expected ℕ) (r r' : Bool)
    → (r ≡ true → r' ≡ false)
    → compare_parts a b r ≡ true
    → compare_parts b a r' ≡ false
compare_parts_asymm (value m) (value n) r r' f e = ground arith
compare_parts_asymm (value m) (unexpected c) r r' f e = f e
compare_parts_asymm (unexpected c) (value n) r r' f e = f e
compare_parts_asymm (unexpected c) (unexpected k) r r' f e = f e

-- The comparison that sorts never puts two addresses before each other, whatever their parts are.
comp_asymm : (xs ys : List Text) → comp xs ys ≡ true → comp ys xs ≡ false
unfolding comp
comp_asymm [] [] h = refl
comp_asymm [] (y ∷ ys) h = refl
comp_asymm (x ∷ xs) [] h = refl
comp_asymm (x ∷ xs) (y ∷ ys) h =
    compare_parts_asymm (from_chars x) (from_chars y) (comp xs ys) (comp ys xs) (comp_asymm xs ys) h

compare_parts_trans :
    (l m n : ℕ) (r s t : Bool)
    → (r ≡ true → s ≡ true → t ≡ true)
    → compare_parts (value l) (value m) r ≡ true
    → compare_parts (value m) (value n) s ≡ true
    → compare_parts (value l) (value n) t ≡ true
compare_parts_trans l m n r s t f g h = ground arith

-- On addresses whose parts are all octets the comparison that sorts is transitive, also when the
-- addresses differ in length.
comp_trans :
    (xs ys zs : List Text)
    → All IsOctet xs
    → All IsOctet ys
    → All IsOctet zs
    → comp xs ys ≡ true
    → comp ys zs ≡ true
    → comp xs zs ≡ true
unfolding comp
comp_trans [] ys zs hx hy hz e f = cc
comp_trans (x ∷ xs) [] zs hx hy hz e f = cc
comp_trans (x ∷ xs) (y ∷ ys) [] hx hy hz e f = cc
comp_trans (x ∷ xs) (y ∷ ys) (z ∷ zs) hx hy hz e f =
    rw (hx.0.1, hz.0.1)
      (compare_parts_trans hx.0.0 hy.0.0 hz.0.0 (comp xs ys) (comp ys zs) (comp xs zs)
        (comp_trans xs ys zs hx.1 hy.1 hz.1) (rw (hx.0.1, hy.0.1) at e) (rw (hy.0.1, hz.0.1) at f))

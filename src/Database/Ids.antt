-- ===== src/Database/Ids.antt =====
-- The sets of ids of HW_11/lib/database.cpp: their members and their order.
use cplus_plus_developer_pro.Prelude.{
  ◌≡◌, refl, ap, inl, inr, true, false, ◌&&◌, ◌||◌, List, [], ◌∷◌, arith, Bool-cases,
}
use cplus_plus_developer_pro.Prelude.Int.{ℤ, ltb_ℤ, eq_ℤ, eq_ℤ→eq}
use cplus_plus_developer_pro.Database.{Table, contains, set_insert, member, add_common, add_all}

ltb_ℤ_trans : (i j k : ℤ) → ltb_ℤ i j ≡ true → ltb_ℤ j k ≡ true → ltb_ℤ i k ≡ true
ltb_ℤ_trans i j k g h = ground arith

pub ltb_ℤ_asymm : (i j : ℤ) → ltb_ℤ i j ≡ true → ltb_ℤ j i ≡ false
ltb_ℤ_asymm i j h = ground arith

ltb_ℤ_total : (i j : ℤ) → ltb_ℤ i j ≡ false → eq_ℤ i j ≡ false → ltb_ℤ j i ≡ true
ltb_ℤ_total i j g h = ground arith

-- Every id of a list is above a bound, judged by its first.
abbrev pub Above : ℤ → List ℤ → Type 0
Above i [] = Unit
Above i (j ∷ s) = ltb_ℤ i j ≡ true

abbrev pub Ascending : List ℤ → Type 0
Ascending [] = Unit
Ascending (i ∷ s) = Above i s × Ascending s

pub Above-trans : (i j : ℤ) (s : List ℤ) → ltb_ℤ i j ≡ true → Above j s → Above i s
Above-trans i j [] g h = tt
Above-trans i j (k ∷ s) g h = ltb_ℤ_trans i j k g h

set_insert-Above : (i k : ℤ) (s : List ℤ) → ltb_ℤ k i ≡ true → Above k s → Above k (set_insert i s)
set_insert-Above i k [] g h = g
set_insert-Above i k (j ∷ s) g h = ground arith

set_insert-Ascending : (i : ℤ) (s : List ℤ) → Ascending s → Ascending (set_insert i s)
set_insert-Ascending i [] h = (tt, tt)
set_insert-Ascending i (j ∷ s) h = elim (Bool-cases (ltb_ℤ i j)) [
  | inl e ↦ rw e (e, h)
  | inr e ↦ elim (Bool-cases (eq_ℤ i j)) [
    | inl f ↦ rw (e, f) h
    | inr f ↦
        rw (e, f) (set_insert-Above i j s (ltb_ℤ_total i j e f) h.0, set_insert-Ascending i s h.1)
  ]
]

member-set_insert : (k i : ℤ) (s : List ℤ) → member k (set_insert i s) ≡ (eq_ℤ i k || member k s)
member-set_insert k i [] = refl
member-set_insert k i (j ∷ s) = ground (arith, member-set_insert k i s, eq_ℤ→eq i j)

add_common-Ascending : (a b : Table) (s : List ℤ) → Ascending s → Ascending (add_common a b s)
add_common-Ascending [] b s h = h
add_common-Ascending ((i, name) ∷ a) b s h = elim (Bool-cases (contains i b)) [
  | inl e ↦ rw e (add_common-Ascending a b (set_insert i s) (set_insert-Ascending i s h))
  | inr e ↦ rw e (add_common-Ascending a b s h)
]

pub common-Ascending : (a b : Table) → Ascending (add_common a b [])
common-Ascending a b = add_common-Ascending a b [] tt

add_all-Ascending : (t : Table) (s : List ℤ) → Ascending s → Ascending (add_all t s)
add_all-Ascending [] s h = h
add_all-Ascending ((i, name) ∷ t) s h =
    add_all-Ascending t (set_insert i s) (set_insert-Ascending i s h)

pub all-Ascending : (a b : Table) → Ascending (add_all b (add_all a []))
all-Ascending a b = add_all-Ascending b (add_all a []) (add_all-Ascending a [] tt)

contains-same : (k i : ℤ) (b : Table) → eq_ℤ i k ≡ true → contains i b ≡ contains k b
contains-same k i b e = ap (λ j. contains j b) (eq_ℤ→eq i k e)

add_common-member :
    (k : ℤ) (a b : Table) (s : List ℤ)
    → member k (add_common a b s) ≡ (member k s || (contains k a && contains k b))
add_common-member k [] b s = ground arith
add_common-member k ((i, name) ∷ a) b s = ground (
  arith,
  add_common-member k a b (set_insert i s),
  add_common-member k a b s,
  member-set_insert k i s,
  contains-same k i b,
)

pub member-common :
    (k : ℤ) (a b : Table) → member k (add_common a b []) ≡ (contains k a && contains k b)
member-common k a b = add_common-member k a b []

add_all-member :
    (k : ℤ) (t : Table) (s : List ℤ) → member k (add_all t s) ≡ (member k s || contains k t)
add_all-member k [] s = ground arith
add_all-member k ((i, name) ∷ t) s =
    ground (arith, add_all-member k t (set_insert i s), member-set_insert k i s)

pub member-all :
    (k : ℤ) (a b : Table) → member k (add_all b (add_all a [])) ≡ (contains k a || contains k b)
member-all k a b = ground (arith, add_all-member k b (add_all a []), add_all-member k a [])

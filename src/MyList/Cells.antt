-- ===== src/MyList/Cells.antt =====
-- Which heaps hold the list of HW_3/include/my_list.hpp.
use cplus_plus_developer_pro.Prelude.{
  ℕ, ◌≡◌, refl, Bool, false, ◌||◌, Option, none, some, List, [], ◌∷◌, ◌==◌, length, arith, ◌%◌, ◌^◌,
}
use cplus_plus_developer_pro.MyList.{Node, Heap, MyList, write}

module _ {A : Type 0} where
  -- Addresses with values, and whether an address is among them.
  abbrev pub has : ℕ → List (ℕ × A) → Bool
  has a [] = false
  has a ((p, v) ∷ cells) = a == p || has a cells

  abbrev pub values : List (ℕ × A) → List A
  values [] = []
  values ((p, v) ∷ cells) = v ∷ values cells

  -- The address of the last cell, or one from before.
  abbrev pub last : ℕ → List (ℕ × A) → ℕ
  last p [] = p
  last p ((a, v) ∷ cells) = last a cells

  abbrev pub node : A → ℕ → Node A
  node v q = record { next = q; val = v }

  -- From `p` the nodes lead through distinct cells to the null pointer.
  abbrev pub Chain : Heap A → ℕ → List (ℕ × A) → Type 0
  Chain h p [] = p ≡ 0
  Chain h p ((a, v) ∷ cells) =
      (q : ℕ) × (p ≡ a)
      × ((a == 0) ≡ false)
      × (has a cells ≡ false)
      × (h a ≡ some (node v q))
      × Chain h q cells

  -- The heap holds a list of these cells.
  pub record IsList (h : Heap A) (l : MyList) (cells : List (ℕ × A)) : Type 0 where
    pub chain : Chain h l.head cells
    pub ends : l.tail ≡ last 0 cells
    pub counted : l.size ≡ length cells % 2 ^ 64

  pub frame :
      (h : Heap A) (a : ℕ) (c : Option (Node A)) (p : ℕ) (cells : List (ℕ × A))
      → has a cells ≡ false
      → Chain h p cells
      → Chain (write h a c) p cells
  frame h a c p [] out k = k
  frame h a c p ((b, v) ∷ cells) out (q, e, nz, apart, here, rest) =
      (q, e, nz, apart, ground arith, frame h a c q cells (ground arith) rest)

  pub not_has :
      (h : Heap A) (a p : ℕ) (cells : List (ℕ × A))
      → h a ≡ none
      → Chain h p cells
      → has a cells ≡ false
  not_has h a p [] free k = refl
  not_has h a p ((b, v) ∷ cells) free (q, e, nz, apart, here, rest) =
      ground (arith, not_has h a q cells free rest)

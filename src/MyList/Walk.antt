-- ===== src/MyList/Walk.antt =====
-- Reading a list of HW_3/include/my_list.hpp by its iterator, and its destructor.
use cplus_plus_developer_pro.Prelude.{
  ℕ, suc, ◌≡◌, refl, ap, ◌∙◌, false, none, some, List, [], ◌∷◌, ◌==◌, if◌then◌else◌, arith, ◌+◌,
  ◌-◌, ◌%◌, ◌^◌, length,
}
use cplus_plus_developer_pro.MyList.{Heap, MyList, write, walk, destroy, deallocate}
use cplus_plus_developer_pro.MyList.Cells.{has, values, node, Chain, IsList, frame}

module _ {A : Type 0} where
  walk-Chain :
      (h : Heap A) (p : ℕ) (cells : List (ℕ × A))
      → Chain h p cells
      → walk (suc (length cells)) p h ≡ some (values cells)
  unfolding walk
  walk-Chain h p [] k = ground arith
  walk-Chain h p ((a, v) ∷ cells) (q, e, nz, apart, here, rest) =
      ground (arith, walk-Chain h q cells rest)

  -- What the loop of the destructor leaves: every cell is free, the rest is as it was.
  abbrev pub freed : Heap A → List (ℕ × A) → Heap A
  freed h [] = h
  freed h ((a, v) ∷ cells) = freed (write h a none) cells

  destroy_round :
      (fuel count p : ℕ) (h : Heap A) (v : A) (q : ℕ)
      → (p == 0) ≡ false
      → h p ≡ some (node v q)
      → destroy (suc fuel) count p h
        ≡ destroy fuel ((count + 2 ^ 64 - 1) % 2 ^ 64) q (write h p none)
  unfolding destroy deallocate
  destroy_round fuel count p h v q nz here = rw (destroy, nz, here)

  destroy-Chain :
      (h : Heap A) (count p : ℕ) (cells : List (ℕ × A))
      → Chain h p cells
      → destroy (suc (length cells)) count p h ≡ some (freed h cells)
  unfolding destroy deallocate
  destroy-Chain h count p [] k = ground arith
  destroy-Chain h count p ((a, v) ∷ cells) (q, e, nz, apart, here, rest) =
      let count' = (count + 2 ^ 64 - 1) % 2 ^ 64 in
      destroy_round (suc (length cells)) count p h v q (ap (λ t. t == 0) e ∙ nz) (ap h e ∙ here)
      ∙ ap (λ t. destroy (suc (length cells)) count' q (write h t none)) e
      ∙ destroy-Chain (write h a none) count' q cells (frame h a none q cells apart rest)

  freed_lem :
      (h : Heap A) (b : ℕ) (cells : List (ℕ × A))
      → freed h cells b ≡ (if has b cells then none else h b)
  freed_lem h b [] = refl
  freed_lem h b ((a, v) ∷ cells) = ground (arith, freed_lem (write h a none) b cells)

-- For a heap that holds a list of some cells, as many steps of the iterator as there are cells
-- end at `end()`, never at a missing node, and give the values of the cells in order.
walk-values :
    {A : Type 0} (h : Heap A) (l : MyList) (cells : List (ℕ × A))
    → IsList h l cells
    → walk (suc (length cells)) l.head h ≡ some (values cells)
walk-values h l cells held = walk-Chain h l.head cells held.chain

-- For a heap that holds a list of some cells, the loop of the destructor, whatever the count of
-- its allocator, ends within one round for each cell and one more, reads no node that it has
-- freed, frees the address of every cell and changes no other address.
pub destroy_lem :
    {A : Type 0} (h : Heap A) (count : ℕ) (l : MyList) (cells : List (ℕ × A))
    → IsList h l cells
    → (h' : Heap A) × (destroy (suc (length cells)) count l.head h ≡ some h')
      × ((b : ℕ) → h' b ≡ (if has b cells then none else h b))
destroy_lem h count l cells held =
    (freed h cells, destroy-Chain h count l.head cells held.chain, λ b. freed_lem h b cells)

-- ===== src/MyList/Tests.antt =====
-- Runs of the list of HW_3 at concrete addresses.
use cplus_plus_developer_pro.Prelude.{
  ℕ, ◌≡◌, refl, none, some, List, [], ◌∷◌, if◌then◌else◌, snoc, arith,
}
use cplus_plus_developer_pro.MyList.{Heap, ok, MyList, write, link, allocate, push_back, destroy}
use cplus_plus_developer_pro.MyList.Cells.{has, node, IsList}
use cplus_plus_developer_pro.MyList.Push.{push_back-IsList}
use cplus_plus_developer_pro.MyList.Walk.{destroy_lem}

abbrev cells : List (ℕ × ℕ)
cells = (8, 70) ∷ (4, 71) ∷ []

abbrev heap : Heap ℕ
heap = write (write (λ p. none) 4 (some (node 71 0))) 8 (some (node 70 4))

abbrev two : MyList
two = record { head = 8; tail = 4; size = 2 }

two-IsList : IsList heap two cells
two-IsList = record {
  chain = (4, refl, refl, refl, refl, (0, refl, refl, refl, refl, refl));
  ends = refl;
  counted = refl;
}

push_back-IsList_example :
    (l' : MyList) × (h' : Heap ℕ) × (push_back 1 6 72 two heap ≡ ok l' h')
    × IsList h' l' (snoc cells (6, 72))
push_back-IsList_example = push_back-IsList 1 6 72 two heap cells (omega arith) refl refl two-IsList

destroy_lem_example :
    (h' : Heap ℕ) × (destroy 3 0 8 heap ≡ some h')
    × ((b : ℕ) → h' b ≡ (if has b cells then none else heap b))
destroy_lem_example = destroy_lem heap 0 two cells two-IsList

-- The allocator of a call counts from 0 again: a list of three nodes under a limit of 1.
over_limit :
    push_back 1 6 72 two heap
    ≡ ok
        (record { head = 8; tail = 6; size = 3 })
        (write (write heap 6 (some (node 72 0))) 4 (some (node 71 6)))
unfolding push_back allocate link
over_limit = refl

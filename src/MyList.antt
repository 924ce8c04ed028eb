-- ===== src/MyList.antt =====
-- HW_3/include/my_list.hpp and HW_3/include/my_allocator.hpp: the singly linked list on an explicit
-- heap, and the allocator with a limit. The address that `malloc` gives is an argument of the
-- calls that allocate, and 0 is the null pointer.
pub mod Cells
pub mod Push
pub mod Walk
mod Tests
use cplus_plus_developer_pro.Prelude.{
  ℕ, zero, suc, ◌+◌, ◌-◌, ◌%◌, ◌^◌, Bool, true, false, Option, none, some, List, [], ◌∷◌, ltb, ◌==◌,
  if◌then◌else◌, snoc,
}

module _ (A : Type 0) where
  pub record Node : Type 0 where
    pub next : ℕ
    pub val : A

  abbrev pub Heap : Type 0
  Heap = ℕ → Option Node

-- How a call ends: normally, by `std::bad_alloc`, or by reading where there is no node.
pub data Run (A B : Type 0) : Type 0 where
  ok : B → Heap A → Run A B
  bad_alloc : Run A B
  fault : Run A B

-- The list object, which is outside the heap.
pub record MyList : Type 0 where
  pub head : ℕ
  pub tail : ℕ
  pub size : ℕ

abbrev pub empty_list : MyList
empty_list = record { head = 0; tail = 0; size = 0 }

-- `MyAllocator::allocate`, but for `malloc`: the new count of `memory_alloc`, unless it throws.
pub allocate : (limit n memory_alloc : ℕ) → Option ℕ
allocate limit n memory_alloc =
    if ltb limit ((memory_alloc + n) % 2 ^ 64) then none else some ((memory_alloc + n) % 2 ^ 64)

abbrev pub empty : MyList → Bool
empty l = l.head == 0

module _ {A : Type 0} where
  abbrev pub write : Heap A → ℕ → Option (Node A) → Heap A
  write h p c q = if q == p then c else h q

  -- `MyAllocator::deallocate`: the new count, which wraps around, and the heap after `free`.
  pub deallocate : (n memory_alloc p : ℕ) → Heap A → ℕ × Heap A
  deallocate n memory_alloc p h = ((memory_alloc + 2 ^ 64 - n) % 2 ^ 64, write h p none)

  -- `push_back` once it has its node.
  pub link : ℕ → Option (Node A) → MyList → Heap A → Run A MyList
  link new none l h =
      if l.head == 0
      then ok (record l { head = new; tail = new; size = (l.size + 1) % 2 ^ 64 }) h
      else fault
  link new (some t) l h =
      if l.head == 0
      then ok (record l { head = new; tail = new; size = (l.size + 1) % 2 ^ 64 }) h
      else ok (record l { tail = new; size = (l.size + 1) % 2 ^ 64 })
          (write h l.tail (some (record t { next = new })))

  -- The allocator is a local variable, so that its count starts from 0 in each call.
  pub push_back : (limit new : ℕ) → A → MyList → Heap A → Run A MyList
  unfolding link
  push_back limit new v l h = elim (allocate limit 1 0) [
    | none ↦ bad_alloc
    | some count ↦
        let h' = write h new (some (record { next = 0; val = v })) in link new (h' l.tail) l h'
  ]

  -- `begin`, `++` and `*` until `end`, on fuel: the values, or a fault.
  pub walk : ℕ → ℕ → Heap A → Option (List A)
  walk zero p h = none
  walk (suc fuel) p h =
      let rest : Option (List A) = elim (h p) [
        | none ↦ none
        | some n ↦ elim (walk fuel n.next h) [ none ↦ none | some vs ↦ some (n.val ∷ vs) ]
      ] in
      if p == 0 then some [] else rest

  -- The loop of the destructor, on fuel, with the count of its local allocator.
  pub destroy : ℕ → ℕ → ℕ → Heap A → Option (Heap A)
  destroy zero count p h = none
  destroy (suc fuel) count p h =
      let rest : Option (Heap A) = elim (h p) [
        | none ↦ none
        | some n ↦ let (count', h') = deallocate 1 count p h in destroy fuel count' n.next h'
      ] in
      if p == 0 then some h else rest

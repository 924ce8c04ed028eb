-- ===== src/MyList/Push.antt =====
-- `push_back` of HW_3/include/my_list.hpp against the list of cells.
use cplus_plus_developer_pro.Prelude.{
  ℕ, ◌≡◌, refl, ◌<◌, true, false, ◌||◌, Option, none, some, List, [], ◌∷◌, ◌^◌, ◌==◌, snoc, arith,
  ◌%◌, length, length-snoc, ◌+◌, ap, sym, ◌∙◌,
}
use cplus_plus_developer_pro.MyList.{
  Node, Heap, ok, bad_alloc, MyList, write, link, allocate, push_back,
}
use cplus_plus_developer_pro.MyList.Cells.{has, last, node, Chain, IsList, frame, not_has}

-- The list object after the first and after a later `push_back`.
abbrev first_of : ℕ → MyList → MyList
first_of new l = record { head = new; tail = new; size = (l.size + 1) % 2 ^ 64 }

abbrev later_of : ℕ → MyList → MyList
later_of new l = record { head = l.head; tail = new; size = (l.size + 1) % 2 ^ 64 }

allocate_one : (limit : ℕ) → 0 < limit → allocate limit 1 0 ≡ some 1
unfolding allocate
allocate_one limit enough = ground arith

module _ {A : Type 0} where
  last-has : (a : ℕ) (v : A) (cells : List (ℕ × A)) → has (last a cells) ((a, v) ∷ cells) ≡ true
  last-has a v [] = ground arith
  last-has a v ((b, x) ∷ cells) = ground (arith, last-has b x cells)

  last-node :
      (h : Heap A) (p a : ℕ) (v : A) (cells : List (ℕ × A))
      → Chain h p ((a, v) ∷ cells)
      → (u : A) × (h (last a cells) ≡ some (node u 0))
  last-node h p a v [] (q, e, nz, apart, here, rest) = (v, cc)
  last-node h p a v ((b, x) ∷ cells) (q, e, nz, apart, here, rest) = last-node h q b x cells rest

  written : (h : Heap A) (p : ℕ) (c : Option (Node A)) → write h p c p ≡ c
  written h p c = ground arith

  elsewhere : (h : Heap A) (p q : ℕ) (c : Option (Node A)) → (q == p) ≡ false → write h p c q ≡ h q
  elsewhere h p q c apart = ground arith

  has-snoc :
      (a : ℕ) (cells : List (ℕ × A)) (b : ℕ) (v : A)
      → has a (snoc cells (b, v)) ≡ has a cells || a == b
  has-snoc a [] b v = ground arith
  has-snoc a ((p, x) ∷ cells) b v = ground (arith, has-snoc a cells b v)

  apart_last :
      (c a : ℕ) (v : A) (cells : List (ℕ × A))
      → has c ((a, v) ∷ cells) ≡ false
      → (c == last a cells) ≡ false
  apart_last c a v [] out = ground arith
  apart_last c a v ((b, x) ∷ cells) out = apart_last c b x cells (ground arith)

  extend :
      (h : Heap A) (p a : ℕ) (v u : A) (cells : List (ℕ × A)) (new : ℕ) (w : A)
      → Chain h p ((a, v) ∷ cells)
      → (new == 0) ≡ false
      → has new ((a, v) ∷ cells) ≡ false
      → h new ≡ some (node w 0)
      → h (last a cells) ≡ some (node u 0)
      → Chain (write h (last a cells) (some (node u new))) p (snoc ((a, v) ∷ cells) (new, w))
  extend h p a v u [] new w (q, e, nz, apart, here, rest) nz' out at_new at_last =
      let same : u ≡ v = cc in
      (
        new,
        e,
        nz,
        ground arith,
        written h a (some (node u new)) ∙ ap (λ x. some (node x new)) same,
        (0, refl, nz', refl, elsewhere h a new (some (node u new)) (ground arith) ∙ at_new, refl),
      )
  extend h p a v u ((b, x) ∷ cells) new w (q, e, nz, apart, here, rest) nz' out at_new at_last = (
    q,
    e,
    nz,
    has-snoc a ((b, x) ∷ cells) new w ∙ ground arith,
    elsewhere h (last b cells) a (some (node u new)) (apart_last a b x cells apart) ∙ here,
    extend h q b x u cells new w rest nz' (ground arith) at_new at_last,
  )

  abbrev stored : ℕ → A → Heap A → Heap A
  stored new v h = write h new (some (node v 0))

  push_back_linked :
      (limit new : ℕ) (v : A) (l : MyList) (h : Heap A)
      → 0 < limit
      → push_back limit new v l h ≡ link new (stored new v h l.tail) l (stored new v h)
  unfolding push_back
  push_back_linked limit new v l h enough = rw (push_back, allocate_one limit enough)

  link_first :
      (new : ℕ) (n : Option (Node A)) (l : MyList) (h : Heap A)
      → l.head ≡ 0
      → link new n l h ≡ ok (first_of new l) h
  unfolding link
  link_first new none l h e = ground arith
  link_first new (some t) l h e = ground arith

  link_later :
      (new : ℕ) (u : A) (l : MyList) (h : Heap A)
      → (l.head == 0) ≡ false
      → link new (some (node u 0)) l h ≡ ok (later_of new l) (write h l.tail (some (node u new)))
  unfolding link
  link_later new u l h e = ground arith

  link_tail :
      (new : ℕ) (v u : A) (l : MyList) (h : Heap A) (a : ℕ) (x : A) (cells : List (ℕ × A))
      → IsList h l ((a, x) ∷ cells)
      → stored new v h (last a cells) ≡ some (node u 0)
      → link new (stored new v h l.tail) l (stored new v h)
        ≡ ok (later_of new l) (write (stored new v h) (last a cells) (some (node u new)))
  link_tail new v u l h a x cells held at_last =
      let (q, e, nz, apart, here, rest) = held.chain in
      ap (λ t. link new (stored new v h t) l (stored new v h)) held.ends
      ∙ ap (λ n. link new n l (stored new v h)) at_last
      ∙ link_later new u l (stored new v h) (ground arith)
      ∙ ap (λ t. ok (later_of new l) (write (stored new v h) t (some (node u new)))) held.ends

  length-snoc_counted :
      (l : MyList) (cells : List (ℕ × A)) (c : ℕ × A)
      → l.size ≡ length cells % 2 ^ 64
      → (l.size + 1) % 2 ^ 64 ≡ length (snoc cells c) % 2 ^ 64
  length-snoc_counted l cells c e = omega (arith, length-snoc cells c)

  last-snoc : (p : ℕ) (cells : List (ℕ × A)) (a : ℕ) (v : A) → last p (snoc cells (a, v)) ≡ a
  last-snoc p [] a v = refl
  last-snoc p ((b, x) ∷ cells) a v = last-snoc b cells a v

-- For an allocator whose limit is at least 1, when `malloc` gives an address that is not null and
-- not in use, `push_back` succeeds however long the list is already, and the heap then holds
-- the list of the former cells with the new one at its end.
pub push_back-IsList :
    {A : Type 0} (limit new : ℕ) (v : A) (l : MyList) (h : Heap A) (cells : List (ℕ × A))
    → 0 < limit
    → (new == 0) ≡ false
    → h new ≡ none
    → IsList h l cells
    → (l' : MyList) × (h' : Heap A) × (push_back limit new v l h ≡ ok l' h')
      × IsList h' l' (snoc cells (new, v))
push_back-IsList limit new v l h [] enough nz free held = (
  first_of new l,
  stored new v h,
  push_back_linked limit new v l h enough
      ∙ link_first new (stored new v h l.tail) l (stored new v h) held.chain,
  record {
    chain = (0, refl, nz, refl, written h new (some (node v 0)), refl);
    ends = refl;
    counted = length-snoc_counted l [] (new, v) held.counted;
  },
)
push_back-IsList limit new v l h ((a, x) ∷ cells) enough nz free held =
    let out : has new ((a, x) ∷ cells) ≡ false =
      not_has h new l.head ((a, x) ∷ cells) free held.chain in
    let whole : Chain (stored new v h) l.head ((a, x) ∷ cells) =
      frame h new (some (node v 0)) l.head ((a, x) ∷ cells) out held.chain in
    let (u, at_last) = last-node (stored new v h) l.head a x cells whole in
    let linked : link new (stored new v h l.tail) l (stored new v h)
        ≡ ok (later_of new l) (write (stored new v h) (last a cells) (some (node u new))) =
      link_tail new v u l h a x cells held at_last in
    (
      later_of new l,
      write (stored new v h) (last a cells) (some (node u new)),
      push_back_linked limit new v l h enough ∙ linked,
      record {
        chain =
            extend (stored new v h) l.head a x u cells new v whole nz out
              (written h new (some (node v 0))) at_last;
        ends = sym (last-snoc 0 ((a, x) ∷ cells) new v);
        counted = length-snoc_counted l ((a, x) ∷ cells) (new, v) held.counted;
      },
    )

-- With a limit of 0, `push_back` throws for every list.
push_back-zero :
    {A : Type 0} (new : ℕ) (v : A) (l : MyList) (h : Heap A) → push_back 0 new v l h ≡ bad_alloc
unfolding push_back allocate
push_back-zero new v l h = refl

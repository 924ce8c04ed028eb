-- ===== src/Bayan/Duplicates.antt =====
-- `find_duplicates` of HW_8/lib/bayan.cpp: the groups it reports.
use cplus_plus_developer_pro.Prelude.{
  ℕ, ◌≡◌, refl, sym, ◌∙◌, inl, inr, Bool, true, false, ◌&&◌, ◌||◌, some, List, [], ◌∷◌, ◌++◌, arith,
  ltb, ◌==◌, length, replicate, All, All-append, All-map, All-both, Bool-cases,
}
use cplus_plus_developer_pro.Prelude.Text.{Text, text_eq, text_eq_refl}
use cplus_plus_developer_pro.Bayan.{
  Reader, FileInfo, num_blocks, push, by_all_hashes, groups, first_size, find_duplicates_in_group,
  by_size, each_size, find_duplicates,
}
use cplus_plus_developer_pro.Bayan.Buckets.{
  AllIn, held, push-AllIn, held-push, listed-two, together,
}
use cplus_plus_developer_pro.Bayan.Hashing.{text_of, hashes_from, digest, ReadyWith}
use cplus_plus_developer_pro.Bayan.Rounds.{Found, group-Found}

-- Whether some file has this size and path.
abbrev pub of_size : ℕ → Text → List FileInfo → Bool
of_size k p [] = false
of_size k p (f ∷ fs) = f.size == k && text_eq f.path p || of_size k p fs

of_size-All : (fs : List FileInfo) → All (λ f. of_size f.size f.path fs ≡ true) fs
of_size-All [] = tt
of_size-All (f ∷ fs) =
    (ground (arith, text_eq_refl f.path), All-map fs (λ g h. ground arith) (of_size-All fs))

eq_ℕ : (j k : ℕ) → (j == k) ≡ true → j ≡ k
eq_ℕ j k e = ground arith

eq_ℕ_refl : (k : ℕ) → (k == k) ≡ true
eq_ℕ_refl k = ground arith

together-append :
    (p q : Text) (gs hs : List (List FileInfo))
    → together p q (gs ++ hs) ≡ (together p q gs || together p q hs)
together-append p q [] hs = refl
together-append p q (g ∷ gs) hs = ground (arith, together-append p q gs hs)

-- A file that was just constructed and can be opened.
pub record IsFresh (r : Reader) (block_size : ℕ) (f : FileInfo) : Type 0 where
  pub blocks : f.block_size ≡ block_size
  pub unhashed : f.hashes ≡ replicate (num_blocks f.size block_size) []
  pub readable : r.contents f.path ≡ some (text_of (r.contents f.path))

module _ (r : Reader) (bs : ℕ) (files : List FileInfo) where
  abbrev Known : FileInfo → Type 0
  Known f = IsFresh r bs f × (of_size f.size f.path files ≡ true)

  abbrev Sized : ℕ → FileInfo → Type 0
  Sized k f = (k ≡ f.size) × Known f

  -- What is known of each file of a group of one size.
  abbrev pub OfSize : ℕ → Text → ℕ → Type 0
  OfSize k p size = (size ≡ k) × (of_size k p files ≡ true)

  record BySize (fs : List FileInfo) (m m' : List (ℕ × List FileInfo)) : Type 0 where
    under : AllIn Sized m'
    kept :
        (k : ℕ) (p : Text) → held (λ i j. i == j) k p m ≡ true → held (λ i j. i == j) k p m' ≡ true
    put : (k : ℕ) (p : Text) → of_size k p fs ≡ true → held (λ i j. i == j) k p m' ≡ true

  by_size-BySize :
      (fs : List FileInfo) (m : List (ℕ × List FileInfo))
      → All Known fs
      → AllIn Sized m
      → BySize fs m (by_size fs m)
  unfolding by_size
  by_size-BySize [] m h a = record { under = a; kept = λ k p e. e; put = λ k p e. cc }
  by_size-BySize (f ∷ fs) m h a =
      let m1 = push (λ i j. i == j) f.size f m in
      let s =
        by_size-BySize fs m1 h.1 (push-AllIn (λ i j. i == j) eq_ℕ Sized f.size f m (refl, h.0) a) in
      record {
        under = s.under;
        kept = λ k p e.
            s.kept k p (ground (arith, held-push (λ i j. i == j) eq_ℕ eq_ℕ_refl k p f.size f m));
        put = λ k p e. elim (Bool-cases (f.size == k && text_eq f.path p)) [
          | inl c ↦
              s.kept k p (ground (arith, held-push (λ i j. i == j) eq_ℕ eq_ℕ_refl k p f.size f m))
          | inr c ↦ s.put k p (ground arith)
        ];
      }

  Sized-ReadyWith :
      (k : ℕ) (f : FileInfo) → Sized k f → ReadyWith r bs (OfSize k) 0 (num_blocks k bs) f
  Sized-ReadyWith k f (e, (fresh, known)) = (
    record { blocks = fresh.blocks; computed = rw e fresh.unhashed; readable = fresh.readable },
    (sym e, rw e known),
  )

  -- The groups that are reported for some size groups.
  abbrev pub Sound : List (List FileInfo) → Type 0
  Sound gs =
      All
        (λ g.
          (k : ℕ) × (h : Text) × All
            (λ f. (h ≡ digest r bs (num_blocks k bs) f.path) × OfSize k f.path f.size) g)
        gs

  record Reported (m : List (ℕ × List FileInfo)) (gs : List (List FileInfo)) : Type 0 where
    sound : Sound gs
    complete :
        (k : ℕ) (p q : Text)
        → text_eq p q ≡ false
        → held (λ i j. i == j) k p m ≡ true
        → held (λ i j. i == j) k q m ≡ true
        → hashes_from r bs p 0 (num_blocks k bs) ≡ hashes_from r bs q 0 (num_blocks k bs)
        → together p q gs ≡ true

  first_size-Sized :
      (k : ℕ) (fs : List FileInfo)
      → All (Sized k) fs
      → ltb (length fs) 2 ≡ false
      → first_size fs ≡ k
  first_size-Sized k [] h two = cc
  first_size-Sized k (f ∷ fs) h two = sym h.0.0

  find_duplicates_in_group-Found :
      (k : ℕ) (fs : List FileInfo)
      → All (Sized k) fs
      → ltb (length fs) 2 ≡ false
      → (gs : List (List FileInfo)) × (find_duplicates_in_group r bs fs ≡ some gs)
        × Found r bs (OfSize k) (num_blocks k bs) fs gs
  unfolding find_duplicates_in_group
  find_duplicates_in_group-Found k fs h two =
      let (left, run, found) =
        group-Found r bs (OfSize k) (num_blocks k bs) fs (All-map fs (Sized-ReadyWith k) h) in
      (
        groups (by_all_hashes left []),
        rw (first_size-Sized k fs h two, run, find_duplicates_in_group) refl,
        found,
      )

  few-Reported :
      (k : ℕ) (fs : List FileInfo) (m : List (ℕ × List FileInfo)) (hs : List (List FileInfo))
      → ltb (length fs) 2 ≡ true
      → Reported m hs
      → Reported ((k, fs) ∷ m) hs
  few-Reported k fs m hs e h = record {
    sound = h.sound;
    complete = λ j p q ne hp hq eq. elim (Bool-cases (k == j)) [
      | inl c ↦
          let none : ltb (length fs) 2 ≡ false = listed-two p q fs ne (rw c at hp) (rw c at hq) in
          cc (none, e)
      | inr c ↦ h.complete j p q ne (rw c at hp) (rw c at hq) eq
    ];
  }

  many-Reported :
      (k : ℕ) (fs : List FileInfo) (m : List (ℕ × List FileInfo)) (gs hs : List (List FileInfo))
      → Found r bs (OfSize k) (num_blocks k bs) fs gs
      → Reported m hs
      → Reported ((k, fs) ∷ m) (gs ++ hs)
  many-Reported k fs m gs hs found h = record {
    sound = All-append _ gs hs (All-map gs (λ g (d, all). (k, d, all)) found.sound) h.sound;
    complete = λ j p q ne hp hq eq. together-append p q gs hs ∙ (elim (Bool-cases (k == j)) [
      | inl c ↦
          let same : j ≡ k = sym (eq_ℕ k j c) in
          let there : together p q gs ≡ true =
            found.complete p q ne (rw c at hp) (rw c at hq) (rw same at eq) in
          rw there refl
      | inr c ↦ ground (arith, h.complete j p q ne (rw c at hp) (rw c at hq) eq)
    ]);
  }

  each_size-Reported :
      (m : List (ℕ × List FileInfo))
      → AllIn Sized m
      → (gs : List (List FileInfo)) × (each_size r bs m ≡ some gs) × Reported m gs
  unfolding each_size
  each_size-Reported [] a = ([], refl, record { sound = tt; complete = λ k p q ne hp hq eq. cc })
  each_size-Reported ((k, fs) ∷ m) a =
      let (hs, run, rest) = each_size-Reported m a.1 in
      elim (Bool-cases (ltb (length fs) 2)) [
        | inl e ↦ (hs, rw e run, few-Reported k fs m hs e rest)
        | inr e ↦
            let (gs, run', found) = find_duplicates_in_group-Found k fs a.0 e in
            (gs ++ hs, rw (e, run, run') refl, many-Reported k fs m gs hs found rest)
      ]

reported :
    (r : Reader) (bs : ℕ) (files : List FileInfo)
    → All (IsFresh r bs) files
    → BySize r bs files files [] (by_size files [])
reported r bs files fresh =
    by_size-BySize r bs files files []
      (All-both (IsFresh r bs) (λ f. of_size f.size f.path files ≡ true) files fresh
        (of_size-All files))
      tt

-- When every file was just constructed and can be opened, the finder returns groups. In a group all
-- files have one size, and their block hashes in a row give one text; each has the path and size
-- of a file that was searched.
pub find_duplicates-Sound :
    (r : Reader) (block_size : ℕ) (files : List FileInfo)
    → All (IsFresh r block_size) files
    → (gs : List (List FileInfo)) × (find_duplicates r block_size files ≡ some gs)
      × Sound r block_size files gs
unfolding find_duplicates
find_duplicates-Sound r bs files fresh =
    let s = reported r bs files fresh in
    let (gs, run, found) = each_size-Reported r bs files (by_size files []) s.under in
    (gs, run, found.sound)

-- When every file was just constructed and can be opened, two files with different paths, of one size
-- and with the same hash for each block, are in a group of the result together.
pub find_duplicates_complete :
    (r : Reader) (block_size : ℕ) (files : List FileInfo) (k : ℕ) (p q : Text)
    → All (IsFresh r block_size) files
    → text_eq p q ≡ false
    → of_size k p files ≡ true
    → of_size k q files ≡ true
    → hashes_from r block_size p 0 (num_blocks k block_size)
      ≡ hashes_from r block_size q 0 (num_blocks k block_size)
    → (gs : List (List FileInfo)) × (find_duplicates r block_size files ≡ some gs)
      × (together p q gs ≡ true)
unfolding find_duplicates
find_duplicates_complete r bs files k p q fresh ne hp hq eq =
    let s = reported r bs files fresh in
    let (gs, run, found) = each_size-Reported r bs files (by_size files []) s.under in
    (gs, run, found.complete k p q ne (s.put k p hp) (s.put k q hq) eq)

-- Files of one size with the same block hashes are in a group together.
abbrev pub Complete : Reader → ℕ → List FileInfo → List (List FileInfo) → Type 0
Complete r block_size files gs =
    (k : ℕ) (p q : Text)
    → text_eq p q ≡ false
    → of_size k p files ≡ true
    → of_size k q files ≡ true
    → hashes_from r block_size p 0 (num_blocks k block_size)
      ≡ hashes_from r block_size q 0 (num_blocks k block_size)
    → together p q gs ≡ true

-- The groups of the finder are sound and complete.
pub find_duplicates_lem :
    (r : Reader) (block_size : ℕ) (files : List FileInfo)
    → All (IsFresh r block_size) files
    → (gs : List (List FileInfo)) × (find_duplicates r block_size files ≡ some gs)
      × Sound r block_size files gs
      × Complete r block_size files gs
unfolding find_duplicates
find_duplicates_lem r bs files fresh =
    let s = reported r bs files fresh in
    let (gs, run, found) = each_size-Reported r bs files (by_size files []) s.under in
    (
      gs,
      run,
      found.sound,
      λ k p q ne hp hq eq. found.complete k p q ne (s.put k p hp) (s.put k q hq) eq,
    )

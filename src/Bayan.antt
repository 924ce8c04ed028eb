-- ===== src/Bayan.antt =====
-- HW_8/lib/bayan.cpp: the finder of duplicate files. `FileInfo` has mutable hashes, which the code
-- changes through pointers into one vector. Each file has one pointer, and nothing else reads the
-- vector later, so here the files themselves are passed on. An unordered map is an association
-- list in the order in which its keys came; an exception is `none`.
pub mod Buckets
pub mod Hashing
pub mod Rounds
pub mod Duplicates
pub mod Scanner
pub mod Process
mod Tests
use cplus_plus_developer_pro.Prelude.{
  ℕ, zero, suc, ◌+◌, ◌-◌, ◌*◌, ◌/◌, ◌%◌, ◌^◌, Bool, true, false, not, Option, none, some, List, [],
  ◌∷◌, ◌++◌, ltb, ◌==◌, if◌then◌else◌, is_empty, length, snoc, set, take, drop, replicate, map,
}
use cplus_plus_developer_pro.Prelude.Text.{Text, text_eq}

-- Hashing and the file system: what can be read from a path, if it can be opened.
pub record Reader : Type 0 where
  pub contents : Text → Option Text
  pub hash : Text → Text

pub record FileInfo : Type 0 where
  pub path : Text
  pub file_opened : Bool
  pub hashes : List Text
  pub block_size : ℕ
  pub size : ℕ

-- A block size of 0, by which the code divides, gives no blocks here; a run has the hypothesis that the
-- size is not 0.
abbrev pub num_blocks : ℕ → ℕ → ℕ
num_blocks size block_size = (size + block_size + 2 ^ 64 - 1) % 2 ^ 64 / block_size

-- The constructor.
pub file_info : Text → ℕ → ℕ → FileInfo
file_info path size block_size = record {
  path = path;
  file_opened = false;
  hashes = replicate (num_blocks size block_size) [];
  block_size = block_size;
  size = size;
}

-- The copy constructor, which has no stream.
abbrev pub copy : FileInfo → FileInfo
copy f = record f { file_opened = false }

-- `hashes_[i]`
abbrev pub hash_at : List Text → ℕ → Text
hash_at [] i = []
hash_at (h ∷ hs) zero = h
hash_at (h ∷ hs) (suc i) = hash_at hs i

-- The bytes of a block. Blocks are read in ascending order, so that only the last one is short.
abbrev pub block : ℕ → ℕ → Text → Text
block block_size i s = take block_size (drop (i * block_size) s)

-- `compute_block_hash` from the opening of the stream, which an open file has already.
pub read_block : Reader → ℕ → FileInfo → Option Text → Option (Text × FileInfo)
read_block r i f none = none
read_block r i f (some s) =
    let h = r.hash (block f.block_size i s) in
    some (h, record f { hashes = set f.hashes i h; file_opened = true })

pub compute_block_hash : Reader → ℕ → FileInfo → Option (Text × FileInfo)
unfolding read_block
compute_block_hash r i f =
    if not (is_empty (hash_at f.hashes i))
    then some (hash_at f.hashes i, f)
    else read_block r i f (r.contents f.path)

-- `map[key].emplace_back(file)`
pub push {ℓ} :
    {K : Type ℓ}
    → (K → K → Bool)
    → K
    → FileInfo
    → List (K × List FileInfo)
    → List (K × List FileInfo)
push eq k f [] = (k, f ∷ []) ∷ []
push eq k f ((j, fs) ∷ m) = if eq j k then (j, snoc fs f) ∷ m else (j, fs) ∷ push eq k f m

-- The files of one block index by their hashes.
pub hash_files :
    Reader → ℕ → List FileInfo → List (Text × List FileInfo) → Option (List (Text × List FileInfo))
hash_files r i [] m = some m
hash_files r i (f ∷ fs) m = elim (compute_block_hash r i f) [
  | none ↦ none
  | some (h, f') ↦ hash_files r i fs (push text_eq h f' m)
]

pub survivors : List (Text × List FileInfo) → List FileInfo
survivors [] = []
survivors ((h, fs) ∷ m) = let rest = survivors m in if ltb (length fs) 2 then rest else fs ++ rest

-- The loop over the blocks from one on: the number of blocks left comes first.
pub rounds : Reader → ℕ → ℕ → List FileInfo → Option (List FileInfo)
rounds r zero i fs = some fs
rounds r (suc n) i fs = elim (hash_files r i fs []) [
  | none ↦ none
  | some m ↦
      let left = survivors m in
      let rest = rounds r n (i + 1) left in if is_empty left then some [] else rest
]

abbrev pub all_hashes : List Text → Text
all_hashes [] = []
all_hashes (h ∷ hs) = h ++ all_hashes hs

pub by_all_hashes : List FileInfo → List (Text × List FileInfo) → List (Text × List FileInfo)
by_all_hashes [] m = m
by_all_hashes (f ∷ fs) m = by_all_hashes fs (push text_eq (all_hashes f.hashes) f m)

pub groups : List (Text × List FileInfo) → List (List FileInfo)
groups [] = []
groups ((h, fs) ∷ m) = map copy fs ∷ groups m

-- `files[0]->get_size()`; a size group has two files at least.
abbrev pub first_size : List FileInfo → ℕ
first_size [] = 0
first_size (f ∷ fs) = f.size

pub find_duplicates_in_group : Reader → ℕ → List FileInfo → Option (List (List FileInfo))
find_duplicates_in_group r block_size fs =
    elim (rounds r (num_blocks (first_size fs) block_size) 0 fs) [
      | none ↦ none
      | some left ↦ some (groups (by_all_hashes left []))
    ]

pub by_size : List FileInfo → List (ℕ × List FileInfo) → List (ℕ × List FileInfo)
by_size [] m = m
by_size (f ∷ fs) m = by_size fs (push (λ j k. j == k) f.size f m)

-- The groups of one size before those of the others.
abbrev pub joined :
    Option (List (List FileInfo)) → Option (List (List FileInfo)) → Option (List (List FileInfo))
joined none rest = none
joined (some gs) none = none
joined (some gs) (some hs) = some (gs ++ hs)

pub each_size : Reader → ℕ → List (ℕ × List FileInfo) → Option (List (List FileInfo))
each_size r block_size [] = some []
each_size r block_size ((size, fs) ∷ m) =
    let rest = each_size r block_size m in
    if ltb (length fs) 2 then rest else joined (find_duplicates_in_group r block_size fs) rest

pub find_duplicates : Reader → ℕ → List FileInfo → Option (List (List FileInfo))
unfolding each_size by_size
find_duplicates r block_size files = each_size r block_size (by_size files [])

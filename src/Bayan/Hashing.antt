-- ===== src/Bayan/Hashing.antt =====
-- The hashes of blocks of HW_8/lib/bayan.cpp, and a round over one block index.
use cplus_plus_developer_pro.Prelude.{
  ℕ, zero, suc, ◌+◌, ◌≡◌, refl, ap, ◌∙◌, inl, inr, true, Option, none, some, List, [], ◌∷◌, ◌++◌,
  arith, set, replicate, All, Bool-cases,
}
use cplus_plus_developer_pro.Prelude.Text.{Text, text_eq, text_eq→eq, text_eq_refl}
use cplus_plus_developer_pro.Bayan.{
  Reader, FileInfo, hash_at, block, compute_block_hash, read_block, push, hash_files, all_hashes,
}
use cplus_plus_developer_pro.Bayan.Buckets.{listed, AllIn, held, push-AllIn, held-push}

-- What a path holds, if it can be opened.
abbrev pub text_of : Option Text → Text
text_of none = []
text_of (some s) = s

module _ (r : Reader) (bs : ℕ) where
  -- The hash of a block of the file at a path, and those of some blocks from one on.
  abbrev pub block_hash : Text → ℕ → Text
  block_hash p i = r.hash (block bs i (text_of (r.contents p)))

  abbrev pub hashes_from : Text → ℕ → ℕ → List Text
  hashes_from p i zero = []
  hashes_from p i (suc n) = block_hash p i ∷ hashes_from p (i + 1) n

  -- The first hashes of the file at a path in a row, by which the groups are told apart.
  abbrev pub digest : ℕ → Text → Text
  digest n p = all_hashes (hashes_from p 0 n)

  -- A file whose first `i` hashes are computed and `n` are not.
  pub record Ready (i n : ℕ) (f : FileInfo) : Type 0 where
    pub blocks : f.block_size ≡ bs
    pub computed : f.hashes ≡ hashes_from f.path 0 i ++ replicate n []
    pub readable : r.contents f.path ≡ some (text_of (r.contents f.path))

  hash_at-blank :
      (p : Text) (j i n : ℕ) → hash_at (hashes_from p j i ++ replicate (suc n) []) i ≡ []
  hash_at-blank p j zero n = refl
  hash_at-blank p j (suc i) n = hash_at-blank p (j + 1) i n

  set-blank :
      (p : Text) (j i n : ℕ)
      → set (hashes_from p j i ++ replicate (suc n) []) i (block_hash p (j + i))
        ≡ hashes_from p j (suc i) ++ replicate n []
  set-blank p j zero n = let same : j + 0 ≡ j = omega arith in rw same refl
  set-blank p j (suc i) n =
      let same : j + suc i ≡ j + 1 + i = omega arith in
      rw same (ap (λ hs. block_hash p j ∷ hs) (set-blank p (j + 1) i n))

  abbrev hashed : ℕ → FileInfo → FileInfo
  hashed i f = record f { hashes = set f.hashes i (block_hash f.path i); file_opened = true }

  read_block-some :
      (i : ℕ) (f : FileInfo) (o : Option Text)
      → o ≡ some (text_of o)
      → f.block_size ≡ bs
      → read_block r i f o ≡ (
          let h = r.hash (block bs i (text_of o)) in
          some (h, record f { hashes = set f.hashes i h; file_opened = true }))
  unfolding read_block
  read_block-some i f none e b = cc
  read_block-some i f (some s) e b =
      ap
        (λ (size : ℕ).
          let h = r.hash (block size i s) in
          some (h, record f { hashes = set f.hashes i h; file_opened = true }))
        b

  compute-Ready :
      (i n : ℕ) (f : FileInfo)
      → Ready i (suc n) f
      → (compute_block_hash r i f ≡ some (block_hash f.path i, hashed i f))
        × Ready (suc i) n (hashed i f)
  unfolding compute_block_hash
  compute-Ready i n f h = (
    rw blank (read_block-some i f (r.contents f.path) h.readable h.blocks),
    record {
      blocks = h.blocks;
      computed = ap (λ hs. set hs i (block_hash f.path i)) h.computed ∙ filled;
      readable = h.readable;
    },
  )
    where
      blank : hash_at f.hashes i ≡ []
      blank = ap (λ hs. hash_at hs i) h.computed ∙ hash_at-blank f.path 0 i n

      filled :
          set (hashes_from f.path 0 i ++ replicate (suc n) []) i (block_hash f.path i)
          ≡ hashes_from f.path 0 (suc i) ++ replicate n []
      filled = let same : 0 + i ≡ i = omega arith in rw same at (set-blank f.path 0 i n)

  hash_files-cons :
      (i : ℕ) (f : FileInfo) (fs : List FileInfo) (m : List (Text × List FileInfo)) (h : Text)
      (f' : FileInfo)
      → compute_block_hash r i f ≡ some (h, f')
      → hash_files r i (f ∷ fs) m ≡ hash_files r i fs (push text_eq h f' m)
  unfolding hash_files
  hash_files-cons i f fs m h f' e = rw (e, hash_files) refl

  -- A file that has just been put under its hash is there.
  held-hashed :
      (i : ℕ) (p : Text) (f : FileInfo) (m : List (Text × List FileInfo))
      → text_eq f.path p ≡ true
      → held text_eq (block_hash p i) p (push text_eq (block_hash f.path i) (hashed i f) m) ≡ true
  held-hashed i p f m e =
      let same : block_hash f.path i ≡ block_hash p i =
        ap (λ (q : Text). block_hash q i) (text_eq→eq f.path p e) in
      held-push text_eq text_eq→eq text_eq_refl (block_hash p i) p (block_hash f.path i)
        (hashed i f) m
      ∙ rw (e, same, text_eq_refl (block_hash p i)) refl

  -- Files with a property of their paths and sizes, which no hashing changes.
  module _ {κ} (Q : Text → ℕ → Type κ) where
    abbrev pub ReadyWith : ℕ → ℕ → FileInfo → Type κ
    ReadyWith i n f = Ready i n f × Q f.path f.size

    abbrev pub UnderHash : ℕ → ℕ → Text → FileInfo → Type κ
    UnderHash i n k f = (k ≡ block_hash f.path i) × ReadyWith (suc i) n f

    -- A round puts every file under the hash of its block.
    pub record Sorted (i n : ℕ) (fs : List FileInfo) (m m' : List (Text × List FileInfo))
        : Type κ where
      pub under : AllIn (UnderHash i n) m'
      pub kept : (k p : Text) → held text_eq k p m ≡ true → held text_eq k p m' ≡ true
      pub put : (p : Text) → listed p fs ≡ true → held text_eq (block_hash p i) p m' ≡ true

    pub hash_files-Sorted :
        (i n : ℕ) (fs : List FileInfo) (m : List (Text × List FileInfo))
        → All (ReadyWith i (suc n)) fs
        → AllIn (UnderHash i n) m
        → (m' : List (Text × List FileInfo)) × (hash_files r i fs m ≡ some m') × Sorted i n fs m m'
    unfolding hash_files
    hash_files-Sorted i n [] m h a =
        (m, refl, record { under = a; kept = λ k p e. e; put = λ p e. cc })
    hash_files-Sorted i n (f ∷ fs) m h a =
        let (run, ready) = compute-Ready i n f h.0.0 in
        let key = block_hash f.path i in
        let m1 = push text_eq key (hashed i f) m in
        let (m', e, s) = hash_files-Sorted i n fs m1 h.1 (
          push-AllIn text_eq text_eq→eq (UnderHash i n) key (hashed i f) m (refl, (ready, h.0.1))
            a) in
        (
          m',
          hash_files-cons i f fs m key (hashed i f) run ∙ e,
          record {
            under = s.under;
            kept = λ k p g.
                s.kept k p (
                  ground (arith, held-push text_eq text_eq→eq text_eq_refl k p key (hashed i f) m));
            put = λ p g. elim (Bool-cases (text_eq f.path p)) [
              | inl c ↦ s.kept (block_hash p i) p (held-hashed i p f m c)
              | inr c ↦ s.put p (rw c at g)
            ];
          },
        )

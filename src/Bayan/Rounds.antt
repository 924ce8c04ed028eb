-- ===== src/Bayan/Rounds.antt =====
-- The loop over the blocks in HW_8/lib/bayan.cpp, and the groups of files with the same hashes.
use cplus_plus_developer_pro.Prelude.{
  ℕ, zero, suc, ◌+◌, ◌≡◌, refl, sym, ap, ◌∙◌, inl, inr, true, false, some, List, [], ◌∷◌, arith,
  if◌then◌else◌, is_empty, All, Bool-cases, append-nil,
}
use cplus_plus_developer_pro.Prelude.Text.{Text, text_eq, text_eq→eq, text_eq_refl}
use cplus_plus_developer_pro.Bayan.{
  Reader, FileInfo, push, hash_files, survivors, rounds, all_hashes, by_all_hashes, groups,
}
use cplus_plus_developer_pro.Bayan.Buckets.{
  listed, AllIn, held, push-AllIn, held-push, survivors-All, listed-survivors, together,
  together-groups, groups-All,
}
use cplus_plus_developer_pro.Bayan.Hashing.{
  block_hash, hashes_from, digest, Ready, ReadyWith, UnderHash, hash_files-Sorted,
}

rounds-suc :
    (r : Reader) (n i : ℕ) (fs : List FileInfo) (m : List (Text × List FileInfo))
    → hash_files r i fs [] ≡ some m
    → rounds r (suc n) i fs ≡ (
        let left = survivors m in
        let rest = rounds r n (i + 1) left in if is_empty left then some [] else rest)
unfolding rounds
rounds-suc r n i fs m e = rw (e, rounds) refl

rounds-nil : (r : Reader) (n i : ℕ) → rounds r n i [] ≡ some []
unfolding rounds hash_files survivors
rounds-nil r zero i = refl
rounds-nil r (suc n) i = refl

-- The loop ends early when no file is left, which changes nothing.
rounds-some :
    (r : Reader) (n i : ℕ) (fs : List FileInfo) (m : List (Text × List FileInfo))
    → hash_files r i fs [] ≡ some m
    → rounds r (suc n) i fs ≡ rounds r n (i + 1) (survivors m)
rounds-some r n i fs m e = rounds-suc r n i fs m e ∙ early (survivors m)
  where
    early :
        (left : List FileInfo)
        → (let rest = rounds r n (i + 1) left in if is_empty left then some [] else rest)
          ≡ rounds r n (i + 1) left
    early [] = sym (rounds-nil r n (i + 1))
    early (f ∷ fs) = refl

heads : (a b : Text) (xs ys : List Text) → (a ∷ xs) ≡ (b ∷ ys) → (a ≡ b) × (xs ≡ ys)
heads a b xs ys e = (cc, cc)

text_eq_sym : (p q : Text) → text_eq p q ≡ false → text_eq q p ≡ false
text_eq_sym p q ne = elim (Bool-cases (text_eq q p)) [
  | inl e ↦ let same = text_eq→eq q p e in let never = rw same at ne in cc (never, text_eq_refl p)
  | inr e ↦ e
]

module _ {κ} (r : Reader) (bs : ℕ) (Q : Text → ℕ → Type κ) where
  -- What the rounds over the blocks leave.
  record Left (end i n : ℕ) (fs left : List FileInfo) : Type κ where
    ready : All (ReadyWith r bs Q end 0) left
    complete :
        (p q : Text)
        → text_eq p q ≡ false
        → listed p fs ≡ true
        → listed q fs ≡ true
        → hashes_from r bs p i n ≡ hashes_from r bs q i n
        → listed p left ≡ true

  rounds-Left :
      (end i n : ℕ) (fs : List FileInfo)
      → i + n ≡ end
      → All (ReadyWith r bs Q i n) fs
      → (left : List FileInfo) × (rounds r n i fs ≡ some left) × Left end i n fs left
  unfolding rounds
  rounds-Left end i zero fs e h =
      let same : i ≡ end = omega arith in
      (fs, refl, record { ready = rw same at h; complete = λ p q ne hp hq eq. hp })
  rounds-Left end i (suc n) fs e h =
      let (m, run, s) = hash_files-Sorted r bs Q i n fs [] h tt in
      let next : suc i ≡ i + 1 = omega arith in
      let ready =
        survivors-All (UnderHash r bs Q i n) (ReadyWith r bs Q (suc i) n) m (λ k f u. u.1)
          s.under in
      let (left, run', l) =
        rounds-Left end (i + 1) n (survivors m) (omega arith) (rw next at ready) in
      (
        left,
        rounds-some r n i fs m run ∙ run',
        record {
          ready = l.ready;
          complete = λ p q ne hp hq eq.
              let (same, rest) = heads _ _ _ _ eq in
              let there = rw (← same) at (s.put q hq) in
              l.complete p q ne (listed-survivors (block_hash r bs p i) p q m ne (s.put p hp) there)
                (listed-survivors (block_hash r bs p i) q p m (text_eq_sym p q ne) there
                  (s.put p hp))
                rest;
        },
      )

  abbrev UnderDigest : ℕ → Text → FileInfo → Type κ
  UnderDigest n k f = (k ≡ digest r bs n f.path) × Q f.path f.size

  Ready-digest :
      (n : ℕ) (f : FileInfo) → Ready r bs n 0 f → all_hashes f.hashes ≡ digest r bs n f.path
  Ready-digest n f h = ap all_hashes (h.computed ∙ append-nil (hashes_from r bs f.path 0 n))

  record Grouped (n : ℕ) (fs : List FileInfo) (m m' : List (Text × List FileInfo)) : Type κ where
    under : AllIn (UnderDigest n) m'
    kept : (k p : Text) → held text_eq k p m ≡ true → held text_eq k p m' ≡ true
    put : (p : Text) → listed p fs ≡ true → held text_eq (digest r bs n p) p m' ≡ true

  by_all_hashes-Grouped :
      (n : ℕ) (fs : List FileInfo) (m : List (Text × List FileInfo))
      → All (ReadyWith r bs Q n 0) fs
      → AllIn (UnderDigest n) m
      → Grouped n fs m (by_all_hashes fs m)
  unfolding by_all_hashes
  by_all_hashes-Grouped n [] m h a = record { under = a; kept = λ k p e. e; put = λ p e. cc }
  by_all_hashes-Grouped n (f ∷ fs) m h a =
      let key = Ready-digest n f h.0.0 in
      let g = by_all_hashes-Grouped n fs (push text_eq (digest r bs n f.path) f m) h.1 (
        push-AllIn text_eq text_eq→eq (UnderDigest n) (digest r bs n f.path) f m (refl, h.0.1) a) in
      rw key (record {
        under = g.under;
        kept = λ k p e. g.kept k p (
            ground
              (arith, held-push text_eq text_eq→eq text_eq_refl k p (digest r bs n f.path) f m));
        put = λ p e. elim (Bool-cases (text_eq f.path p)) [
          | inl c ↦
              let same : digest r bs n f.path ≡ digest r bs n p =
                ap (digest r bs n) (text_eq→eq f.path p c) in
              g.kept (digest r bs n p) p (
                held-push text_eq text_eq→eq text_eq_refl (digest r bs n p) p (digest r bs n f.path)
                  f m
                ∙ rw (c, same, text_eq_refl (digest r bs n p)) refl)
          | inr c ↦ g.put p (rw c at e)
        ];
      })

  -- The groups that `find_duplicates_in_group` makes of files of one number of blocks.
  pub record Found (n : ℕ) (fs : List FileInfo) (gs : List (List FileInfo)) : Type κ where
    pub sound : All (λ g. (k : Text) × All (λ f. (k ≡ digest r bs n f.path) × Q f.path f.size) g) gs
    pub complete :
        (p q : Text)
        → text_eq p q ≡ false
        → listed p fs ≡ true
        → listed q fs ≡ true
        → hashes_from r bs p 0 n ≡ hashes_from r bs q 0 n
        → together p q gs ≡ true

  pub group-Found :
      (n : ℕ) (fs : List FileInfo)
      → All (ReadyWith r bs Q 0 n) fs
      → (left : List FileInfo) × (rounds r n 0 fs ≡ some left)
        × Found n fs (groups (by_all_hashes left []))
  group-Found n fs h =
      let (left, run, l) = rounds-Left n 0 n fs (omega arith) h in
      let g = by_all_hashes-Grouped n left [] l.ready tt in
      (
        left,
        run,
        record {
          sound = groups-All (UnderDigest n) (by_all_hashes left []) (λ k f u. u) g.under;
          complete = λ p q ne hp hq eq.
              let same : digest r bs n p ≡ digest r bs n q = ap all_hashes eq in
              together-groups (digest r bs n p) p q (by_all_hashes left [])
                (g.put p (l.complete p q ne hp hq eq))
                (rw (← same) at (g.put q (l.complete q p (text_eq_sym p q ne) hq hp (sym eq))));
        },
      )

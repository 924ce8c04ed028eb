-- ===== src/Bayan/Buckets.antt =====
-- The unordered maps of HW_8/lib/bayan.cpp from a key to a vector of files.
use cplus_plus_developer_pro.Prelude.{
  ◌≡◌, refl, sym, ap, ◌∙◌, inl, inr, Bool, true, false, ◌&&◌, ◌||◌, List, [], ◌∷◌, ◌++◌, arith, ltb,
  if◌then◌else◌, length, All, All-append, All-map, Bool-cases, map,
}
use cplus_plus_developer_pro.Prelude.Text.{Text, text_eq, text_eq→eq, text_eq_refl}
use cplus_plus_developer_pro.Bayan.{FileInfo, copy, push, survivors, groups}

-- Whether some file of a list has a path.
abbrev pub listed : Text → List FileInfo → Bool
listed p [] = false
listed p (f ∷ fs) = text_eq f.path p || listed p fs

pub listed-append :
    (p : Text) (fs gs : List FileInfo) → listed p (fs ++ gs) ≡ (listed p fs || listed p gs)
listed-append p [] gs = refl
listed-append p (f ∷ fs) gs = ground (arith, listed-append p fs gs)

pub listed-copies : (p : Text) (fs : List FileInfo) → listed p (map copy fs) ≡ listed p fs
listed-copies p [] = refl
listed-copies p (f ∷ fs) = ground (arith, listed-copies p fs)

-- Two paths take two places.
one_path :
    (p q : Text) (f : FileInfo)
    → text_eq p q ≡ false
    → listed p (f ∷ []) ≡ true
    → listed q (f ∷ []) ≡ true
    → ⊥
one_path p q f ne hp hq =
    let ep = text_eq→eq f.path p (ground arith) in
    let eq = text_eq→eq f.path q (ground arith) in
    let same : p ≡ q = sym ep ∙ eq in let never = rw same at ne in cc (never, text_eq_refl q)

pub listed-two :
    (p q : Text) (fs : List FileInfo)
    → text_eq p q ≡ false
    → listed p fs ≡ true
    → listed q fs ≡ true
    → ltb (length fs) 2 ≡ false
listed-two p q [] ne hp hq = cc
listed-two p q (f ∷ []) ne hp hq = absurd (one_path p q f ne hp hq)
listed-two p q (f ∷ g ∷ fs) ne hp hq = ground arith

module _ {ℓ} {K : Type ℓ} where
  -- What every file under each key has to do with it.
  abbrev pub AllIn {κ} : (K → FileInfo → Type κ) → List (K × List FileInfo) → Type κ
  AllIn P [] = Unit
  AllIn P ((k, fs) ∷ m) = All (P k) fs × AllIn P m

  -- Whether a path is under a key.
  abbrev pub held : (K → K → Bool) → K → Text → List (K × List FileInfo) → Bool
  held eq k p [] = false
  held eq k p ((j, fs) ∷ m) = if eq j k then listed p fs else held eq k p m

module _ {ℓ} {K : Type ℓ} (eq : K → K → Bool) (eq→≡ : (j k : K) → eq j k ≡ true → j ≡ k) where
  pub push-AllIn {κ} :
      (P : K → FileInfo → Type κ) (k : K) (f : FileInfo) (m : List (K × List FileInfo))
      → P k f
      → AllIn P m
      → AllIn P (push eq k f m)
  unfolding push
  push-AllIn P k f [] h a = ((h, tt), tt)
  push-AllIn P k f ((j, fs) ∷ m) h a = elim (Bool-cases (eq j k)) [
    | inl e ↦
        let same : k ≡ j = sym (eq→≡ j k e) in
        rw e (All-append (P j) fs (f ∷ []) a.0 (rw same at h, tt), a.1)
    | inr e ↦ rw e (a.0, push-AllIn P k f m h a.1)
  ]

  pub held-push :
      (eq_refl : (k : K) → eq k k ≡ true) (k : K) (p : Text) (j : K) (f : FileInfo)
      (m : List (K × List FileInfo))
      → held eq k p (push eq j f m) ≡ (if eq j k && text_eq f.path p then true else held eq k p m)
  unfolding push
  held-push eq_refl k p j f [] = ground arith
  held-push eq_refl k p j f ((i, fs) ∷ m) = elim (Bool-cases (eq i j)) [
    | inl e ↦
        let same : eq i k ≡ eq j k = ap (λ (l : K). eq l k) (eq→≡ i j e) in
        rw e (ground (arith, same, listed-append p fs (f ∷ [])))
    | inr e ↦ rw e (ground (arith, held-push eq_refl k p j f m, apart e))
  ]
    where
      apart : eq i j ≡ false → eq i k ≡ true → eq j k ≡ false
      apart e h = elim (Bool-cases (eq j k)) [
        | inl g ↦ let same : k ≡ j = sym (eq→≡ j k g) in let there = rw same at h in cc (e, there)
        | inr g ↦ g
      ]

-- The files that survive a round.
pub survivors-All {κ} :
    (P : Text → FileInfo → Type κ) (Q : FileInfo → Type κ) (m : List (Text × List FileInfo))
    → ((k : Text) (f : FileInfo) → P k f → Q f)
    → AllIn P m
    → All Q (survivors m)
unfolding survivors
survivors-All P Q [] weaken a = tt
survivors-All P Q ((h, fs) ∷ m) weaken a = elim (Bool-cases (ltb (length fs) 2)) [
  | inl e ↦ rw e (survivors-All P Q m weaken a.1)
  | inr e ↦
      rw e
        (All-append Q fs (survivors m) (All-map fs (weaken h) a.0) (survivors-All P Q m weaken a.1))
]

pub listed-survivors :
    (k p q : Text) (m : List (Text × List FileInfo))
    → text_eq p q ≡ false
    → held text_eq k p m ≡ true
    → held text_eq k q m ≡ true
    → listed p (survivors m) ≡ true
unfolding survivors
listed-survivors k p q [] ne hp hq = cc
listed-survivors k p q ((h, fs) ∷ m) ne hp hq =
    ground
      (arith, listed-survivors k p q m ne, listed-two p q fs ne, listed-append p fs (survivors m))

-- Whether some group has both paths.
abbrev pub together : Text → Text → List (List FileInfo) → Bool
together p q [] = false
together p q (g ∷ gs) = listed p g && listed q g || together p q gs

pub together-groups :
    (k p q : Text) (m : List (Text × List FileInfo))
    → held text_eq k p m ≡ true
    → held text_eq k q m ≡ true
    → together p q (groups m) ≡ true
unfolding groups
together-groups k p q [] hp hq = cc
together-groups k p q ((h, fs) ∷ m) hp hq =
    ground (arith, together-groups k p q m, listed-copies p fs, listed-copies q fs)

pub groups-All {κ} :
    (P : Text → FileInfo → Type κ) (m : List (Text × List FileInfo))
    → ((k : Text) (f : FileInfo) → P k f → P k (copy f))
    → AllIn P m
    → All (λ g. (k : Text) × All (P k) g) (groups m)
unfolding groups
groups-All P [] keeps a = tt
groups-All P ((h, fs) ∷ m) keeps a = ((h, copies fs a.0), groups-All P m keeps a.1)
  where
    copies : (fs : List FileInfo) → All (P h) fs → All (P h) (map copy fs)
    copies [] b = tt
    copies (f ∷ fs) b = (keeps h f b.0, copies fs b.1)

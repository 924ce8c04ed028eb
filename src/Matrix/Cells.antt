-- ===== src/Matrix/Cells.antt =====
-- Assigning to and reading the cells of HW_6/include/matrix.hpp.
use mathlib.Core.Option.{get_or}
use cplus_plus_developer_pro.Prelude.{
  ◌≡◌, refl, sym, true, false, ◌↔◌, none, some, [], ◌∷◌, if◌then◌else◌, All, arith, Bool-cases, inl,
  inr,
}
use cplus_plus_developer_pro.Prelude.Int.{eq_ℤ→eq, eq_ℤ_refl}
use cplus_plus_developer_pro.Matrix.{
  Eq, Coords, same_coords, Matrix, find, erase, store, size, assign, read,
}

pub same_coords_refl : (k : Coords) → same_coords k k ≡ true
unfolding same_coords
same_coords_refl k = ground (arith, eq_ℤ_refl k.row, eq_ℤ_refl k.col)

pub same_coords→eq : (j k : Coords) → same_coords j k ≡ true → j ≡ k
unfolding same_coords
same_coords→eq j k h = ground (arith, eq_ℤ→eq j.row k.row, eq_ℤ→eq j.col k.col)

same_coords_ne : (j k : Coords) → same_coords j k ≡ false → same_coords k j ≡ false
unfolding same_coords
same_coords_ne j k h = ground arith

module _ {ℓ} {T : Type ℓ} where
  -- No coordinates are stored twice.
  abbrev pub IsMap : Matrix T → Type ℓ
  IsMap [] = Unit
  IsMap ((k, v) ∷ m) = (find k m ≡ none) × IsMap m

  find-store :
      (j k : Coords) (v : T) (m : Matrix T)
      → find j (store k v m) ≡ (if same_coords k j then some v else find j m)
  find-store j k v [] = refl
  find-store j k v ((i, w) ∷ m) = elim (Bool-cases (same_coords i k)) [
    | inl e ↦ rw (same_coords→eq i k e, same_coords_refl k) (ground arith)
    | inr n ↦ elim (Bool-cases (same_coords i j)) [
      | inl e ↦ rw (← same_coords→eq i j e, n, same_coords_refl i, same_coords_ne i k n)
      | inr o ↦ rw (n, o, find-store j k v m) (ground arith)
    ]
  ]

  find-none-store :
      (j k : Coords) (v : T) (m : Matrix T)
      → find j m ≡ none
      → same_coords k j ≡ false
      → find j (store k v m) ≡ none
  find-none-store j k v m h n = rw (find-store j k v m, n) h

  store-IsMap : (k : Coords) (v : T) (m : Matrix T) → IsMap m → IsMap (store k v m)
  store-IsMap k v [] h = (refl, tt)
  store-IsMap k v ((i, w) ∷ m) h = elim (Bool-cases (same_coords i k)) [
    | inl e ↦ rw e h
    | inr n ↦ rw n (find-none-store i k v m h.0 (same_coords_ne i k n), store-IsMap k v m h.1)
  ]

  find-erase_ne :
      (j k : Coords) (m : Matrix T) → same_coords k j ≡ false → find j (erase k m) ≡ find j m
  find-erase_ne j k [] n = refl
  find-erase_ne j k ((i, w) ∷ m) n = elim (Bool-cases (same_coords i k)) [
    | inl e ↦ rw (same_coords→eq i k e, same_coords_refl k, n)
    | inr o ↦ rw (o, find-erase_ne j k m n)
  ]

  find-erase_self : (k : Coords) (m : Matrix T) → IsMap m → find k (erase k m) ≡ none
  find-erase_self k [] h = refl
  find-erase_self k ((i, w) ∷ m) h = elim (Bool-cases (same_coords i k)) [
    | inl e ↦ rw e (rw (← same_coords→eq i k e) h.0)
    | inr o ↦ rw (o, o) (find-erase_self k m h.1)
  ]

  erase-IsMap : (k : Coords) (m : Matrix T) → IsMap m → IsMap (erase k m)
  erase-IsMap k [] h = h
  erase-IsMap k ((i, w) ∷ m) h = elim (Bool-cases (same_coords i k)) [
    | inl e ↦ rw e h.1
    | inr o ↦ rw o (rw (find-erase_ne i k m (same_coords_ne i k o)) h.0, erase-IsMap k m h.1)
  ]

module _ {ℓ} {T : Type ℓ} ⦃e : Eq T⦄ (default : T) where
  -- A map in which no cell holds the default value.
  abbrev pub IsSparse : Matrix T → Type ℓ
  IsSparse m = IsMap m × All (λ c. e.beq c.1 default ≡ false) m

  store-All :
      (k : Coords) (v : T) (m : Matrix T)
      → e.beq v default ≡ false
      → All (λ c. e.beq c.1 default ≡ false) m
      → All (λ c. e.beq c.1 default ≡ false) (store k v m)
  store-All k v [] n h = (n, tt)
  store-All k v ((i, w) ∷ m) n h = elim (Bool-cases (same_coords i k)) [
    | inl f ↦ rw f (n, h.1)
    | inr f ↦ rw f (h.0, store-All k v m n h.1)
  ]

  erase-All :
      (k : Coords) (m : Matrix T)
      → All (λ c. e.beq c.1 default ≡ false) m
      → All (λ c. e.beq c.1 default ≡ false) (erase k m)
  erase-All k [] h = h
  erase-All k ((i, w) ∷ m) h = elim (Bool-cases (same_coords i k)) [
    | inl f ↦ rw f h.1
    | inr f ↦ rw f (h.0, erase-All k m h.1)
  ]

  -- An assignment keeps a matrix one that holds no coordinates twice and stores no default value.
  assign-IsSparse :
      (k : Coords) (v : T) (m : Matrix T) → IsSparse m → IsSparse (assign default k v m)
  unfolding assign
  assign-IsSparse k v m h = elim (Bool-cases (e.beq v default)) [
    | inl f ↦ rw f (erase-IsMap k m h.0, erase-All k m h.1)
    | inr f ↦ rw f (store-IsMap k v m h.0, store-All k v m f h.1)
  ]

  -- After an assignment to a matrix that holds no coordinates twice and no default value, the cell
  -- reads as the value, the default included, and every other cell as before.
  pub read-assign :
      (j k : Coords) (v : T) (m : Matrix T)
      → IsSparse m
      → read default j (assign default k v m) ≡ (if same_coords k j then v else read default j m)
  unfolding assign read
  read-assign j k v m h = elim (Bool-cases (e.beq v default)) [
    | inl f ↦ elim (Bool-cases (same_coords k j)) [
      | inl g ↦
          rw (f, g, ← same_coords→eq k j g, find-erase_self k m h.0)
            (sym ((e.beq_iff v default).0 f))
      | inr g ↦ rw (f, g, find-erase_ne j k m g)
    ]
    | inr f ↦ elim (Bool-cases (same_coords k j)) [
      | inl g ↦ rw (f, find-store j k v m, g)
      | inr g ↦ rw (f, find-store j k v m, g)
    ]
  ]

  -- A matrix that holds no coordinates twice and no default value has size 0 exactly if it reads as the
  -- default everywhere.
  size-zero_iff :
      (m : Matrix T) → IsSparse m → (size m ≡ 0) ↔ ((k : Coords) → read default k m ≡ default)
  unfolding size read
  size-zero_iff [] h = (λ e k. refl, λ e. refl)
  size-zero_iff ((i, w) ∷ m) h = (λ n k. absurd (omega arith), λ all. absurd (stored (all i)))
    where
      stored : get_or (find i ((i, w) ∷ m)) default ≡ default → ⊥
      stored d =
          let same : w ≡ default = rw (same_coords_refl i) at d in
          cc (h.1.0, (e.beq_iff w default).1 same)

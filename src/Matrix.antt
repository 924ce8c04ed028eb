-- ===== src/Matrix.antt =====
-- HW_6/include/matrix.hpp: the sparse matrix, whose default cells take no room. The unordered map
-- from coordinates to values is an association list without double keys.
pub mod Cells
pub mod Iteration
pub mod Visits
mod Tests
use mathlib.Core.Option.{get_or}
use cplus_plus_developer_pro.Prelude.{
  ℕ, ◌≡◌, Bool, true, ◌↔◌, ◌&&◌, Option, none, some, List, [], ◌∷◌, if◌then◌else◌, length,
}
use cplus_plus_developer_pro.Prelude.Int.{ℤ, eq_ℤ}

-- `==` on the type of the values.
pub record Eq {ℓ} (T : Type ℓ) : Type ℓ where
  pub beq : T → T → Bool
  pub beq_iff : (a b : T) → (beq a b ≡ true) ↔ (a ≡ b)

-- `std::pair<int, int>` and its `==`.
pub record Coords : Type 0 where
  pub row : ℤ
  pub col : ℤ

pub same_coords : Coords → Coords → Bool
same_coords a b = eq_ℤ a.row b.row && eq_ℤ a.col b.col

abbrev pub Matrix {ℓ} : Type ℓ → Type ℓ
Matrix T = List (Coords × T)

module _ {ℓ} {T : Type ℓ} where
  -- `data_.find`
  abbrev pub find : Coords → Matrix T → Option T
  find k [] = none
  find k ((j, v) ∷ m) = if same_coords j k then some v else find k m

  -- `data_.erase`
  abbrev pub erase : Coords → Matrix T → Matrix T
  erase k [] = []
  erase k ((j, v) ∷ m) = if same_coords j k then m else (j, v) ∷ erase k m

  -- `data_[k] = value`
  abbrev pub store : Coords → T → Matrix T → Matrix T
  store k value [] = (k, value) ∷ []
  store k value ((j, v) ∷ m) = if same_coords j k then (j, value) ∷ m else (j, v) ∷ store k value m

  -- `Matrix::size`
  unfoldable pub size : Matrix T → ℕ
  size m = length m

module _ {ℓ} {T : Type ℓ} ⦃e : Eq T⦄ (default : T) where
  -- `ProxyCell::operator=(const T&)`
  pub assign : Coords → T → Matrix T → Matrix T
  assign k value m = if e.beq value default then erase k m else store k value m

  -- `ProxyCell::operator T`
  unfoldable pub read : Coords → Matrix T → T
  read k m = get_or (find k m) default

  -- `ProxyCell::operator=(const ProxyCell&)`, where `same` is `this == &other`.
  pub assign_cell : Bool → Coords → Coords → Matrix T → Matrix T
  assign_cell same k from m = if same then m else assign k (read from m) m

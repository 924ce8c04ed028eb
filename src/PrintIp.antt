-- ===== src/PrintIp.antt =====
-- HW_4/include/sfinae_ip_address.hpp: the four forms of `print_ip`, as the text that is printed. Which
-- form a type takes is decided by the compiler. The text of an element is a parameter.
pub mod Octets
mod Tests
use cplus_plus_developer_pro.Prelude.{
  ℕ, zero, suc, ◌+◌, ◌-◌, ◌*◌, ◌/◌, ◌%◌, ◌^◌, Bool, true, false, List, [], ◌∷◌, ◌++◌, ◌==◌, ltb,
  if◌then◌else◌, length, snoc,
}
use cplus_plus_developer_pro.Prelude.Int.{ℤ, pos, negsuc}
use cplus_plus_developer_pro.Prelude.Text.{Text}

-- The form for `std::string`.
unfoldable pub print_ip_string : Text → Text
print_ip_string ip_address = snoc ip_address 10

-- `static_cast<std::make_unsigned_t<T>>` for a type of so many bytes.
abbrev pub to_unsigned : (size : ℕ) → ℤ → ℕ
to_unsigned size (pos n) = n % 2 ^ (8 * size)
to_unsigned size (negsuc n) = 2 ^ (8 * size) - 1 - n % 2 ^ (8 * size)

-- `static_cast<std::uint8_t>` of the value shifted to the right by so many bytes.
abbrev pub byte : (shift value : ℕ) → ℕ
byte shift value = value / 2 ^ (8 * shift) % 256

module _ (to_string : ℕ → Text) where
  -- The loop of the form for integers: so many bytes are left, the last one without a dot.
  unfoldable pub print_bytes : (left value : ℕ) → Text
  print_bytes zero value = []
  print_bytes (suc left) value =
      to_string (byte left value)
      ++ ((if ltb 0 left then 46 ∷ [] else []) ++ print_bytes left value)

  unfoldable pub print_ip_integral : (size : ℕ) → ℤ → Text
  print_ip_integral size ip_address = snoc (print_bytes size (to_unsigned size ip_address)) 10

module _ {ℓ} {T : Type ℓ} (to_string : T → Text) where
  -- The form for tuples: the index comes first.
  unfoldable pub print_elements : ℕ → List T → Text
  print_elements idx [] = []
  print_elements idx (x ∷ xs) =
      (if idx == 0 then [] else 46 ∷ []) ++ (to_string x ++ print_elements (idx + 1) xs)

  unfoldable pub print_ip_tuple : List T → Text
  print_ip_tuple ip_address = snoc (print_elements 0 ip_address) 10

  -- The form for containers: the number of elements left comes first.
  unfoldable pub print_octets : ℕ → List T → Text
  print_octets size [] = []
  print_octets size (x ∷ xs) =
      to_string x ++ ((if size - 1 == 0 then [] else 46 ∷ []) ++ print_octets (size - 1) xs)

  unfoldable pub print_ip_container : List T → Text
  print_ip_container ip_address = snoc (print_octets (length ip_address) ip_address) 10

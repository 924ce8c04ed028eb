-- ===== src/PrintIp/Octets.antt =====
-- The octets that HW_4/include/sfinae_ip_address.hpp prints.
use cplus_plus_developer_pro.Prelude.{
  ℕ, zero, suc, ◌≡◌, ◌<◌, ◌+◌, ◌-◌, ◌*◌, ◌/◌, ◌%◌, ◌^◌, refl, sym, ap, ◌∙◌, true, false, List, [],
  ◌∷◌, ◌++◌, ◌==◌, ltb, if◌then◌else◌, length, snoc, map, arith, All,
}
use native.Mathlib.Nat.{div-div-eq-div-mul, div-eq_of_lt, mod-lt, div-add-mod, pow-suc, one-le-pow}
use cplus_plus_developer_pro.Prelude.Int.{ℤ, pos, negsuc}
use cplus_plus_developer_pro.Prelude.Text.{Text, join}
use cplus_plus_developer_pro.PrintIp.{
  to_unsigned, byte, print_bytes, print_ip_integral, print_elements, print_ip_tuple, print_octets,
  print_ip_container,
}

-- The bytes of a value, the first one the highest.
abbrev pub octets : (size value : ℕ) → List ℕ
octets zero value = []
octets (suc left) value = byte left value ∷ octets left value

-- The value of octets, the first one the highest.
abbrev pub value_of : List ℕ → ℕ
value_of [] = 0
value_of (o ∷ os) = o * 2 ^ (8 * length os) + value_of os

length-octets : (size value : ℕ) → length (octets size value) ≡ size
length-octets zero value = refl
length-octets (suc size) value = ap suc (length-octets size value)

octets-All : (size value : ℕ) → All (λ o. o < 256) (octets size value)
octets-All zero value = tt
octets-All (suc size) value = (mod-lt (value / 2 ^ (8 * size)) (omega arith), octets-All size value)

eight : (k : ℕ) → 2 ^ (k + 8) ≡ 2 ^ k * 256
eight k =
    let k₂ = suc (suc k) in
    let k₄ = suc (suc k₂) in
    let k₆ = suc (suc k₄) in
    let counted : k + 8 ≡ suc (suc k₆) = omega arith in
    ap (λ n. 2 ^ n) counted
    ∙ omega (
      arith,
      pow-suc 2 k,
      pow-suc 2 (suc k),
      pow-suc 2 k₂,
      pow-suc 2 (suc k₂),
      pow-suc 2 k₄,
      pow-suc 2 (suc k₄),
      pow-suc 2 k₆,
      pow-suc 2 (suc k₆),
    )

power_step : (n : ℕ) → 2 ^ (8 * suc n) ≡ 2 ^ (8 * n) * 256
power_step n =
    let next : 8 * suc n ≡ 8 * n + 8 = omega arith in ap (λ k. 2 ^ k) next ∙ eight (8 * n)

regroup : (m p v d : ℕ) → m * p + v + p * 256 * d ≡ v + p * (256 * d + m)
regroup m p v d = omega arith

value_of-octets_and_rest :
    (size value : ℕ)
    → value_of (octets size value) + 2 ^ (8 * size) * (value / 2 ^ (8 * size)) ≡ value
value_of-octets_and_rest zero value = omega arith
value_of-octets_and_rest (suc size) value =
    let p = 2 ^ (8 * size) in
    let q = value / p in
    let v = value_of (octets size value) in
    ap (λ n. q % 256 * 2 ^ (8 * n) + v + 2 ^ (8 * suc size) * (value / 2 ^ (8 * suc size)))
      (length-octets size value)
    ∙ ap (λ r. q % 256 * p + v + r * (value / r)) (power_step size)
    ∙ ap (λ d. q % 256 * p + v + p * 256 * d) (sym (div-div-eq-div-mul value p 256))
    ∙ regroup (q % 256) p v (q / 256)
    ∙ ap (λ x. v + p * x) (div-add-mod q 256)
    ∙ value_of-octets_and_rest size value

to_unsigned_bound : (size : ℕ) (x : ℤ) → to_unsigned size x < 2 ^ (8 * size)
to_unsigned_bound size (pos n) = mod-lt n (one-le-pow (8 * size) 2 (omega arith))
to_unsigned_bound size (negsuc n) =
    let positive : 0 < 2 ^ (8 * size) = one-le-pow (8 * size) 2 (omega arith) in omega arith

value_of-octets : (size value : ℕ) → value < 2 ^ (8 * size) → value_of (octets size value) ≡ value
value_of-octets size value small =
    let p = 2 ^ (8 * size) in
    let none_left : p * (value / p) ≡ 0 = ap (λ d. p * d) (div-eq_of_lt small) ∙ omega arith in
    omega (arith, value_of-octets_and_rest size value)

later : (n : ℕ) → (suc n == 0) ≡ false
later n = ground arith

one_less : (n : ℕ) → suc n - 1 ≡ n
one_less n = omega arith

module _ (to_string : ℕ → Text) where
  print_bytes-join :
      (size value : ℕ)
      → print_bytes to_string size value ≡ join (46 ∷ []) (map to_string (octets size value))
  unfolding print_bytes join
  print_bytes-join zero value = refl
  print_bytes-join (suc zero) value = refl
  print_bytes-join (suc (suc size)) value =
      let dotted : ltb 0 (suc size) ≡ true = ground arith in
      rw (print_bytes, dotted)
        (ap (λ t. to_string (byte (suc size) value) ++ 46 ∷ t) (print_bytes-join (suc size) value))

module _ {ℓ} {T : Type ℓ} (to_string : T → Text) where
  print_octets-join :
      (xs : List T) → print_octets to_string (length xs) xs ≡ join (46 ∷ []) (map to_string xs)
  unfolding print_octets join
  print_octets-join [] = refl
  print_octets-join (x ∷ []) = refl
  print_octets-join (x ∷ y ∷ xs) = next (one_less (suc (length xs))) (print_octets-join (y ∷ xs))
    where
      next :
          suc (suc (length xs)) - 1 ≡ suc (length xs)
          → print_octets to_string (suc (length xs)) (y ∷ xs)
            ≡ join (46 ∷ []) (map to_string (y ∷ xs))
          → print_octets to_string (suc (suc (length xs))) (x ∷ y ∷ xs)
            ≡ to_string x ++ 46 ∷ join (46 ∷ []) (map to_string (y ∷ xs))
      next e ih =
          ap
            (λ k.
              to_string x
              ++ ((if k == 0 then [] else 46 ∷ []) ++ print_octets to_string k (y ∷ xs)))
            e
          ∙ ap
              (λ b.
                to_string x
                ++ ((if b then [] else 46 ∷ [])
                    ++ print_octets to_string (suc (length xs)) (y ∷ xs)))
              (later (length xs))
          ∙ ap (λ t. to_string x ++ 46 ∷ t) ih

  print_elements_later :
      (i : ℕ) (x : T) (xs : List T)
      → (i == 0) ≡ false
      → print_elements to_string i (x ∷ xs) ≡ 46 ∷ join (46 ∷ []) (map to_string (x ∷ xs))
  unfolding print_elements join
  print_elements_later i x [] e = ap (λ b. (if b then [] else 46 ∷ []) ++ (to_string x ++ [])) e
  print_elements_later i x (y ∷ xs) e =
      ap
        (λ b.
          (if b then [] else 46 ∷ []) ++ (to_string x ++ print_elements to_string (i + 1) (y ∷ xs)))
        e
      ∙ ap (λ t. 46 ∷ (to_string x ++ t)) (print_elements_later (i + 1) y xs (ground arith))

  print_elements-join :
      (xs : List T) → print_elements to_string 0 xs ≡ join (46 ∷ []) (map to_string xs)
  unfolding print_elements join
  print_elements-join [] = refl
  print_elements-join (x ∷ []) = refl
  print_elements-join (x ∷ y ∷ xs) = ap (λ t. to_string x ++ t) (print_elements_later 1 y xs refl)

-- A container and a tuple of the same elements are printed alike: as the texts of the elements
-- with a dot between each two.
print_ip_container-tuple :
    {T : Type 0} (to_string : T → Text) (xs : List T)
    → (print_ip_container to_string xs ≡ snoc (join (46 ∷ []) (map to_string xs)) 10)
      × (print_ip_tuple to_string xs ≡ print_ip_container to_string xs)
unfolding print_ip_container print_ip_tuple
print_ip_container-tuple to_string xs = (
  ap (λ t. snoc t 10) (print_octets-join to_string xs),
  ap (λ t. snoc t 10) (print_elements-join to_string xs ∙ sym (print_octets-join to_string xs)),
)

-- An integer of a type of so many bytes is printed as a container of that many octets is, each
-- less than 256; in base 256 they make up the integer, modulo 2 to the number of bits.
pub print_ip_integral-octets :
    (to_string : ℕ → Text) (size : ℕ) (x : ℤ)
    → (os : List ℕ) × (print_ip_integral to_string size x ≡ print_ip_container to_string os)
      × (length os ≡ size)
      × All (λ o. o < 256) os
      × (value_of os ≡ to_unsigned size x)
unfolding print_ip_integral print_ip_container
print_ip_integral-octets to_string size x =
    let value = to_unsigned size x in
    let os = octets size value in
    (
      os,
      ap (λ t. snoc t 10)
          (print_bytes-join to_string size value ∙ sym (print_octets-join to_string os)),
      length-octets size value,
      octets-All size value,
      value_of-octets size value (to_unsigned_bound size x),
    )

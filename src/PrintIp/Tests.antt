-- ===== src/PrintIp/Tests.antt =====
-- The addresses of HW_4/src/main.cpp, with octets written in decimal.
use cplus_plus_developer_pro.Prelude.{
  ℕ, ◌≡◌, refl, ◌<◌, ◌+◌, ◌/◌, ◌%◌, List, [], ◌∷◌, ltb, if◌then◌else◌, length, snoc, All,
}
use cplus_plus_developer_pro.Prelude.Int.{pos, negsuc}
use cplus_plus_developer_pro.Prelude.Text.{Text, bytes}
use cplus_plus_developer_pro.PrintIp.{
  to_unsigned, print_bytes, print_ip_integral, print_octets, print_ip_container,
}
use cplus_plus_developer_pro.PrintIp.Octets.{value_of, print_ip_integral-octets}

-- A number below 1000.
abbrev decimal : ℕ → Text
decimal n =
    if ltb n 10
    then (48 + n) ∷ []
    else if ltb n 100
    then (48 + n / 10) ∷ (48 + n % 10) ∷ []
    else (48 + n / 100) ∷ (48 + n / 10 % 10) ∷ (48 + n % 10) ∷ []

print_ip_integral-octets_example :
    (os : List ℕ) × (print_ip_integral decimal 4 (pos 2130706433) ≡ print_ip_container decimal os)
    × (length os ≡ 4)
    × All (λ o. o < 256) os
    × (value_of os ≡ to_unsigned 4 (pos 2130706433))
print_ip_integral-octets_example = print_ip_integral-octets decimal 4 (pos 2130706433)

local_host : print_ip_integral decimal 4 (pos 2130706433) ≡ snoc (bytes "127.0.0.1") 10
unfolding print_ip_integral print_bytes
local_host = refl

minus_one : print_ip_integral decimal 1 (negsuc 0) ≡ snoc (bytes "255") 10
unfolding print_ip_integral print_bytes
minus_one = refl

four : print_ip_container decimal (123 ∷ 45 ∷ 67 ∷ 89 ∷ []) ≡ snoc (bytes "123.45.67.89") 10
unfolding print_ip_container print_octets
four = refl

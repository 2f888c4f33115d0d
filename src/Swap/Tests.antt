-- ===== src/Swap/Tests.antt =====
-- A factory with one pool for each of two tokens and dUSD, and routes over it.
use solidity_contracts.Base.{
  ℕ, ◌≡◌, refl, Bool, true, false, ◌||◌, List, [], ◌∷◌, String, str_eq, ok, err, if◌then◌else◌,
  ◌==◌, same_token,
}
use solidity_contracts.Chain.Samples.{chain}
use solidity_contracts.Swap.{
  Packed, SolidityType, Factory, zero_address, swap_route, convert_to_swap_path,
}
use solidity_contracts.Swap.Encoding.{convert_to_swap_path-reverse}
use solidity_contracts.Swap.Route.{IsRoute, swap_route-IsRoute}

-- The values with their types stand for the bytes.
abbrev packed : List SolidityType → List Packed → List SolidityType × List Packed
packed types values = (types, values)

-- The pools between dUSD and any token, with a fee of 0.3 %.
abbrev with_dusd : Factory
with_dusd a b fee = ok (
    if fee == 3000
    then (if str_eq a "0xd" || str_eq b "0xd" then "0x1" else zero_address)
    else zero_address)

or_swap : (p q : Bool) → (p || q) ≡ (q || p)
or_swap true true = refl
or_swap true false = refl
or_swap false true = refl
or_swap false false = refl

with_dusd_sym : (a b : String) (fee : ℕ) → with_dusd a b fee ≡ with_dusd b a fee
with_dusd_sym a b fee = rw (or_swap (str_eq a "0xd") (str_eq b "0xd")) refl

over_dusd :
    swap_route with_dusd (ok "0xd") "0xe" "0xb" ≡ ok ("0xe" ∷ "0xd" ∷ "0xb" ∷ [], 3000 ∷ 3000 ∷ [])
unfolding swap_route
over_dusd = refl

from_itself : swap_route with_dusd (ok "0xd") "0xe" "0xe" ≡ err same_token
unfolding swap_route
from_itself = refl

swap_route-IsRoute_example :
    IsRoute with_dusd chain "0xd" "0xe" "0xb" ("0xe" ∷ "0xd" ∷ "0xb" ∷ [], 3000 ∷ 3000 ∷ [])
swap_route-IsRoute_example =
    swap_route-IsRoute with_dusd chain with_dusd_sym "0xd" "0xe" "0xb"
      ("0xe" ∷ "0xd" ∷ "0xb" ∷ [], 3000 ∷ 3000 ∷ []) over_dusd

convert_to_swap_path-reverse_example :
    convert_to_swap_path packed ("0xe" ∷ "0xd" ∷ "0xb" ∷ []) (500 ∷ 3000 ∷ []) false
    ≡ convert_to_swap_path packed ("0xb" ∷ "0xd" ∷ "0xe" ∷ []) (3000 ∷ 500 ∷ []) true
convert_to_swap_path-reverse_example =
    convert_to_swap_path-reverse packed ("0xe" ∷ "0xd" ∷ "0xb" ∷ []) (500 ∷ 3000 ∷ [])

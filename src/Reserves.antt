-- ===== src/Reserves.antt =====
-- The set-up of the reserves of the lending pool: utils/lending/init-helper.ts, with
-- `isValidAddress` of utils/address.ts (Reserves/Registry). Configurations are association lists with
-- the keys of `Object.entries`. The calls that change the chain are kept as a list in the order in
-- which they are sent; whether one goes through is a parameter, and the wait for its receipt belongs
-- to it.
pub mod Init
pub mod Described
pub mod Cache
pub mod Loop
pub mod Inputs
pub mod Chunks
pub mod Configure
pub mod Wanted
pub mod Roles
pub mod Leftover
pub mod Registry
mod Tests
use solidity_contracts.Base.{
  Bool, true, false, List, [], ◌∷◌, Option, none, some, String, str_eq, Result, ok, err,
  if◌then◌else◌,
}
use solidity_contracts.Base.Dict.{Dict, lookup}

-- `eContractid`, as far as it is asked for.
pub data ATokenKind : Type 0 where
  generic delegation_aware another : ATokenKind

-- `IReserveParams`, the fields in use.
pub record ReserveParams : Type 0 where
  pub strategy_name : String
  pub a_token_impl : ATokenKind
  pub reserve_decimals : String
  pub base_ltv_as_collateral : String
  pub liquidation_threshold : String
  pub liquidation_bonus : String
  pub reserve_factor : String
  pub borrow_cap : String
  pub supply_cap : String
  pub stable_borrow_rate_enabled : Bool
  pub borrowing_enabled : Bool
  pub flash_loan_enabled : Bool

-- A value of the dictionary that is truthy: neither missing nor the empty text.
abbrev pub truthy_text : Option String → Option String
truthy_text none = none
truthy_text (some t) = if str_eq t "" then none else some t

-- `tokenAddresses[symbol]`, if it is set.
unfoldable pub token_address_of : Dict String → String → Option String
unfolding lookup
token_address_of token_addresses symbol = truthy_text (lookup symbol token_addresses)

-- The calls for the chunks, one after the other, up to the first that throws.
module _ {ℓ} {I : Type ℓ} where
  abbrev pub after_send :
      List I
      → Result (Unit {0}) × List (List I)
      → Result (Unit {0})
      → Result (Unit {0}) × List (List I)
  after_send inputs rest (err e) = (err e, inputs ∷ [])
  after_send inputs rest (ok _) = (rest.0, inputs ∷ rest.1)

  abbrev pub send_chunks :
      (List I → Result (Unit {0})) → List (List I) → Result (Unit {0}) × List (List I)
  send_chunks send [] = (ok tt, [])
  send_chunks send (inputs ∷ chunks) = after_send inputs (send_chunks send chunks) (send inputs)

-- ===== src/Chain.antt =====
-- What the TypeScript reads from the chain and from the JavaScript number type. Contract calls are
-- fields of `Chain`: a call gives a value or throws. `Number` stands for the floating-point numbers
-- with the operations and comparisons that the code uses; nothing is assumed of them.
pub mod Samples
use solidity_contracts.Base.{
  ℕ, Bool, List, String, Result, ltb, err, ok, number_overflow, ◌^◌, ◌-◌, if◌then◌else◌,
}
use solidity_contracts.Base.Int.{ℤ, pos, negsuc, gt}

pub record Number : Type 1 where
  pub Num : Type 0
  -- `a < b`
  pub lt : Num → Num → Bool
  -- `a >= b`
  pub ge : Num → Num → Bool
  -- `a / b`
  pub quotient : Num → Num → Num
  -- `Number(n)` of a big integer, and a whole number that is written in the code.
  pub of_big : ℤ → Num

-- `TokenInfo` of utils/token.ts.
pub record TokenInfo : Type 0 where
  pub address : String
  pub symbol : String
  pub name : String
  pub decimals : ℕ

-- What `getReserveConfigurationData` of utils/lending/reserve.ts passes on, the fields in use.
pub record ReserveConfiguration : Type 0 where
  pub decimals : ℤ
  pub ltv : ℤ
  pub liquidation_threshold : ℤ
  pub liquidation_bonus : ℤ
  pub reserve_factor : ℤ
  pub usage_as_collateral_enabled : Bool
  pub borrowing_enabled : Bool
  pub stable_borrow_rate_enabled : Bool
  pub is_active : Bool
  pub is_frozen : Bool

-- What `getReserveTokensAddressesFromAddress` of utils/lending/token.ts gives.
pub record ReserveTokens : Type 0 where
  pub a_token_address : String
  pub variable_debt_token_address : String
  pub stable_debt_token_address : String

-- What `getUserReserveData` of utils/lending/account.ts gives, the fields in use.
pub record UserReserveData : Type 0 where
  pub current_a_token_balance : ℤ
  pub current_stable_debt : ℤ
  pub current_variable_debt : ℤ

pub record Chain : Type 0 where
  pub get_reserves_list : Result (List String)
  pub get_reserve_configuration_data : String → Result ReserveConfiguration
  pub get_reserve_tokens_addresses : String → Result ReserveTokens
  pub fetch_token_info : String → Result TokenInfo
  -- `getReserveNormalizedIncome`, `getReserveNormalizedVariableDebt` of an asset.
  pub get_reserve_normalized_income : String → Result ℤ
  pub get_reserve_normalized_variable_debt : String → Result ℤ
  -- `scaledBalanceOf` and `balanceOf` of a token, for a user.
  pub scaled_balance_of : String → String → Result ℤ
  pub balance_of : String → String → Result ℤ
  -- The oracle's price of an asset.
  pub get_asset_price : String → Result ℤ
  pub close_factor_hf_threshold : Result ℤ
  -- The field `healthFactor` of `getUserAccountData`.
  pub health_factor : String → Result ℤ
  pub get_user_reserve_data : String → String → Result UserReserveData

-- `n.toNumber()` throws unless `n` is a safe integer.
unfoldable pub to_number : ℤ → Result ℤ
to_number n =
    if gt n (pos (2 ^ 53 - 1))
    then err number_overflow
    else if gt (negsuc (2 ^ 53 - 2)) n
    then err number_overflow
    else ok n

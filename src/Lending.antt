-- ===== src/Lending.antt =====
-- Reading a user's position: utils/lending/balance.ts, utils/lending/account.ts and
-- `getCloseFactorHFThreshold` and `getBlockTimestamp` of utils/lending/utils.ts.
use solidity_contracts.Base.{
  zero, suc, none, or_throw, missing_block, ℕ, ◌^◌, List, Option, some, String, Result, ok, ◌>>=◌,
  traverse, if◌then◌else◌,
}
use solidity_contracts.Base.Int.{ℤ, pos, ◌+ℤ◌, quot, is_zero}
use solidity_contracts.Base.Dict.{Dict}
use solidity_contracts.Maths.{ray_mul}
use solidity_contracts.Batches.{batch_processing}
use solidity_contracts.Chain.{Chain, Number, to_number}

module _ (c : Chain) where
  unfoldable pub get_user_supply_balance : String → String → Result ℤ
  unfolding ray_mul
  get_user_supply_balance asset user = do
    tokens ← c.get_reserve_tokens_addresses asset
    normalized_income ← c.get_reserve_normalized_income asset
    scale_balance ← c.scaled_balance_of tokens.a_token_address user
    ok (ray_mul scale_balance normalized_income)

  -- The variable debt: the index is read only for a balance that is not zero.
  unfoldable pub user_variable_debt : String → String → String → Result ℤ
  unfolding ray_mul
  user_variable_debt asset token user = c.scaled_balance_of token user >>= λ scaled_debt_balance.
      if is_zero scaled_debt_balance
      then ok scaled_debt_balance
      else (c.get_reserve_normalized_variable_debt asset >>= λ normalize_debt.
          ok (ray_mul scaled_debt_balance normalize_debt))

  unfoldable pub get_user_debt_balance : String → String → Result ℤ
  unfolding user_variable_debt
  get_user_debt_balance asset user = do
    tokens ← c.get_reserve_tokens_addresses asset
    variable_debt ← user_variable_debt asset tokens.variable_debt_token_address user
    stable_debt_balance ← c.balance_of tokens.stable_debt_token_address user
    ok (variable_debt +ℤ stable_debt_balance)

  module _ (n : Number) where
    open n use {Num, quotient, of_big}

    unfoldable pub get_user_health_factor : String → Result Num
    get_user_health_factor user = do
      health_factor ← c.health_factor user
      ok (quotient (of_big health_factor) (of_big (pos (10 ^ 18))))

    unfoldable pub get_close_factor_hf_threshold : Result Num
    unfolding quot to_number
    get_close_factor_hf_threshold = do
      raw ← c.close_factor_hf_threshold
      threshold ← to_number (quot raw (pos (10 ^ 14)))
      ok (quotient (of_big threshold) (of_big (pos (10 ^ 4))))

-- A user's collateral and debt in one asset.
pub record ReserveBalances : Type 0 where
  pub collateral : ℤ
  pub debt : ℤ

module _ (c : Chain) where
  reserve_balances : String → String → Result (String × ReserveBalances)
  reserve_balances user asset = do
    reserve_data ← c.get_user_reserve_data asset user
    let total_debt = reserve_data.current_stable_debt +ℤ reserve_data.current_variable_debt
    ok (asset, record { collateral = reserve_data.current_a_token_balance; debt = total_debt })

  pub user_balances : List String → String → Result (String × Dict ReserveBalances)
  unfolding reserve_balances
  user_balances reserves_list user = do
    balances ← traverse (reserve_balances user) reserves_list
    ok (user, balances)

  -- `getUsersReserveBalances`, on fuel for the batches. The object that it fills is the list of its
  -- entries in the order of the writes.
  unfoldable pub get_users_reserve_balances :
      ℕ → List String → ℕ → Option (Result (List (String × Dict ReserveBalances)))
  unfolding user_balances batch_processing
  get_users_reserve_balances fuel user_addresses batch_size = elim c.get_reserves_list [
    | ok reserves_list ↦
        batch_processing fuel user_addresses batch_size (user_balances reserves_list)
    | Result.err e ↦ some (Result.err e)
  ]

-- `getBlockTimestamp` of utils/lending/utils.ts, over `getBlock` of the provider: the timestamp of the
-- block with a number, or of the latest one, if there is the block. The number 0 is falsy.
unfoldable pub get_block_timestamp : (Option ℕ → Result (Option ℕ)) → Option ℕ → Result ℕ
get_block_timestamp get_block none = get_block none >>= λ block. or_throw block missing_block
get_block_timestamp get_block (some zero) = get_block none >>= λ block. or_throw block missing_block
get_block_timestamp get_block (some (suc number)) =
    get_block (some (suc number)) >>= λ block. or_throw block missing_block

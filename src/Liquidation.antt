-- ===== src/Liquidation.antt =====
-- How much of a borrower's debt to liquidate, and for what profit:
-- utils/liquidator-bot/shared/utils.ts. (`utils/liquidator-bot/utils.ts` holds the same two
-- calculations.) The divisors 2 and 10 ** decimals are never zero; a price may be.
pub mod Bounds
pub mod Profit
mod Tests
use solidity_contracts.Base.{ℕ, ◌^◌, Bool, String, Result, ok, err, ◌>>=◌, if◌then◌else◌}
use solidity_contracts.Base.Int.{ℤ, pos, ◌*ℤ◌, ◌-ℤ◌, quot, gt, div}
use solidity_contracts.Maths.{base_percent, pow10, percent_mul, percent_div}
use solidity_contracts.Chain.{Chain, Number, TokenInfo, to_number}
use solidity_contracts.Lending.{
  get_user_supply_balance, get_user_debt_balance, get_user_health_factor,
  get_close_factor_hf_threshold,
}

-- The last step of `getMaxLiquidationAmountCalculation`: an amount whose value with the bonus exceeds
-- the collateral is replaced by what the collateral covers.
unfoldable pub limit_to_collateral : ℤ → TokenInfo → ℤ → ℤ → ℤ → Result ℤ
unfolding ◌*ℤ◌ quot div pow10
limit_to_collateral total_user_collateral_in_usd borrow_token_info borrow_token_price_in_usd
      liquidation_bonus to_liquidate_amount =
    let to_liquidate_amount_in_usd =
      quot (to_liquidate_amount *ℤ borrow_token_price_in_usd) (pow10 borrow_token_info.decimals) in
    if gt (percent_mul to_liquidate_amount_in_usd liquidation_bonus) total_user_collateral_in_usd
    then div
        (percent_div total_user_collateral_in_usd liquidation_bonus
          *ℤ pow10 borrow_token_info.decimals)
        borrow_token_price_in_usd
    else ok to_liquidate_amount

module _ (n : Number) where
  open n use {Num, lt, ge, quotient, of_big}

  unfoldable pub get_max_liquidation_amount_calculation :
      TokenInfo → ℤ → ℤ → TokenInfo → ℤ → ℤ → ℤ → Num → Num → Result ℤ
  unfolding ◌*ℤ◌ quot pow10
  get_max_liquidation_amount_calculation collateral_token_info total_user_collateral
        collateral_token_price_in_usd borrow_token_info total_user_debt borrow_token_price_in_usd
        liquidation_bonus user_health_factor close_factor_hf_threshold =
      let total_user_collateral_in_usd =
        quot (total_user_collateral *ℤ collateral_token_price_in_usd)
          (pow10 collateral_token_info.decimals) in
      let to_liquidate_amount =
        if lt user_health_factor close_factor_hf_threshold
        then total_user_debt
        else quot total_user_debt (pos 2) in
      if ge user_health_factor (of_big (pos 1))
      then ok (pos 0)
      else limit_to_collateral total_user_collateral_in_usd borrow_token_info
          borrow_token_price_in_usd liquidation_bonus to_liquidate_amount

  -- The price in USD with its decimals.
  unfoldable pub get_liquidation_profit_in_usd : Chain → TokenInfo → ℤ → ℕ → ℤ → Result Num
  unfolding ◌*ℤ◌ quot pow10
  get_liquidation_profit_in_usd c borrow_token_info raw_value price_decimals liquidate_raw_amount =
      do
        configuration ← c.get_reserve_configuration_data borrow_token_info.address
        let liquidate_amount_in_usd = raw_value *ℤ liquidate_raw_amount
        let scaled =
            percent_mul liquidate_amount_in_usd (configuration.liquidation_bonus -ℤ base_percent)
        res ← to_number (quot scaled (pow10 borrow_token_info.decimals))
        ok (quotient (of_big res) (of_big (pow10 price_decimals)))

  unfoldable pub get_max_liquidation_amount : Chain → TokenInfo → TokenInfo → String → Result ℤ
  get_max_liquidation_amount c collateral_token_info borrow_token_info borrower_address = do
    collateral_token_price_in_usd ← c.get_asset_price collateral_token_info.address
    borrow_token_price_in_usd ← c.get_asset_price borrow_token_info.address
    total_user_collateral ← get_user_supply_balance c collateral_token_info.address borrower_address
    total_user_debt ← get_user_debt_balance c borrow_token_info.address borrower_address
    configuration ← c.get_reserve_configuration_data collateral_token_info.address
    close_factor_hf_threshold ← get_close_factor_hf_threshold c n
    user_health_factor ← get_user_health_factor c n borrower_address
    get_max_liquidation_amount_calculation collateral_token_info total_user_collateral
        collateral_token_price_in_usd borrow_token_info total_user_debt borrow_token_price_in_usd
        configuration.liquidation_bonus user_health_factor close_factor_hf_threshold

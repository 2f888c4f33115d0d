-- ===== src/Markets/Tests.antt =====
-- Choices among concrete markets.
use solidity_contracts.Base.{
  ◌*◌, ◌^◌, ◌≡◌, refl, true, false, inr, List, [], ◌∷◌, none, some, ok, err, type_error,
}
use solidity_contracts.Base.Int.{pos}
use solidity_contracts.Chain.Samples.{whole, chain, weth, dusd}
use solidity_contracts.Markets.{
  UserReserveInfo, LiquidationParams, liquidation_params_of, choose_debt_market,
  choose_collateral_market,
}
use solidity_contracts.Markets.Params.{
  IsRight, liquidation_params_of-ok, liquidation_params_of-none,
}

-- One WETH as collateral.
abbrev supplied : UserReserveInfo
supplied = record {
  user_address = "0xf";
  reserve_address = "0xe";
  total_supply = pos (10 ^ 18);
  total_debt = pos 0;
  price_in_usd = pos (2000 * 10 ^ 8);
  price_decimals = 8;
  reserve_token_info = weth;
  liquidation_bonus = pos 10500;
  usage_as_collateral_enabled = true;
  borrowing_enabled = true;
}

-- A debt of 1800 dUSD.
abbrev borrowed : UserReserveInfo
borrowed = record {
  user_address = "0xf";
  reserve_address = "0xd";
  total_supply = pos 0;
  total_debt = pos (1800 * 10 ^ 6);
  price_in_usd = pos (10 ^ 8);
  price_decimals = 8;
  reserve_token_info = dusd;
  liquidation_bonus = pos 0;
  usage_as_collateral_enabled = false;
  borrowing_enabled = true;
}

abbrev markets : List UserReserveInfo
markets = supplied ∷ borrowed ∷ []

chooses :
    (choose_debt_market markets ≡ some borrowed)
    × (choose_collateral_market markets ≡ some supplied)
unfolding choose_debt_market choose_collateral_market
chooses = (refl, refl)

abbrev half_of_it : LiquidationParams
half_of_it = record {
  user_address = "0xf";
  collateral_token = supplied;
  debt_token = borrowed;
  to_liquidate_amount = pos 900000000;
}

half_is_returned : liquidation_params_of whole chain "0xf" markets ≡ ok half_of_it
unfolding liquidation_params_of solidity_contracts.Liquidation.get_max_liquidation_amount
    solidity_contracts.Lending.get_user_supply_balance
    solidity_contracts.Lending.get_user_debt_balance
    solidity_contracts.Lending.get_close_factor_hf_threshold
    solidity_contracts.Lending.get_user_health_factor
    solidity_contracts.Liquidation.get_max_liquidation_amount_calculation
    solidity_contracts.Liquidation.limit_to_collateral solidity_contracts.Maths.percent_mul
half_is_returned = refl

liquidation_params_of-ok_example : IsRight whole chain "0xf" markets half_of_it
liquidation_params_of-ok_example =
    liquidation_params_of-ok whole chain "0xf" markets half_of_it half_is_returned

no_collateral : choose_collateral_market (borrowed ∷ []) ≡ none
unfolding choose_collateral_market
no_collateral = refl

liquidation_params_of-none_example :
    liquidation_params_of whole chain "0xf" (borrowed ∷ []) ≡ err type_error
liquidation_params_of-none_example =
    liquidation_params_of-none whole chain "0xf" (borrowed ∷ []) (inr (refl, tt))

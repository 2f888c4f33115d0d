-- ===== src/Markets.antt =====
-- Which of a user's markets to liquidate: utils/liquidator-bot/shared/utils.run.ts and
-- `getUserLiquidationParams` of utils/liquidator-bot/odos/utils.run.ts. Reading a field of
-- `undefined`, where there is no market, is a `type_error`. The batches take fuel (`Batches`).
pub mod Choice
pub mod Params
mod Tests
use solidity_contracts.Base.{
  ℕ, Bool, true, false, List, [], ◌∷◌, Option, none, some, String, Result, ok, err, ◌>>=◌, or_throw,
  no_config, type_error, filter, if◌then◌else◌,
}
use solidity_contracts.Base.Int.{ℤ, pos, gt}
use solidity_contracts.Batches.{batch_processing}
use solidity_contracts.Chain.{Chain, Number, TokenInfo}
use solidity_contracts.Lending.{get_user_supply_balance, get_user_debt_balance}
use solidity_contracts.Liquidation.{get_max_liquidation_amount}

pub record UserReserveInfo : Type 0 where
  pub user_address : String
  pub reserve_address : String
  pub total_supply : ℤ
  pub total_debt : ℤ
  pub price_in_usd : ℤ
  pub price_decimals : ℕ
  pub reserve_token_info : TokenInfo
  pub liquidation_bonus : ℤ
  pub usage_as_collateral_enabled : Bool
  pub borrowing_enabled : Bool

-- `AAVE_ORACLE_USD_DECIMALS`
abbrev aave_oracle_usd_decimals : ℕ
aave_oracle_usd_decimals = 8

unfoldable pub get_user_reserve_info : Chain → String → String → Result UserReserveInfo
get_user_reserve_info c user_address reserve_address = do
  total_supply ← get_user_supply_balance c reserve_address user_address
  total_debt ← get_user_debt_balance c reserve_address user_address
  price_in_usd ← c.get_asset_price reserve_address
  reserve_token_info ← c.fetch_token_info reserve_address
  configuration ← c.get_reserve_configuration_data reserve_address
  ok (record {
    user_address = user_address;
    reserve_address = reserve_address;
    total_supply = total_supply;
    total_debt = total_debt;
    price_in_usd = price_in_usd;
    price_decimals = aave_oracle_usd_decimals;
    reserve_token_info = reserve_token_info;
    liquidation_bonus = configuration.liquidation_bonus;
    usage_as_collateral_enabled = configuration.usage_as_collateral_enabled;
    borrowing_enabled = configuration.borrowing_enabled;
  })

-- `xs.sort((a, b) => key(a).gt(key(b)) ? -1 : 1)`: descending by the key, an element before the
-- first one that its key exceeds.
module _ {A : Type 0} where
  abbrev pub insert_sorted : (A → ℤ) → A → List A → List A
  insert_sorted key x [] = x ∷ []
  insert_sorted key x (y ∷ ys) =
      if gt (key x) (key y) then x ∷ y ∷ ys else y ∷ insert_sorted key x ys

  abbrev pub sort_onto : (A → ℤ) → List A → List A → List A
  sort_onto key sorted [] = sorted
  sort_onto key sorted (x ∷ xs) = sort_onto key (insert_sorted key x sorted) xs

  abbrev pub sort_descending : (A → ℤ) → List A → List A
  sort_descending key xs = sort_onto key [] xs

  abbrev pub first : List A → Option A
  first [] = none
  first (x ∷ xs) = some x

unfoldable pub choose_debt_market : List UserReserveInfo → Option UserReserveInfo
choose_debt_market reserve_infos =
    first (sort_descending (λ r. r.total_debt) (filter (λ r. r.borrowing_enabled) reserve_infos))

unfoldable pub choose_collateral_market : List UserReserveInfo → Option UserReserveInfo
choose_collateral_market reserve_infos = first (
    sort_descending (λ r. r.total_supply)
      (filter (λ r. gt r.liquidation_bonus (pos 0))
        (filter (λ r. r.usage_as_collateral_enabled) reserve_infos)))

pub record LiquidationParams : Type 0 where
  pub user_address : String
  pub collateral_token : UserReserveInfo
  pub debt_token : UserReserveInfo
  pub to_liquidate_amount : ℤ

module _ (n : Number) (c : Chain) where
  -- What `getUserLiquidationParams` makes of the user's markets.
  unfoldable pub liquidation_params_of : String → List UserReserveInfo → Result LiquidationParams
  unfolding choose_debt_market choose_collateral_market
  liquidation_params_of user_address reserve_infos = do
    let debt_market = choose_debt_market reserve_infos
    let collateral_market = choose_collateral_market reserve_infos
    collateral_token ← or_throw collateral_market type_error
    debt_token ← or_throw debt_market type_error
    to_liquidate_amount ←
        get_max_liquidation_amount n c collateral_token.reserve_token_info
          debt_token.reserve_token_info user_address
    ok (record {
      user_address = user_address;
      collateral_token = collateral_token;
      debt_token = debt_token;
      to_liquidate_amount = to_liquidate_amount;
    })

  abbrev pub params_from :
      String → Option (Result (List UserReserveInfo)) → Option (Result LiquidationParams)
  params_from user none = none
  params_from user (some r) = some (r >>= liquidation_params_of user)

  -- `getUserLiquidationParams` behind `getReservesList`.
  unfoldable pub params_on :
      ℕ → ℕ → String → Result (List String) → Option (Result LiquidationParams)
  unfolding batch_processing get_user_reserve_info liquidation_params_of
  params_on fuel reserve_batch_size user_address (err e) = some (err e)
  params_on fuel reserve_batch_size user_address (ok reserve_addresses) = params_from user_address (
      batch_processing fuel reserve_addresses reserve_batch_size
        (get_user_reserve_info c user_address))

  -- `getUserLiquidationParams`, for the `reserveBatchSize` of the configuration, if there is one.
  unfoldable pub get_user_liquidation_params :
      ℕ → Option ℕ → String → Option (Result LiquidationParams)
  unfolding params_on
  get_user_liquidation_params fuel none user_address = some (err no_config)
  get_user_liquidation_params fuel (some reserve_batch_size) user_address =
      params_on fuel reserve_batch_size user_address c.get_reserves_list

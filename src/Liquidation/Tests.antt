-- ===== src/Liquidation/Tests.antt =====
-- The theorems about liquidation amounts and profits at concrete positions.
use Prim.Native.Nat.{◌+◌}
use solidity_contracts.Base.{
  ℕ, ◌-◌, ◌*◌, ◌/◌, ◌^◌, ◌≤◌, ◌≡◌, refl, true, false, ok, err, number_overflow, arith, ltb,
  if◌then◌else◌,
}
use solidity_contracts.Base.Int.{pos, neg_ℕ}
use solidity_contracts.Maths.{pow10}
use solidity_contracts.Chain.Samples.{whole, rounded, weth, dusd, chain, configuration}
use solidity_contracts.Liquidation.{
  get_max_liquidation_amount_calculation, get_liquidation_profit_in_usd, get_max_liquidation_amount,
}
use solidity_contracts.Liquidation.Bounds.{
  max_liquidation_bounds, max_liquidation_value, value, mul_percent,
}
use solidity_contracts.Liquidation.Profit.{profit_lem, profit_without_bonus}

-- Half of a debt of 1800 dUSD against one WETH.
liquidates_half : get_max_liquidation_amount whole chain weth dusd "0xf" ≡ ok (pos 900000000)
unfolding get_max_liquidation_amount solidity_contracts.Lending.get_user_supply_balance
    solidity_contracts.Lending.get_user_debt_balance
    solidity_contracts.Lending.get_close_factor_hf_threshold
    solidity_contracts.Lending.get_user_health_factor get_max_liquidation_amount_calculation
    solidity_contracts.Liquidation.limit_to_collateral solidity_contracts.Maths.percent_mul
liquidates_half = refl

max_liquidation_bounds_example :
    (a : ℕ) × (get_max_liquidation_amount_calculation whole weth
        (pos (10 ^ 18))
        (pos (2000 * 10 ^ 8))
        dusd
        (pos (1950 * 10 ^ 6))
        (pos (10 ^ 8))
        (pos 10500)
        (pos 0)
        (pos 0)
      ≡ ok (pos a))
    × (a ≤ 1950 * 10 ^ 6)
    × (false ≡ true → a ≡ 0)
    × (false ≡ false → a ≤ 1950 * 10 ^ 6 / 2)
max_liquidation_bounds_example =
    max_liquidation_bounds whole weth dusd (10 ^ 18) (2000 * 10 ^ 8) (1950 * 10 ^ 6) (10 ^ 8) 10500
      (pos 0) (pos 0)

max_liquidation_value_example :
    mul_percent (value 1904761904 (10 ^ 8) 6) 10500 ≤ value (10 ^ 18) (2000 * 10 ^ 8) 18 + 1
unfolding get_max_liquidation_amount_calculation solidity_contracts.Liquidation.limit_to_collateral
    solidity_contracts.Maths.percent_mul solidity_contracts.Maths.percent_div
max_liquidation_value_example =
    max_liquidation_value whole weth dusd (10 ^ 18) (2000 * 10 ^ 8) (1950 * 10 ^ 6) (10 ^ 8) 10500
      1904761904 (pos 0) (pos 1) (omega arith) refl

profit_lem_example :
    let x = mul_percent (2000 * 10 ^ 8 * 10 ^ 18) (10500 - 10000) / 10 ^ 18 in
    get_liquidation_profit_in_usd whole chain weth (pos (2000 * 10 ^ 8)) 8 (pos (10 ^ 18))
    ≡ (if ltb x (2 ^ 53) then ok (rounded (pos x) (pow10 8)) else err number_overflow)
profit_lem_example =
    profit_lem whole chain weth (configuration "0xe") (2000 * 10 ^ 8) 8 (10 ^ 18) 10500 refl refl
      (omega arith)

profit_without_bonus_example :
    get_liquidation_profit_in_usd whole chain dusd (pos (10 ^ 8)) 8 (pos (100 * 10 ^ 6))
    ≡ ok (rounded (neg_ℕ ((100 * 10 ^ 14 - 1) / 10 ^ 6)) (pow10 8))
profit_without_bonus_example =
    profit_without_bonus whole chain dusd (configuration "0xd") (10 ^ 8) 8 (100 * 10 ^ 6)
      (100 * 10 ^ 14 - 1) refl refl refl (omega arith)

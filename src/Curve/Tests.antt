-- ===== src/Curve/Tests.antt =====
-- A liquidation over Curve whose collateral is unstaked.
use solidity_contracts.Base.{
  ◌≡◌, refl, true, false, List, [], ◌∷◌, none, some, ok, err, no_unstake_path, no_curve_route, ℕ,
}
use solidity_contracts.Base.Int.{pos}
use solidity_contracts.Chain.Samples.{chain}
use solidity_contracts.Perform.{Target}
use solidity_contracts.Swap.{zero_address}
use solidity_contracts.Odos.Client.{Fetched}
use solidity_contracts.Curve.{CurveSettings, CurveConfig, SwapParams, get_curve_swap_params}
use solidity_contracts.Curve.Liquidate.{
  CurveLiquidation, CurveCall, CurveContracts, CurvePosition, perform_curve_liquidation_default,
}
use solidity_contracts.Curve.Paths.{IsPrepared, perform_curve_liquidation_default-ok}

-- The underlying asset of "0xe" is written in other letters on the route.
abbrev routes : List SwapParams
routes =
    record { input_token = "0x1"; output_token = "0x2"; route = "0x1" ∷ [] }
    ∷ record { input_token = "0xd"; output_token = "0xAb"; route = "0xd" ∷ "0xaB" ∷ [] }
    ∷ []

abbrev settings : CurveSettings
settings = record {
  dusd_address = "0xd";
  is_unstake_tokens = ("0xe", true) ∷ [];
  default_swap_params_list = routes;
  proxy_contract_map = [];
}

abbrev configured : CurveConfig
configured = record { liquidator_bot_curve = some settings; liquidator_bot_uniswap_v3 = none }

abbrev contracts : CurveContracts
contracts = record {
  asset = λ vault. ok "0xAB";
  send = λ call. ok "0x6";
  has_flash_mint = true;
  has_flash_loan = false;
}

abbrev position : CurvePosition
position = record {
  borrower = "0xf";
  liquidator = "0x2";
  borrow_token = "0xd";
  collateral_token = "0xe";
  repay_amount = pos 9;
}

abbrev calls : List CurveCall
calls =
    CurveCall.liquidate Target.flash_mint "0x2" (record {
      borrow_a_token = "0xa";
      collateral_a_token = "0xa";
      borrower = "0xf";
      repay_amount = pos 9;
      stake_tokens = false;
      unstake_token = true;
      swap_data = "0x";
    })
    ∷ []

goes_through :
    perform_curve_liquidation_default chain configured contracts position ≡ (ok "0x6", calls)
unfolding perform_curve_liquidation_default
goes_through = refl

-- The underlying asset is on no route.
without_path :
    perform_curve_liquidation_default chain configured
      (record contracts { asset = λ vault. ok "0xb" })
      position
    ≡ (err no_unstake_path, [])
unfolding perform_curve_liquidation_default
without_path = refl

no_route :
    get_curve_swap_params {Num = ℕ}
      (some "http")
      (λ token_in token_out amount.
        Fetched.answered
          (record { route = some (zero_address ∷ zero_address ∷ []); swap_params = some [] }))
      "0xd"
      "0xe"
      1
    ≡ err no_curve_route
unfolding get_curve_swap_params
no_route = refl

perform_curve_liquidation_default-ok_example :
    (found : CurveSettings) × (target : Target) × (l : CurveLiquidation)
    × (configured.liquidator_bot_curve ≡ some found)
    × IsPrepared chain configured contracts position found.dusd_address found.is_unstake_tokens
        found.default_swap_params_list
        (target, l)
    × (calls ≡ CurveCall.liquidate target "0x2" l ∷ [])
    × (contracts.send (CurveCall.liquidate target "0x2" l) ≡ ok "0x6")
perform_curve_liquidation_default-ok_example =
    perform_curve_liquidation_default-ok chain configured contracts position "0x6" calls
      goes_through

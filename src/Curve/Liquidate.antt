-- ===== src/Curve/Liquidate.antt =====
-- `performCurveLiquidationDefault` and `performCurveLiquidationImplementation`.
use solidity_contracts.Base.{
  Bool, true, false, not, ◌||◌, List, [], ◌∷◌, none, some, String, str_eq, Result, ok, err, ◌>>=◌,
  ◌>>◌, throw_if, no_config, bad_token_address, not_erc4626, empty_dusd_address, no_unstake_path,
  no_flash_mint_bot, no_flash_loan_bot, Traced, reading, if◌then◌else◌,
}
use solidity_contracts.Base.Int.{ℤ}
use solidity_contracts.Base.Dict.{Dict, lookup}
use solidity_contracts.Chain.{Chain}
use solidity_contracts.Swap.{zero_address}
use solidity_contracts.Perform.{Target}
use solidity_contracts.Curve.{CurveConfig, SwapParams, get_proxy_contract, has_path}

-- The arguments of `liquidate`.
pub record CurveLiquidation : Type 0 where
  pub borrow_a_token : String
  pub collateral_a_token : String
  pub borrower : String
  pub repay_amount : ℤ
  pub stake_tokens : Bool
  pub unstake_token : Bool
  pub swap_data : String

-- `liquidate` of a contract in the name of the liquidator.
pub data CurveCall : Type 0 where
  liquidate : Target → String → CurveLiquidation → CurveCall

-- What the contracts answer: `asset` of a vault, and whether a call goes through, with the hash of its
-- transaction; and whether the two liquidator contracts are given.
pub record CurveContracts : Type 0 where
  pub asset : String → Result String
  pub send : CurveCall → Result String
  pub has_flash_mint : Bool
  pub has_flash_loan : Bool

pub record CurvePosition : Type 0 where
  pub borrower : String
  pub liquidator : String
  pub borrow_token : String
  pub collateral_token : String
  pub repay_amount : ℤ

-- `isUnstakeTokens[address] == true`
unfoldable pub is_unstake_token : Dict Bool → String → Bool
unfolding lookup
is_unstake_token tokens address = elim (lookup address tokens) [ none ↦ false | some b ↦ b ]

module _ (c : Chain) (config : CurveConfig) (contracts : CurveContracts) where
  -- `getERC4626UnderlyingAsset`; the symbol is read for the message.
  unfoldable pub get_erc4626_underlying_asset : String → Result String
  unfolding get_proxy_contract
  get_erc4626_underlying_asset token_address =
      if str_eq token_address zero_address || str_eq token_address ""
      then err bad_token_address
      else (get_proxy_contract config token_address >>= λ actual_token_address.
          elim (contracts.asset actual_token_address) [
            | ok asset ↦ ok asset
            | Result.err e ↦ (c.fetch_token_info token_address >>= λ info. err not_erc4626)
          ])

  -- A token that is unstaked must have a swap path.
  unfoldable pub check_unstake : Bool → List SwapParams → String → Result (Unit {0})
  unfolding get_erc4626_underlying_asset has_path
  check_unstake false list collateral = ok tt
  check_unstake true list collateral = get_erc4626_underlying_asset collateral >>= λ unstaked.
      throw_if (not (has_path unstaked list)) no_unstake_path

  -- The contract for the borrow token, which must be given.
  abbrev pub contract_for : Bool → Result Target
  contract_for true =
      throw_if (not contracts.has_flash_mint) no_flash_mint_bot >>= λ _. ok Target.flash_mint
  contract_for false =
      throw_if (not contracts.has_flash_loan) no_flash_loan_bot >>= λ _. ok Target.flash_loan

  -- Everything before the call.
  unfoldable pub prepare_curve :
      CurvePosition → String → Dict Bool → List SwapParams → Result (Target × CurveLiquidation)
  unfolding is_unstake_token check_unstake
  prepare_curve position dusd_address is_unstake_tokens default_swap_params_list = do
    collateral ← c.fetch_token_info position.collateral_token
    borrow ← c.fetch_token_info position.borrow_token
    collateral_reserve ← c.get_reserve_tokens_addresses collateral.address
    borrow_reserve ← c.get_reserve_tokens_addresses borrow.address
    throw_if (str_eq dusd_address "") empty_dusd_address
    let is_unstake = is_unstake_token is_unstake_tokens collateral.address
    check_unstake is_unstake default_swap_params_list collateral.address
    target ← contract_for (str_eq borrow.address dusd_address)
    ok (
      target,
      record {
        borrow_a_token = borrow_reserve.a_token_address;
        collateral_a_token = collateral_reserve.a_token_address;
        borrower = position.borrower;
        repay_amount = position.repay_amount;
        stake_tokens = false;
        unstake_token = is_unstake;
        swap_data = "0x";
      },
    )

  abbrev pub sent_by : String → Target × CurveLiquidation → Traced CurveCall String
  sent_by liquidator (target, l) =
      let call = CurveCall.liquidate target liquidator l in (contracts.send call, call ∷ [])

  -- `performCurveLiquidationImplementation`, with the hash of the transaction.
  unfoldable pub perform_curve_liquidation_implementation :
      CurvePosition → String → Dict Bool → List SwapParams → Traced CurveCall String
  unfolding prepare_curve
  perform_curve_liquidation_implementation position dusd_address is_unstake_tokens
        default_swap_params_list =
      reading (prepare_curve position dusd_address is_unstake_tokens default_swap_params_list)
        (sent_by position.liquidator)

  -- `performCurveLiquidationDefault`
  unfoldable pub perform_curve_liquidation_default : CurvePosition → Traced CurveCall String
  unfolding perform_curve_liquidation_implementation
  perform_curve_liquidation_default position = elim config.liquidator_bot_curve [
    | none ↦ (err no_config, [])
    | some settings ↦
        perform_curve_liquidation_implementation position settings.dusd_address
          settings.is_unstake_tokens settings.default_swap_params_list
  ]

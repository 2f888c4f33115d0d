-- ===== src/Complete.antt =====
-- The Odos liquidator bot with its parts: `runBotBatch` of utils/liquidator-bot/odos/run.ts over the
-- health factors (Lending), the liquidation parameters (Markets), the profit (Liquidation) and
-- `performOdosLiquidationDefault` (Odos). The fuel for the reserves is one more than there are, which
-- is enough for a positive batch size.
pub mod Repaid
mod Tests
use solidity_contracts.Base.{
  ℕ, suc, List, Option, none, some, String, length, Result, ok, err, external, Traced,
}
use solidity_contracts.Base.Int.{ℤ}
use solidity_contracts.Chain.{Chain, Number}
use solidity_contracts.Lending.{get_user_health_factor}
use solidity_contracts.Markets.{LiquidationParams, get_user_liquidation_params}
use solidity_contracts.Liquidation.{get_liquidation_profit_in_usd}
use solidity_contracts.IgnoreMemory.Files.{Platform}
use solidity_contracts.Bot.{Services, Attempt, Failure, UserStateLog}
use solidity_contracts.Odos.Client.{Decimals, OdosApi}
use solidity_contracts.Odos.Liquidate.{
  OdosSettings, OdosContracts, OdosCall, Position, perform_odos_liquidation_default,
}

-- What the bot is started with, besides its thresholds.
pub record Setting (p : Platform) (n : Number) : Type 0 where
  pub chain : Chain
  pub decimals : Decimals n.Num
  pub api : OdosApi n.Num
  pub contracts : OdosContracts
  pub settings : OdosSettings
  pub chain_id : ℕ
  pub reserve_batch_size : ℕ
  pub liquidator_bot_deployer : String
  pub user_state_dir : String
  pub stringify_state : UserStateLog n.Num → p.Text

-- The arguments of `performOdosLiquidationDefault`.
abbrev pub position_of : String → LiquidationParams → Position
position_of deployer params = record {
  borrower = params.user_address;
  liquidator = deployer;
  borrow_token = params.debt_token.reserve_token_info.address;
  collateral_token = params.collateral_token.reserve_token_info.address;
  repay_amount = params.to_liquidate_amount;
}

-- What it throws is no `NotProfitableLiquidationError`.
abbrev pub attempt_of : Traced OdosCall String → Attempt
attempt_of (ok hash, calls) = Attempt.done hash
attempt_of (err e, calls) = Attempt.failed (Failure.other e)

-- The fuel does not run out for a positive batch size.
abbrev pub finished : {A : Type 0} → Option (Result A) → Result A
finished none = err (external "no end")
finished (some r) = r

abbrev pub fuel_for : Result (List String) → ℕ
fuel_for (err e) = 1
fuel_for (ok reserves) = suc (length reserves)

module _ (p : Platform) (n : Number) (x : Setting p n) where
  abbrev pub odos_services : Services p n
  odos_services = record {
    get_user_health_factor = get_user_health_factor x.chain n;
    get_user_liquidation_params = λ user. finished (
        get_user_liquidation_params n x.chain (fuel_for x.chain.get_reserves_list)
          (some x.reserve_batch_size) user);
    get_liquidation_profit_in_usd = get_liquidation_profit_in_usd n x.chain;
    perform_odos_liquidation = λ params. attempt_of (
        perform_odos_liquidation_default n x.decimals x.api x.chain x.contracts (some x.settings)
          x.chain_id (position_of x.liquidator_bot_deployer params));
    user_state_dir = x.user_state_dir;
    stringify_state = x.stringify_state;
  }

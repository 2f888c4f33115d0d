-- ===== src/Complete/Tests.antt =====
-- The bot over the sample chain and the sample service.
use solidity_contracts.Base.{◌≡◌, refl, true, some, none, ◌^◌, [], ◌∷◌}
use solidity_contracts.Base.Int.{pos, negsuc}
use solidity_contracts.Base.Dict.{lookup}
use solidity_contracts.Chain.Samples.{whole, chain}
use solidity_contracts.IgnoreMemory.{World}
use solidity_contracts.Markets.{get_user_liquidation_params}
use solidity_contracts.Maths.{percent_mul}
use solidity_contracts.Lending.{
  get_user_supply_balance, get_user_debt_balance, get_close_factor_hf_threshold,
  get_user_health_factor,
}
use solidity_contracts.Liquidation.{
  get_max_liquidation_amount, get_max_liquidation_amount_calculation, limit_to_collateral,
  get_liquidation_profit_in_usd,
}
use solidity_contracts.Odos.Liquidate.{perform_odos_liquidation_default}
use solidity_contracts.Bot.{process_user}
use solidity_contracts.Bot.Samples.{Content, disk}
use solidity_contracts.Odos.Samples.{sevens, service, contracts, settings}
use solidity_contracts.Complete.{Setting, odos_services}

abbrev setting : Setting disk whole
setting = record {
  chain = chain;
  decimals = sevens;
  api = service;
  contracts = record contracts { flash_loan_address = some "0x4" };
  settings = settings;
  chain_id = 252;
  reserve_batch_size = 2;
  liquidator_bot_deployer = "0x2";
  user_state_dir = "state/user-state";
  stringify_state = Content.state;
}

abbrev running : World Content
running = record {
  self = record {
    memory = [];
    ignore_duration = 180000;
    state_dir_path = some "state";
    is_initialized = true;
  };
  fs = record { dirs = "state" ∷ []; files = [] };
}

-- With a threshold below its profit the user is repaid, and not ignored.
is_repaid :
    let r =
      process_user disk whole
        (odos_services disk whole setting)
        1000
        (negsuc (10 ^ 30))
        "0xf"
        (pos 0)
        running in
    lookup "0xf" r.1.self.memory ≡ none
unfolding process_user lookup get_user_liquidation_params get_user_supply_balance
    get_user_debt_balance get_max_liquidation_amount get_close_factor_hf_threshold
    get_user_health_factor get_max_liquidation_amount_calculation limit_to_collateral percent_mul
    get_liquidation_profit_in_usd perform_odos_liquidation_default
is_repaid = refl

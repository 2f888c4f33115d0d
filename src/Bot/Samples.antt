-- ===== src/Bot/Samples.antt =====
-- For tests: a bot over the sample chain.
use solidity_contracts.Base.{
  ◌*◌, ◌^◌, refl, true, [], ◌∷◌, none, some, str_eq, ok, err, external, type_error, if◌then◌else◌,
}
use solidity_contracts.Base.Int.{ℤ, pos}
use solidity_contracts.Chain.Samples.{whole, chain, weth}
use solidity_contracts.Markets.{LiquidationParams, UserReserveInfo}
use solidity_contracts.Liquidation.{get_liquidation_profit_in_usd}
use solidity_contracts.IgnoreMemory.Files.{Platform, Saved, Parsed}
use solidity_contracts.IgnoreMemory.{World, new}
use solidity_contracts.IgnoreMemory.Expiry.{IsValid}
use solidity_contracts.Bot.{Services, Attempt, UserStateLog}

-- Files hold what is saved, or the state of a user.
pub data Content : Type 0 where
  memory : Saved → Content
  state : UserStateLog ℤ → Content

abbrev pub read : Content → Parsed
read (memory s) = Parsed.object (some s.ignore_duration) (some s.memory)
read (state s) = Parsed.object none none

abbrev pub disk : Platform
disk = record { Text = Content; dirname = λ path. "state"; stringify = memory; parse = read }

abbrev pub market : UserReserveInfo
market = record {
  user_address = "0xf";
  reserve_address = "0xe";
  total_supply = pos (10 ^ 18);
  total_debt = pos (10 ^ 17);
  price_in_usd = pos (2000 * 10 ^ 8);
  price_decimals = 8;
  reserve_token_info = weth;
  liquidation_bonus = pos 10500;
  usage_as_collateral_enabled = true;
  borrowing_enabled = true;
}

abbrev pub params : LiquidationParams
params = record {
  user_address = "0xf";
  collateral_token = market;
  debt_token = market;
  to_liquidate_amount = pos (5 * 10 ^ 16);
}

-- The health factor of "0xa" cannot be read; "0xf" is in trouble, and "0xc" as well, but without a
-- market.
abbrev pub bot : Services disk whole
bot = record {
  get_user_health_factor = λ user. if str_eq user "0xa" then err (external "rpc") else ok (pos 0);
  get_user_liquidation_params = λ user. if str_eq user "0xf" then ok params else err type_error;
  get_liquidation_profit_in_usd = get_liquidation_profit_in_usd whole chain;
  perform_odos_liquidation = λ p. Attempt.done "0x1234";
  user_state_dir = "state/user-state";
  stringify_state = state;
}

abbrev pub started : World Content
unfolding new
started = record {
  self = record (new 180 (some "state")) { is_initialized = true };
  fs = record { dirs = "state" ∷ []; files = [] };
}

pub started-IsValid : IsValid disk started
unfolding new
started-IsValid = (refl, tt)

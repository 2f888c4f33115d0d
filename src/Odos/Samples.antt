-- ===== src/Odos/Samples.antt =====
-- For tests: a liquidation over a service that answers, with whole numbers for amounts.
use solidity_contracts.Base.{
  true, false, List, [], ◌∷◌, some, String, str_eq, Result, ok, err, external, if◌then◌else◌,
}
use solidity_contracts.Base.Int.{ℤ, pos}
use solidity_contracts.Perform.{Target}
use solidity_contracts.Odos.Client.{Decimals, OdosApi, Fetched, QuoteRequest, QuoteResponse}
use solidity_contracts.Odos.Liquidate.{
  OdosSettings, OdosContracts, OdosLiquidation, OdosCall, Position,
}

-- Every text is the number 7.
abbrev pub sevens : Decimals ℤ
sevens = record {
  times = λ a b. a;
  plus = λ a b. a;
  number_of = λ t. pos 7;
  to_string = λ x. "7";
  is_nan = λ x. false;
  to_fixed = λ x decimals. ok "7.0";
  format_units = λ x decimals. ok "7";
  parse_units = λ t decimals. ok (pos 7000);
}

abbrev pub quote : QuoteResponse
quote = record {
  path_id = some "p";
  in_amounts = some ("7000" ∷ []);
  out_tokens = some ("0xd" ∷ []);
  out_amounts = some ("6900" ∷ []);
}

abbrev pub service : OdosApi ℤ
service = record {
  post_quote = λ request. Fetched.answered (some quote);
  post_assemble = λ request.
      Fetched.answered (some (record { simulation = some true; transaction_data = some "0xdata" }));
  get_price = λ chain_id token. Fetched.answered (some (pos 1));
}

-- The approval of the bot at "0x3" does not go through.
abbrev pub sending : OdosCall → Result String
sending (OdosCall.approve token spender amount) =
    if str_eq spender "0x3" then err (external "") else ok "0x5"
sending (OdosCall.liquidate target l) = ok "0x6"

abbrev pub contracts : OdosContracts
contracts = record {
  decimals = λ token. ok 18;
  asset = λ vault. ok "0xe";
  send = sending;
  flash_mint_address = some "0x2";
  flash_loan_address = some "0x3";
}

-- "0xe" is a staked token.
abbrev pub settings : OdosSettings
settings = record {
  odos_router = "0x1";
  is_unstake_tokens = ("0xe", true) ∷ [];
  proxy_contract_map = ("0xe", "0xee") ∷ [];
  dusd_address = "0xd";
}

abbrev pub position : Position
position = record {
  borrower = "0xf";
  liquidator = "0x2";
  borrow_token = "0xd";
  collateral_token = "0xe";
  repay_amount = pos 9;
}

abbrev pub liquidation : OdosLiquidation
liquidation = record {
  borrow_a_token = "0xa";
  collateral_a_token = "0xa";
  borrower = "0xf";
  repay_amount = pos 9;
  stake_tokens = false;
  unstake_token = true;
  swap_data = "0xdata";
}

abbrev pub calls : List OdosCall
calls =
    OdosCall.approve "0xe" "0x1" "7000"
    ∷ OdosCall.approve "0xe" "0x2" "7000"
    ∷ OdosCall.liquidate Target.flash_mint liquidation
    ∷ []

abbrev pub request : QuoteRequest ℤ
request = record {
  chain_id = 252;
  input_token = "0xe";
  input_amount = pos 7000;
  output_token = "0xd";
  user_addr = "0x2";
  slippage_limit_percent = pos 0;
}

-- ===== src/Chain/Samples.antt =====
-- For tests: whole numbers in place of the floating-point numbers, and a chain with one collateral
-- and one debt asset.
use Prim.Native.Nat.{◌+◌}
use solidity_contracts.Base.{
  ◌*◌, ◌/◌, ◌^◌, true, false, [], ◌∷◌, String, str_eq, ok, err, external, if◌then◌else◌, not,
}
use solidity_contracts.Base.Int.{ℤ, pos, negsuc, neg_ℕ, gt}
use solidity_contracts.Chain.{Chain, Number, TokenInfo, ReserveConfiguration}

abbrev pub rounded : ℤ → ℤ → ℤ
rounded (pos a) (pos b) = pos (a / b)
rounded (pos a) (negsuc b) = neg_ℕ (a / (b + 1))
rounded (negsuc a) (pos b) = neg_ℕ ((a + 1) / b)
rounded (negsuc a) (negsuc b) = pos ((a + 1) / (b + 1))

abbrev pub whole : Number
whole = record {
  Num = ℤ;
  lt = λ a b. gt b a;
  ge = λ a b. not (gt b a);
  quotient = rounded;
  of_big = λ n. n;
}

abbrev pub weth : TokenInfo
weth = record { address = "0xe"; symbol = "WETH"; name = "Wrapped Ether"; decimals = 18 }

abbrev pub dusd : TokenInfo
dusd = record { address = "0xd"; symbol = "dUSD"; name = "Trinity dUSD"; decimals = 6 }

-- WETH is collateral with a bonus of 5 %; dUSD is not collateral.
abbrev pub configuration : String → ReserveConfiguration
configuration asset = record {
  decimals = pos 18;
  ltv = pos 8000;
  liquidation_threshold = pos 8500;
  liquidation_bonus = if str_eq asset "0xe" then pos 10500 else pos 0;
  reserve_factor = pos 1000;
  usage_as_collateral_enabled = str_eq asset "0xe";
  borrowing_enabled = true;
  stable_borrow_rate_enabled = false;
  is_active = true;
  is_frozen = false;
}

-- One unit of everything is worth 2000 for WETH and 1 for dUSD, with 8 decimals.
abbrev pub chain : Chain
chain = record {
  get_reserves_list = ok ("0xe" ∷ "0xd" ∷ []);
  get_reserve_configuration_data = λ asset. ok (configuration asset);
  get_reserve_tokens_addresses = λ asset. ok (record {
    a_token_address = "0xa";
    variable_debt_token_address = "0xb";
    stable_debt_token_address = "0xc";
  });
  fetch_token_info = λ asset. ok (if str_eq asset "0xe" then weth else dusd);
  get_reserve_normalized_income = λ asset. ok (pos (10 ^ 27));
  get_reserve_normalized_variable_debt = λ asset. ok (pos (10 ^ 27));
  scaled_balance_of =
      λ token user. ok (if str_eq token "0xa" then pos (10 ^ 18) else pos (1800 * 10 ^ 6));
  balance_of = λ token user. ok (pos 0);
  get_asset_price = λ asset. ok (if str_eq asset "0xe" then pos (2000 * 10 ^ 8) else pos (10 ^ 8));
  close_factor_hf_threshold = ok (pos (95 * 10 ^ 16));
  health_factor = λ user. ok (pos 0);
  get_user_reserve_data = λ asset user. err (external "");
}

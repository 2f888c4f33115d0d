-- ===== src/Perform/Tests.antt =====
-- Liquidations over the sample chain, with pools between dUSD and every token.
use solidity_contracts.Base.{◌≡◌, refl, false, List, [], ◌∷◌, some, ok, if◌then◌else◌, ◌==◌}
use solidity_contracts.Chain.Samples.{chain}
use solidity_contracts.Swap.{Factory, Packed, SolidityType, zero_address}
use solidity_contracts.Perform.{Target, Liquidation, Call, Network, prepare, perform_liquidation}
use solidity_contracts.Perform.Calls.{IsSent, perform_liquidation-ok}

abbrev Bytes : Type 0
Bytes = List SolidityType × List Packed

-- Every pair of tokens has a pool with a fee of 0.3 %.
abbrev pools : Factory
pools a b fee = ok (if fee == 3000 then "0x1" else zero_address)

abbrev network : Network Bytes
network = record {
  get_pool = pools;
  quote_token = ok "0xd";
  solidity_packed = λ types values. (types, values);
  no_bytes = ([], []);
  dusd_address = some "0xd";
  is_liquidator = λ target liquidator. ok false;
  try_call = λ call. ok tt;
}

abbrev liquidation : Liquidation Bytes
liquidation = record {
  borrow_a_token = "0xa";
  collateral_a_token = "0xa";
  borrower = "0xf";
  repay_amount = 7;
  stake_tokens = false;
  path = (
    SolidityType.address_type ∷ SolidityType.uint24_type ∷ SolidityType.address_type ∷ [],
    Packed.address "0xd" ∷ Packed.uint24 3000 ∷ Packed.address "0xe" ∷ [],
  );
}

abbrev sent : List (Call Bytes)
sent =
    Call.liquidate Target.flash_mint liquidation ∷ Call.add_liquidator Target.flash_mint "0x2" ∷ []

goes_through : perform_liquidation chain network "0xf" "0x2" "0xd" "0xe" 7 ≡ (ok tt, sent)
unfolding perform_liquidation
goes_through = refl

perform_liquidation-ok_example :
    (prepared : Target × Liquidation Bytes) × (prepare chain network "0xf" "0xd" "0xe" 7
      ≡ ok prepared)
    × IsSent chain network "0x2" prepared sent
perform_liquidation-ok_example =
    perform_liquidation-ok chain network "0xf" "0x2" "0xd" "0xe" 7 sent goes_through

-- ===== src/Odos/Tests.antt =====
-- Runs of the liquidation of the samples, and the theorems for it.
use solidity_contracts.Base.{
  ◌≡◌, refl, Bool, true, [], ◌∷◌, none, some, String, ok, err, Error, no_config, invalid_quote,
}
use solidity_contracts.Chain.Samples.{whole, chain}
use solidity_contracts.Perform.{Target}
use solidity_contracts.Odos.Client.{QuoteResponse, get_quote, check_quote}
use solidity_contracts.Odos.Liquidate.{
  OdosLiquidation, OdosCall, prepare_odos, perform_odos_liquidation_default, in_amount,
}
use solidity_contracts.Odos.Quotes.{IsReady, prepare_odos-ok}
use solidity_contracts.Odos.Arguments.{IsArgument}
use solidity_contracts.Odos.Calls.{Course, IsAccepted, perform_odos-Course, perform_odos-ok}
use solidity_contracts.Odos.Samples.{
  sevens, quote, service, contracts, settings, position, calls, request,
}

is_prepared :
    prepare_odos whole sevens service chain contracts settings 252 position
    ≡ ok (true, quote, Target.flash_mint, "0x2")
unfolding prepare_odos
is_prepared = refl

goes_through :
    perform_odos_liquidation_default whole sevens service chain contracts
      (some settings)
      252
      position
    ≡ (ok "0x6", calls)
unfolding perform_odos_liquidation_default
goes_through = refl

-- A WETH debt goes to the contract for flash loans, whose approval fails.
stops_at_the_bot :
    (perform_odos_liquidation_default whole sevens service chain contracts
      (some settings)
      252
      (record position { borrow_token = "0xe" })).1
    ≡ OdosCall.approve "0xe" "0x1" "7000" ∷ OdosCall.approve "0xe" "0x3" "7000" ∷ []
unfolding perform_odos_liquidation_default
stops_at_the_bot = refl

without_id : check_quote (some (record quote { path_id = some "" })) ≡ err invalid_quote
unfolding check_quote
without_id = refl

quoted : get_quote whole sevens service (some 252) request ≡ ok quote
unfolding get_quote
quoted = refl

prepare_odos-ok_example :
    IsReady whole sevens service chain contracts settings position true quote Target.flash_mint
      "0x2"
prepare_odos-ok_example =
    prepare_odos-ok whole sevens service chain contracts settings 252 position true quote
      Target.flash_mint "0x2" is_prepared

perform_odos-Course_example :
    let run = perform_odos_liquidation_default whole sevens service chain contracts in
    (run none 252 position ≡ (err no_config, []))
    × ((e : Error)
        → prepare_odos whole sevens service chain contracts settings 252 position ≡ err e
        → run (some settings) 252 position ≡ (err e, []))
    × ((found : Bool × QuoteResponse × Target × String) (amount : String)
        → prepare_odos whole sevens service chain contracts settings 252 position ≡ ok found
        → in_amount found.1 ≡ ok amount
        → Course whole sevens service chain contracts
            (OdosCall.approve "0xe" "0x1" amount)
            (OdosCall.approve "0xe" found.3 amount)
            found.2
            (IsArgument whole sevens service chain contracts position 252 found.0 found.1 found.2
              found.3)
            (run (some settings) 252 position))
perform_odos-Course_example =
    perform_odos-Course whole sevens service chain contracts settings 252 position

perform_odos-ok_example :
    (found : Bool × QuoteResponse × Target × String) × (amount : String) × (l : OdosLiquidation)
    × (prepare_odos whole sevens service chain contracts settings 252 position ≡ ok found)
    × (in_amount found.1 ≡ ok amount)
    × IsArgument whole sevens service chain contracts position 252 found.0 found.1 found.2 found.3 l
    × IsAccepted whole sevens service chain contracts (OdosCall.approve "0xe" "0x1" amount)
    × IsAccepted whole sevens service chain contracts (OdosCall.approve "0xe" found.3 amount)
    × (contracts.send (OdosCall.liquidate found.2 l) ≡ ok "0x6")
    × (calls
        ≡ OdosCall.approve "0xe" "0x1" amount
          ∷ OdosCall.approve "0xe" found.3 amount
          ∷ OdosCall.liquidate found.2 l
          ∷ [])
perform_odos-ok_example =
    perform_odos-ok whole sevens service chain contracts settings 252 position "0x6" calls
      goes_through

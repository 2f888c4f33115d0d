-- ===== src/Complete/Repaid.antt =====
-- What a successful state of a user means, down to the calls that were sent for it.
use solidity_contracts.Base.{◌≡◌, Bool, true, false, List, [], ◌∷◌, some, String, ok, traverse}
use solidity_contracts.Base.Int.{is_zero}
use solidity_contracts.Chain.{Number}
use solidity_contracts.Perform.{Target}
use solidity_contracts.Markets.{LiquidationParams, UserReserveInfo, get_user_reserve_info}
use solidity_contracts.Markets.Params.{IsRight}
use solidity_contracts.Liquidation.{get_liquidation_profit_in_usd}
use solidity_contracts.IgnoreMemory.Files.{Platform}
use solidity_contracts.Odos.Client.{QuoteResponse}
use solidity_contracts.Odos.Liquidate.{
  OdosCall, OdosLiquidation, Position, in_amount, prepare_odos, perform_odos_liquidation_default,
}
use solidity_contracts.Odos.Arguments.{IsArgument}
use solidity_contracts.Odos.Calls.{IsAccepted}
use solidity_contracts.Complete.{Setting}

module _ (p : Platform) (n : Number) (x : Setting p n) where
  open p use {Text}
  open n use {Num, ge}

  -- Three calls went through for the parameters, the last the liquidation with the hash.
  abbrev pub IsSent : LiquidationParams → String → Type 0
  IsSent params hash =
      let position : Position = record {
        borrower = params.user_address;
        liquidator = x.liquidator_bot_deployer;
        borrow_token = params.debt_token.reserve_token_info.address;
        collateral_token = params.collateral_token.reserve_token_info.address;
        repay_amount = params.to_liquidate_amount;
      } in
      (found : Bool × QuoteResponse × Target × String) × (amount : String) × (l : OdosLiquidation)
      × (prepare_odos n x.decimals x.api x.chain x.contracts x.settings x.chain_id position
          ≡ ok found)
      × (in_amount found.1 ≡ ok amount)
      × IsArgument n x.decimals x.api x.chain x.contracts position x.chain_id found.0 found.1
          found.2 found.3 l
      × IsAccepted n x.decimals x.api x.chain x.contracts
          (OdosCall.approve position.collateral_token x.settings.odos_router amount)
      × IsAccepted n x.decimals x.api x.chain x.contracts
          (OdosCall.approve position.collateral_token found.3 amount)
      × (x.contracts.send (OdosCall.liquidate found.2 l) ≡ ok hash)
      × (perform_odos_liquidation_default n x.decimals x.api x.chain x.contracts (some x.settings)
            x.chain_id position
          ≡ (
            ok hash,
            OdosCall.approve position.collateral_token x.settings.odos_router amount
                ∷ OdosCall.approve position.collateral_token found.3 amount
                ∷ OdosCall.liquidate found.2 l
                ∷ [],
          ))

  -- The user's debt was repaid: for the right markets and amount of the balances that were read, at a
  -- profit from the threshold up, with the three calls.
  abbrev pub IsRepaid : Num → String → Type 0
  IsRepaid threshold user =
      (reserves : List String) × (infos : List UserReserveInfo) × (params : LiquidationParams)
      × (profit : Num) × (hash : String) × (x.chain.get_reserves_list ≡ ok reserves)
      × (traverse (get_user_reserve_info x.chain user) reserves ≡ ok infos)
      × IsRight n x.chain user infos params
      × (is_zero params.to_liquidate_amount ≡ false)
      × (get_liquidation_profit_in_usd n x.chain params.debt_token.reserve_token_info
            params.debt_token.price_in_usd params.debt_token.price_decimals
            params.to_liquidate_amount
          ≡ ok profit)
      × (ge profit threshold ≡ true)
      × IsSent params hash

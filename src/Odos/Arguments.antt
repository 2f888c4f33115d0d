-- ===== src/Odos/Arguments.antt =====
-- The arguments of a liquidation over Odos, and the assembly that they come from.
use mathlib.Core.Path.{subst}
use solidity_contracts.Base.{
  ℕ, ◌≡◌, ◌≢◌, refl, ap, ◌∙◌, arith, Bool, true, false, Option, none, some, String, ok, >>=-eq-ok,
  ok_inj, or_throw-eq-ok, type_error,
}
use solidity_contracts.Chain.{Chain, Number, TokenInfo, ReserveTokens}
use solidity_contracts.Perform.{Target}
use solidity_contracts.Odos.Client.{
  Decimals, OdosApi, QuoteResponse, AssembleRequest, AssembleResponse, Fetched,
  assemble_transaction, check_assembled,
}
use solidity_contracts.Odos.Liquidate.{
  OdosContracts, OdosLiquidation, Position, data_of, liquidation_of,
}
use solidity_contracts.Odos.Quotes.{or_rethrow-ok}

abbrev pub IsSimulated : Option AssembleResponse → Type 0
IsSimulated none = Unit
IsSimulated (some answer) = answer.simulation ≢ some false

check_assembled-ok :
    (data_ assembled : Option AssembleResponse)
    → check_assembled data_ ≡ ok assembled
    → (data_ ≡ assembled) × IsSimulated data_
unfolding check_assembled
check_assembled-ok none assembled h = (ok_inj h, tt)
check_assembled-ok (some answer) assembled h = by_simulation answer.simulation refl
  where
    by_simulation :
        (o : Option Bool)
        → answer.simulation ≡ o
        → (some answer ≡ assembled) × (answer.simulation ≢ some false)
    by_simulation none e = ground (arith, e, h)
    by_simulation (some true) e = ground (arith, e, h)
    by_simulation (some false) e = ground (arith, e, h)

data_of-some :
    (assembled : Option AssembleResponse) (swap_data : String)
    → data_of assembled ≡ ok swap_data
    → (answer : AssembleResponse) × (assembled ≡ some answer)
      × (answer.transaction_data ≡ some swap_data)
data_of-some none swap_data h = cc
data_of-some (some answer) swap_data h =
    (answer, refl, or_throw-eq-ok answer.transaction_data type_error h)

module _ (n : Number) (d : Decimals n.Num) (api : OdosApi n.Num) (c : Chain)
    (contracts : OdosContracts) where
  module _ (position : Position) (chain_id : ℕ) (is_unstake : Bool) (q : QuoteResponse)
      (target : Target) (address : String) where
    abbrev pub assemble_request : AssembleRequest
    assemble_request = record {
      chain_id = chain_id;
      path_id = q.path_id;
      user_addr = position.liquidator;
      receiver = address;
    }

    -- The arguments, by the tokens and reserves that were read and the answer of the service to the
    -- request to assemble the quote for the contract: its data is the swap data, and no simulation of
    -- it failed.
    abbrev pub IsArgument : OdosLiquidation → Type 0
    IsArgument l =
        (ci : TokenInfo) × (bi : TokenInfo) × (cr : ReserveTokens) × (br : ReserveTokens)
        × (answer : AssembleResponse) × (c.fetch_token_info position.collateral_token ≡ ok ci)
        × (c.fetch_token_info position.borrow_token ≡ ok bi)
        × (c.get_reserve_tokens_addresses ci.address ≡ ok cr)
        × (c.get_reserve_tokens_addresses bi.address ≡ ok br)
        × (api.post_assemble assemble_request ≡ Fetched.answered (some answer))
        × (answer.simulation ≢ some false)
        × (answer.transaction_data ≡ some l.swap_data)
        × (l.borrow_a_token ≡ br.a_token_address)
        × (l.collateral_a_token ≡ cr.a_token_address)
        × (l.borrower ≡ position.borrower)
        × (l.repay_amount ≡ position.repay_amount)
        × (l.stake_tokens ≡ false)
        × (l.unstake_token ≡ is_unstake)

    pub liquidation_of-IsArgument :
        (assembled : Option AssembleResponse) (l : OdosLiquidation)
        → assemble_transaction n d api assemble_request ≡ ok assembled
        → liquidation_of n d api c contracts position is_unstake assembled ≡ ok l
        → IsArgument l
    unfolding assemble_transaction liquidation_of
    liquidation_of-IsArgument assembled l h k =
        let (data_, posted, checked) =
          or_rethrow-ok "Assembly failed" (api.post_assemble assemble_request) check_assembled h in
        let (same, simulated) = check_assembled-ok data_ assembled checked in
        let (ci, e1, h1) = >>=-eq-ok (c.fetch_token_info position.collateral_token) _ k in
        let (bi, e2, h2) = >>=-eq-ok (c.fetch_token_info position.borrow_token) _ h1 in
        let (cr, e3, h3) = >>=-eq-ok (c.get_reserve_tokens_addresses ci.address) _ h2 in
        let (br, e4, h4) = >>=-eq-ok (c.get_reserve_tokens_addresses bi.address) _ h3 in
        let (swap_data, e5, h5) = >>=-eq-ok (data_of assembled) _ h4 in
        let (answer, there_, text) = data_of-some assembled swap_data e5 in
        let answered = same ∙ there_ in
        subst IsArgument (ok_inj h5) (
          ci,
          bi,
          cr,
          br,
          answer,
          e1,
          e2,
          e3,
          e4,
          posted ∙ ap Fetched.answered answered,
          subst IsSimulated answered simulated,
          text,
          refl,
          refl,
          refl,
          refl,
          refl,
          refl,
        )

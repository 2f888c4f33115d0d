-- ===== src/Odos/Liquidate.antt =====
-- `performOdosLiquidationDefault` of utils/liquidator-bot/odos/utils.ts with what it calls. The calls
-- that change the chain are kept as a list in the order in which they are sent; whether they go
-- through is a parameter. The wait for a receipt belongs to its call. A receipt has a hash.
use solidity_contracts.Base.{
  ℕ, Bool, true, false, List, [], ◌∷◌, Option, none, some, String, str_eq, Result, ok, err, ◌>>=◌,
  or_throw, if◌then◌else◌, ◌||◌, Traced, and_then, reading, type_error, no_config,
  bad_token_address, not_erc4626, no_flash_mint_bot, no_flash_loan_bot,
}
use solidity_contracts.Base.Int.{ℤ, pos}
use solidity_contracts.Base.Dict.{Dict, lookup}
use solidity_contracts.Chain.{Chain, Number}
use solidity_contracts.Swap.{zero_address}
use solidity_contracts.Perform.{Target}
use solidity_contracts.Odos.Client.{
  Decimals, OdosApi, QuoteRequest, QuoteResponse, AssembleResponse, get_quote, assemble_transaction,
  calculate_input_amount, format_token_amount, parse_token_amount,
}

-- `config.liquidatorBotOdos`, the fields in use.
pub record OdosSettings : Type 0 where
  pub odos_router : String
  pub is_unstake_tokens : Dict Bool
  pub proxy_contract_map : Dict String
  pub dusd_address : String

-- The arguments of `liquidate`.
pub record OdosLiquidation : Type 0 where
  pub borrow_a_token : String
  pub collateral_a_token : String
  pub borrower : String
  pub repay_amount : ℤ
  pub stake_tokens : Bool
  pub unstake_token : Bool
  pub swap_data : String

-- `approve` of a token for a spender and an amount, and `liquidate`.
pub data OdosCall : Type 0 where
  approve : String → String → String → OdosCall
  liquidate : Target → OdosLiquidation → OdosCall

-- What the contracts answer: `decimals` of a token, `asset` of a vault, and whether a call goes
-- through, with the hash of its transaction.
pub record OdosContracts : Type 0 where
  pub decimals : String → Result ℕ
  pub asset : String → Result String
  pub send : OdosCall → Result String
  -- The addresses of the liquidator contracts that are given.
  pub flash_mint_address : Option String
  pub flash_loan_address : Option String

-- `proxyContractMap[tokenAddress]` if that is truthy, and otherwise the token.
unfoldable pub get_proxy_contract : Option OdosSettings → String → Result String
unfolding lookup
get_proxy_contract none token_address = err no_config
get_proxy_contract (some settings) token_address =
    elim (lookup token_address settings.proxy_contract_map) [
      | none ↦ ok token_address
      | some proxy ↦ if str_eq proxy "" then ok token_address else ok proxy
    ]

-- `isUnstakeTokens[address] === true`
unfoldable pub is_unstake_token : Dict Bool → String → Bool
unfolding lookup
is_unstake_token tokens address = elim (lookup address tokens) [ none ↦ false | some b ↦ b ]

abbrev pub first_amount : List String → Result String
first_amount [] = err type_error
first_amount (amount ∷ amounts) = ok amount

-- `quote.inAmounts[0]`; a missing list is `undefined`, and the amount of an empty list is refused by
-- `approve`.
abbrev pub in_amount : QuoteResponse → Result String
in_amount quote = or_throw quote.in_amounts type_error >>= first_amount

-- `assembledQuote.transaction.data`
abbrev pub data_of : Option AssembleResponse → Result String
data_of none = err type_error
data_of (some response) = or_throw response.transaction_data type_error

pub record Position : Type 0 where
  pub borrower : String
  pub liquidator : String
  pub borrow_token : String
  pub collateral_token : String
  pub repay_amount : ℤ

module _ (n : Number) (d : Decimals n.Num) (api : OdosApi n.Num) (c : Chain)
    (contracts : OdosContracts) where
  open n use {Num, quotient, of_big}

  -- `getERC4626UnderlyingAsset`; the symbol is read for the message.
  unfoldable pub get_erc4626_underlying_asset : Option OdosSettings → String → Result String
  unfolding get_proxy_contract
  get_erc4626_underlying_asset settings token_address =
      if str_eq token_address zero_address || str_eq token_address ""
      then err bad_token_address
      else (get_proxy_contract settings token_address >>= λ actual_token_address.
          elim (contracts.asset actual_token_address) [
            | ok asset ↦ ok asset
            | Result.err e ↦ (c.fetch_token_info token_address >>= λ info. err not_erc4626)
          ])

  -- The token that is sold: the asset of the vault where the collateral is unstaked first.
  abbrev pub effective_collateral : Option OdosSettings → Bool → String → Result String
  effective_collateral settings false collateral = ok collateral
  effective_collateral settings true collateral = get_erc4626_underlying_asset settings collateral

  -- 0.5, in percent.
  abbrev pub swap_slippage_buffer_percentage : Num
  swap_slippage_buffer_percentage = quotient (of_big (pos 1)) (of_big (pos 2))

  abbrev pub quote_request : Position → ℕ → String → ℤ → QuoteRequest Num
  quote_request position chain_id effective formatted = record {
    chain_id = chain_id;
    input_token = effective;
    input_amount = formatted;
    output_token = position.borrow_token;
    user_addr = position.liquidator;
    slippage_limit_percent = swap_slippage_buffer_percentage;
  }

  -- `getOdosSwapQuote`, without the collateral token, which is that of the position.
  unfoldable pub get_odos_swap_quote :
      Option OdosSettings → Position → ℕ → Bool → Result QuoteResponse
  unfolding get_erc4626_underlying_asset calculate_input_amount format_token_amount get_quote
  get_odos_swap_quote settings position chain_id is_unstake = do
    collateral_decimals ← contracts.decimals position.collateral_token
    borrow_decimals ← contracts.decimals position.borrow_token
    readable ← parse_token_amount n d api position.repay_amount borrow_decimals
    effective ← effective_collateral settings is_unstake position.collateral_token
    input_amount ←
        calculate_input_amount n d api none readable position.borrow_token effective chain_id
          swap_slippage_buffer_percentage
    formatted ← format_token_amount n d api input_amount collateral_decimals
    get_quote n d api none (quote_request position chain_id effective formatted)

  abbrev pub sent : OdosCall → Traced OdosCall String
  sent call = (contracts.send call, call ∷ [])

  -- `getAssembledQuote`: the router may spend the amount before the assembly, the liquidator contract
  -- after it.
  unfoldable pub get_assembled_quote :
      String → Position → ℕ → QuoteResponse → String → Traced OdosCall (Option AssembleResponse)
  unfolding assemble_transaction
  get_assembled_quote router position chain_id quote receiver = reading (in_amount quote) (λ amount.
      and_then (sent (OdosCall.approve position.collateral_token router amount)) (λ _.
        reading
          (assemble_transaction n d api (record {
            chain_id = chain_id;
            path_id = quote.path_id;
            user_addr = position.liquidator;
            receiver = receiver;
          }))
          (λ assembled.
            and_then (sent (OdosCall.approve position.collateral_token receiver amount))
              (λ _. (ok assembled, [])))))

  -- The arguments of `liquidate`, read after the assembly.
  unfoldable pub liquidation_of : Position → Bool → Option AssembleResponse → Result OdosLiquidation
  liquidation_of position is_unstake assembled = do
    collateral ← c.fetch_token_info position.collateral_token
    borrow ← c.fetch_token_info position.borrow_token
    collateral_reserve ← c.get_reserve_tokens_addresses collateral.address
    borrow_reserve ← c.get_reserve_tokens_addresses borrow.address
    swap_data ← data_of assembled
    ok (record {
      borrow_a_token = borrow_reserve.a_token_address;
      collateral_a_token = collateral_reserve.a_token_address;
      borrower = position.borrower;
      repay_amount = position.repay_amount;
      stake_tokens = false;
      unstake_token = is_unstake;
      swap_data = swap_data;
    })

  -- `executeFlashMintLiquidation` and `executeFlashLoanLiquidation`, which differ in the contract.
  unfoldable pub execute_liquidation :
      Target → String → String → Position → ℕ → Bool → QuoteResponse → Traced OdosCall String
  unfolding get_assembled_quote liquidation_of
  execute_liquidation target address router position chain_id is_unstake quote =
      and_then (get_assembled_quote router position chain_id quote address) (λ assembled.
        reading (liquidation_of position is_unstake assembled)
          (λ l. sent (OdosCall.liquidate target l)))

  -- The contract for the borrow token.
  abbrev pub contract_for : Bool → Result (Target × String)
  contract_for true =
      or_throw contracts.flash_mint_address no_flash_mint_bot >>= λ a. ok (Target.flash_mint, a)
  contract_for false =
      or_throw contracts.flash_loan_address no_flash_loan_bot >>= λ a. ok (Target.flash_loan, a)

  -- What is known before the first call: whether the collateral is unstaked, the quote and the
  -- contract.
  unfoldable pub prepare_odos :
      OdosSettings → ℕ → Position → Result (Bool × QuoteResponse × Target × String)
  unfolding is_unstake_token get_odos_swap_quote
  prepare_odos settings chain_id position = do
    collateral ← c.fetch_token_info position.collateral_token
    borrow ← c.fetch_token_info position.borrow_token
    let is_unstake = is_unstake_token settings.is_unstake_tokens collateral.address
    underlying ← effective_collateral (some settings) is_unstake collateral.address
    quote ← get_odos_swap_quote (some settings) position chain_id is_unstake
    contract ← contract_for (str_eq borrow.address settings.dusd_address)
    ok (is_unstake, quote, contract.0, contract.1)

  -- `performOdosLiquidationDefault`, with the hash of the last transaction.
  unfoldable pub perform_odos_liquidation_default :
      Option OdosSettings → ℕ → Position → Traced OdosCall String
  unfolding prepare_odos execute_liquidation
  perform_odos_liquidation_default none chain_id position = (err no_config, [])
  perform_odos_liquidation_default (some settings) chain_id position =
      reading (prepare_odos settings chain_id position) (λ found.
        execute_liquidation found.2 found.3 settings.odos_router position chain_id found.0 found.1)

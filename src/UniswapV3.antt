-- ===== src/UniswapV3.antt =====
-- The bot for Uniswap V3: `getUniswapV3SwapPath` and `performUniswapV3Liquidation` of
-- utils/liquidator-bot/uniswap-v3/utils.ts, and `runBotBatch` of utils/liquidator-bot/uniswap-v3/run.ts,
-- whose loop over the users is that of the Odos bot. The calls of `liquidate` are kept as a list;
-- whether one goes through, its receipt included, is a parameter. What is thrown has a message, so that
-- the look into it for missing pools, which does the same as the branch behind it, does not throw.
pub mod Calls
pub mod Batch
mod Tests
use solidity_contracts.Base.{
  ℕ, Bool, true, false, not, ◌||◌, List, [], ◌∷◌, Option, none, some, String, str_eq, Result, ok,
  err, ◌>>=◌, ◌>>◌, throw_if, if◌then◌else◌, empty_dusd_address, no_config, same_token,
  no_swap_path, Traced, reading,
}
use solidity_contracts.Base.Int.{ℤ}
use solidity_contracts.Batches.{batch_processing}
use solidity_contracts.Chain.{Chain, Number, TokenInfo}
use solidity_contracts.Markets.{LiquidationParams}
use solidity_contracts.IgnoreMemory.Files.{Platform}
use solidity_contracts.IgnoreMemory.{World, Outcome}
use solidity_contracts.Swap.{
  Factory, Packed, SolidityType, zero_address, get_dex_pool_address_for_pair, convert_to_swap_path,
}
use solidity_contracts.Perform.{Target}
use solidity_contracts.Bot.{
  Services, Attempt, Failure, process_fetched, process_users, liquidatable_users,
}

-- The arguments of `liquidate`, with the account that sends it.
pub record UniswapLiquidation (Bytes : Type 0) : Type 0 where
  pub sender : String
  pub borrow_a_token : String
  pub collateral_a_token : String
  pub borrower : String
  pub repay_amount : ℤ
  pub stake_tokens : Bool
  pub is_unstake_collateral_token : Bool
  pub path : Bytes

abbrev pub UniswapCall : Type 0 → Type 0
UniswapCall Bytes = Target × UniswapLiquidation Bytes

-- The pools, the oracle's quote token, the encoder of paths with the text `0x`, and the answer to a
-- call.
pub record Pools (Bytes : Type 0) : Type 0 where
  pub get_pool : Factory
  pub quote_token : Result String
  pub solidity_packed : List SolidityType → List Packed → Bytes
  pub no_bytes : Bytes
  pub try_call : UniswapCall Bytes → Result (Unit {0})

module _ {Bytes : Type 0} (c : Chain) (net : Pools Bytes) where
  -- The path over the stablecoin, from the pools that were found.
  abbrev pub over_stablecoin :
      String → String → String → String × ℕ → String × ℕ → Result (List String × List ℕ)
  over_stablecoin input stablecoin output pool1 pool2 =
      if str_eq pool1.0 zero_address || str_eq pool2.0 zero_address
      then err no_swap_path
      else ok (input ∷ stablecoin ∷ output ∷ [], pool1.1 ∷ pool2.1 ∷ [])

  abbrev pub unless_direct : String → String → String × ℕ → Result (List String × List ℕ)
  unless_direct input output direct =
      if not (str_eq direct.0 zero_address)
      then ok (input ∷ output ∷ [], direct.1 ∷ [])
      else (net.quote_token >>= λ stablecoin.
          get_dex_pool_address_for_pair net.get_pool input stablecoin >>= λ pool1.
          get_dex_pool_address_for_pair net.get_pool stablecoin output >>= λ pool2.
          over_stablecoin input stablecoin output pool1 pool2)

  -- The tokens and fees that `getUniswapV3SwapPath` encodes.
  unfoldable pub uniswap_v3_route : String → String → Result (List String × List ℕ)
  unfolding get_dex_pool_address_for_pair
  uniswap_v3_route input output =
      throw_if (str_eq input output) same_token
      >> (get_dex_pool_address_for_pair net.get_pool output input >>= unless_direct input output)

  unfoldable pub get_uniswap_v3_swap_path : TokenInfo → TokenInfo → Bool → Result Bytes
  unfolding uniswap_v3_route convert_to_swap_path
  get_uniswap_v3_swap_path input_token_info output_token_info is_exact_input =
      uniswap_v3_route input_token_info.address output_token_info.address >>= λ route.
      convert_to_swap_path net.solidity_packed route.0 route.1 is_exact_input

  -- The path, which is empty for the same token.
  unfoldable pub path_between : TokenInfo → TokenInfo → Result Bytes
  unfolding get_uniswap_v3_swap_path
  path_between collateral borrow =
      if not (str_eq borrow.address collateral.address)
      then get_uniswap_v3_swap_path collateral borrow false
      else ok net.no_bytes

  -- `config.liquidatorBotUniswapV3` and its `dUSDAddress`.
  abbrev pub usable_dusd : Option (Option String) → Result String
  usable_dusd none = err no_config
  usable_dusd (some none) = err empty_dusd_address
  usable_dusd (some (some dusd)) = if str_eq dusd "" then err empty_dusd_address else ok dusd

  abbrev pub flash_contract : String → String → Target
  flash_contract borrow dusd = if str_eq borrow dusd then Target.flash_mint else Target.flash_loan

  -- Everything before the call.
  unfoldable pub prepare_uniswap_v3 :
      Option (Option String) → String → String → String → String → ℤ → Result (UniswapCall Bytes)
  unfolding path_between
  prepare_uniswap_v3 config borrower liquidator borrow_token collateral_token repay_amount = do
    collateral ← c.fetch_token_info collateral_token
    borrow ← c.fetch_token_info borrow_token
    collateral_reserve ← c.get_reserve_tokens_addresses collateral.address
    borrow_reserve ← c.get_reserve_tokens_addresses borrow.address
    path ← path_between collateral borrow
    dusd ← usable_dusd config
    ok (
      flash_contract borrow.address dusd,
      record {
        sender = liquidator;
        borrow_a_token = borrow_reserve.a_token_address;
        collateral_a_token = collateral_reserve.a_token_address;
        borrower = borrower;
        repay_amount = repay_amount;
        stake_tokens = false;
        is_unstake_collateral_token = false;
        path = path;
      },
    )

  -- `performUniswapV3Liquidation`
  unfoldable pub perform_uniswap_v3_liquidation :
      Option (Option String)
      → String
      → String
      → String
      → String
      → ℤ
      → Traced (UniswapCall Bytes) (Unit {0})
  unfolding prepare_uniswap_v3
  perform_uniswap_v3_liquidation config borrower liquidator borrow_token collateral_token repay =
      reading (prepare_uniswap_v3 config borrower liquidator borrow_token collateral_token repay)
        (λ call. (net.try_call call, call ∷ []))

  abbrev pub uniswap_attempt : Result (Unit {0}) → Attempt
  uniswap_attempt (ok _) = Attempt.done ""
  uniswap_attempt (err e) = Attempt.failed (Failure.other e)

  -- What the batch calls, with this liquidation in place of that of Odos. There is no hash to use.
  abbrev pub uniswap_services :
      {p : Platform} {n : Number} → Option (Option String) → String → Services p n → Services p n
  unfolding perform_uniswap_v3_liquidation
  uniswap_services config liquidator s = record s {
    perform_odos_liquidation = λ params.
        uniswap_attempt
          (perform_uniswap_v3_liquidation config params.user_address liquidator
            params.debt_token.reserve_token_info.address
            params.collateral_token.reserve_token_info.address params.to_liquidate_amount).0;
  }

module _ (p : Platform) (n : Number) (s : Services p n) where
  open p use {Text}
  open n use {Num}

  -- An exception in a batch of health factors ends `runBotBatch`.
  abbrev pub with_health_factors :
      (ℕ → ℕ)
      → Num
      → Num
      → List String
      → World Text
      → Option (Result (List Num))
      → Option (Outcome p (Unit {0}))
  with_health_factors clock threshold profitable_threshold users w none = none
  with_health_factors clock threshold profitable_threshold users w (some (err e)) = some (err e, w)
  with_health_factors clock threshold profitable_threshold users w (some (ok hs)) =
      some (process_fetched p n s clock threshold profitable_threshold users hs w)

  -- `runBotBatch`, on fuel for the batches of health factors. The promise of a health factor is
  -- returned within `try` and not awaited there, so what it throws passes on.
  unfoldable pub run_uniswap_v3_batch :
      ℕ → (ℕ → ℕ) → List String → ℕ → Num → Num → World Text → Option (Outcome p (Unit {0}))
  unfolding batch_processing process_users liquidatable_users
  run_uniswap_v3_batch fuel clock users health_factor_batch_size threshold profitable_threshold w =
      with_health_factors clock threshold profitable_threshold users w
        (batch_processing fuel users health_factor_batch_size s.get_user_health_factor)

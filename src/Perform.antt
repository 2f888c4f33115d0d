-- ===== src/Perform.antt =====
-- A liquidation with a swap over Uniswap V3 pools: `performLiquidation` of
-- utils/liquidator-bot/utils.ts. What is sent to the chain is kept as the list of the calls; whether
-- they go through is a parameter. The wait for the receipt belongs to the call.
pub mod Calls
mod Tests
use solidity_contracts.Base.{
  ℕ, Bool, true, false, List, [], ◌∷◌, Option, none, some, String, str_eq, Result, ok, err, ◌>>=◌,
  if◌then◌else◌, empty_dusd_address,
}
use solidity_contracts.Chain.{Chain, TokenInfo}
use solidity_contracts.Swap.{Factory, Packed, SolidityType, get_swap_path}

-- The two liquidator contracts.
pub data Target : Type 0 where
  flash_mint flash_loan : Target

-- The arguments of `liquidate`.
pub record Liquidation (Bytes : Type 0) : Type 0 where
  pub borrow_a_token : String
  pub collateral_a_token : String
  pub borrower : String
  pub repay_amount : ℕ
  pub stake_tokens : Bool
  pub path : Bytes

pub data Call (Bytes : Type 0) : Type 0 where
  add_liquidator : Target → String → Call Bytes
  liquidate : Target → Liquidation Bytes → Call Bytes

-- The pools, the encoder of paths with the text `0x`, the configured address of dUSD, and what the
-- liquidator contracts answer.
pub record Network (Bytes : Type 0) : Type 0 where
  pub get_pool : Factory
  pub quote_token : Result String
  pub solidity_packed : List SolidityType → List Packed → Bytes
  pub no_bytes : Bytes
  pub dusd_address : Option String
  pub is_liquidator : Target → String → Result Bool
  pub try_call : Call Bytes → Result (Unit {0})

module _ {Bytes : Type 0} (c : Chain) (net : Network Bytes) where
  -- The path of the swap from the collateral to the borrow token, for an exact output.
  unfoldable pub swap_bytes : TokenInfo → TokenInfo → Result Bytes
  unfolding get_swap_path
  swap_bytes collateral borrow =
      if str_eq borrow.address collateral.address
      then ok net.no_bytes
      else get_swap_path net.get_pool net.solidity_packed net.quote_token collateral borrow false

  -- The address of dUSD, which must be set and not empty.
  abbrev pub configured_dusd : Option String → Result String
  configured_dusd none = err empty_dusd_address
  configured_dusd (some dusd) = if str_eq dusd "" then err empty_dusd_address else ok dusd

  abbrev pub target_of : String → String → Target
  target_of borrow dusd = if str_eq borrow dusd then Target.flash_mint else Target.flash_loan

  -- Everything before the first call of a liquidator contract.
  unfoldable pub prepare : String → String → String → ℕ → Result (Target × Liquidation Bytes)
  unfolding swap_bytes
  prepare borrower borrow_token collateral_token repay_amount = do
    collateral ← c.fetch_token_info collateral_token
    borrow ← c.fetch_token_info borrow_token
    collateral_reserve ← c.get_reserve_tokens_addresses collateral.address
    borrow_reserve ← c.get_reserve_tokens_addresses borrow.address
    path ← swap_bytes collateral borrow
    dusd ← configured_dusd net.dusd_address
    ok (
      target_of borrow.address dusd,
      record {
        borrow_a_token = borrow_reserve.a_token_address;
        collateral_a_token = collateral_reserve.a_token_address;
        borrower = borrower;
        repay_amount = repay_amount;
        stake_tokens = false;
        path = path;
      },
    )

  -- The call of `liquidate` behind the calls so far.
  abbrev pub submit :
      Target → Liquidation Bytes → List (Call Bytes) → Result (Unit {0}) × List (Call Bytes)
  submit target l earlier =
      (net.try_call (Call.liquidate target l), Call.liquidate target l ∷ earlier)

  abbrev pub behind_add :
      Target
      → Liquidation Bytes
      → Call Bytes
      → Result (Unit {0})
      → Result (Unit {0}) × List (Call Bytes)
  behind_add target l added (err e) = (err e, added ∷ [])
  behind_add target l added (ok _) = submit target l (added ∷ [])

  abbrev pub behind_question :
      String → Target → Liquidation Bytes → Result Bool → Result (Unit {0}) × List (Call Bytes)
  behind_question liquidator target l (err e) = (err e, [])
  behind_question liquidator target l (ok true) = submit target l []
  behind_question liquidator target l (ok false) =
      behind_add target l (Call.add_liquidator target liquidator)
        (net.try_call (Call.add_liquidator target liquidator))

  abbrev pub send :
      String → Result (Target × Liquidation Bytes) → Result (Unit {0}) × List (Call Bytes)
  send liquidator (err e) = (err e, [])
  send liquidator (ok (target, l)) =
      behind_question liquidator target l (net.is_liquidator target liquidator)

  -- `performLiquidation`: its result and the calls that it sent, the last one first.
  unfoldable pub perform_liquidation :
      String → String → String → String → ℕ → Result (Unit {0}) × List (Call Bytes)
  unfolding prepare
  perform_liquidation borrower liquidator borrow_token collateral_token repay_amount =
      send liquidator (prepare borrower borrow_token collateral_token repay_amount)

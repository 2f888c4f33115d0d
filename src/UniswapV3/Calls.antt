-- ===== src/UniswapV3/Calls.antt =====
-- What a liquidation over Uniswap V3 that goes through has sent.
use solidity_contracts.Base.{
  ℕ, ◌≡◌, ◌⊎◌, true, false, List, [], ◌∷◌, Option, some, String, ◌≢◌, str_eq, ok,
}
use solidity_contracts.Base.Int.{ℤ}
use solidity_contracts.Chain.{Chain, TokenInfo, ReserveTokens}
use solidity_contracts.Perform.Calls.{IsTargetFor}
use solidity_contracts.Swap.{convert_to_swap_path, check_if_swap_path_exists}
use solidity_contracts.UniswapV3.{UniswapCall, Pools}

module _ {Bytes : Type 0} (c : Chain) (net : Pools Bytes) where
  -- A route from `input` to `output`, directly or over the oracle's quote token, of pools that exist.
  abbrev pub IsUniswapRoute : String → String → List String × List ℕ → Type 0
  IsUniswapRoute input output route =
      ((route.0 ≡ input ∷ output ∷ [])
        ⊎ ((quote : String) × (net.quote_token ≡ ok quote)
            × (route.0 ≡ input ∷ quote ∷ output ∷ [])))
      × (check_if_swap_path_exists net.get_pool c route.0 route.1 ≡ ok tt)

  -- The path of the swap from `input` to `output`: none for the same token, and otherwise the
  -- encoding, for an exact output, of a route.
  abbrev pub IsUniswapPath : String → String → Bytes → Type 0
  IsUniswapPath input output path =
      ((str_eq output input ≡ true) × (path ≡ net.no_bytes))
      ⊎ ((route : List String × List ℕ) × IsUniswapRoute input output route
          × (convert_to_swap_path net.solidity_packed route.0 route.1 false ≡ ok path))

  -- What is sent for a position, by the tokens and reserves that were read: all arguments, and the
  -- contract, which is the flash-mint one exactly if the borrow token is the configured dUSD.
  abbrev pub IsSentFor :
      Option (Option String) → String → String → String → String → ℤ → UniswapCall Bytes → Type 0
  IsSentFor config borrower liquidator borrow collateral repay (target, l) =
      (ci : TokenInfo) × (bi : TokenInfo) × (cr : ReserveTokens) × (br : ReserveTokens)
      × (dusd : String) × (c.fetch_token_info collateral ≡ ok ci)
      × (c.fetch_token_info borrow ≡ ok bi)
      × (c.get_reserve_tokens_addresses ci.address ≡ ok cr)
      × (c.get_reserve_tokens_addresses bi.address ≡ ok br)
      × (config ≡ some (some dusd))
      × (dusd ≢ "")
      × IsTargetFor bi.address dusd target
      × (l.sender ≡ liquidator)
      × (l.borrow_a_token ≡ br.a_token_address)
      × (l.collateral_a_token ≡ cr.a_token_address)
      × (l.borrower ≡ borrower)
      × (l.repay_amount ≡ repay)
      × (l.stake_tokens ≡ false)
      × (l.is_unstake_collateral_token ≡ false)
      × IsUniswapPath ci.address bi.address l.path

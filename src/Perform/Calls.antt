-- ===== src/Perform/Calls.antt =====
-- What a liquidation that goes through has sent.
use solidity_contracts.Base.{
  ℕ, ◌≡◌, refl, sym, ap, ◌⊎◌, inl, inr, Bool, true, false, List, [], ◌∷◌, String, str_eq, ◌≢◌, some,
  Result, Error, ok, err,
}
use solidity_contracts.Chain.{Chain, TokenInfo, ReserveTokens}
use solidity_contracts.Swap.{convert_to_swap_path}
use solidity_contracts.Swap.Route.{IsRoute}
use solidity_contracts.Perform.{
  Target, Liquidation, Call, Network, prepare, behind_add, behind_question, send,
  perform_liquidation,
}

-- The contract for flash minting, exactly for dUSD.
abbrev pub IsTargetFor : String → String → Target → Type 0
IsTargetFor borrow dusd target =
    ((borrow ≡ dusd) × (target ≡ Target.flash_mint))
    ⊎ ((borrow ≢ dusd) × (target ≡ Target.flash_loan))

module _ {Bytes : Type 0} (c : Chain) (net : Network Bytes) where
  -- The calls of one liquidation: `liquidate`, and `addLiquidator` before it where the contract says
  -- that the sender is no liquidator. Everything went through.
  abbrev pub IsSent : String → Target × Liquidation Bytes → List (Call Bytes) → Type 0
  IsSent liquidator (target, l) calls =
      (net.try_call (Call.liquidate target l) ≡ ok tt)
      × (((net.is_liquidator target liquidator ≡ ok true) × (calls ≡ Call.liquidate target l ∷ []))
          ⊎ ((net.is_liquidator target liquidator ≡ ok false)
              × (net.try_call (Call.add_liquidator target liquidator) ≡ ok tt)
              × (calls ≡ Call.liquidate target l ∷ Call.add_liquidator target liquidator ∷ [])))

  refused :
      {e : Error} (o : Result (Unit {0}) × List (Call Bytes)) {calls : List (Call Bytes)}
      → o.0 ≡ err e
      → o ≡ (ok tt, calls)
      → ⊥
  refused o g h = let r = ap (λ x. x.0) h in cc

  behind_add-ok :
      (liquidator : String) (target : Target) (l : Liquidation Bytes) (a : Result (Unit {0}))
      (calls : List (Call Bytes))
      → net.is_liquidator target liquidator ≡ ok false
      → net.try_call (Call.add_liquidator target liquidator) ≡ a
      → behind_add c net target l (Call.add_liquidator target liquidator) a ≡ (ok tt, calls)
      → IsSent liquidator (target, l) calls
  behind_add-ok liquidator target l (err e) calls q added h = absurd (refused _ refl h)
  behind_add-ok liquidator target l (ok _) calls q added h =
      (ap (λ o. o.0) h, inr (q, added, sym (ap (λ o. o.1) h)))

  behind_question-ok :
      (liquidator : String) (target : Target) (l : Liquidation Bytes) (answer : Result Bool)
      (calls : List (Call Bytes))
      → net.is_liquidator target liquidator ≡ answer
      → behind_question c net liquidator target l answer ≡ (ok tt, calls)
      → IsSent liquidator (target, l) calls
  behind_question-ok liquidator target l (err e) calls q h = absurd (refused _ refl h)
  behind_question-ok liquidator target l (ok true) calls q h =
      (ap (λ o. o.0) h, inl (q, sym (ap (λ o. o.1) h)))
  behind_question-ok liquidator target l (ok false) calls q h =
      behind_add-ok liquidator target l (net.try_call (Call.add_liquidator target liquidator)) calls
        q refl h

  send-ok :
      (liquidator : String) (r : Result (Target × Liquidation Bytes)) (calls : List (Call Bytes))
      → send c net liquidator r ≡ (ok tt, calls)
      → (prepared : Target × Liquidation Bytes) × (r ≡ ok prepared)
        × IsSent liquidator prepared calls
  send-ok liquidator (err e) calls h = absurd (refused _ refl h)
  send-ok liquidator (ok (target, l)) calls h =
      ((target, l), refl, behind_question-ok liquidator target l _ calls refl h)

  -- If the liquidation goes through, then it was prepared, and exactly one `liquidate` with the
  -- prepared arguments was sent to the prepared contract, as the last call. Before it the sender was
  -- added as a liquidator if it was none, and nothing else was sent.
  pub perform_liquidation-ok :
      (borrower liquidator borrow collateral : String) (repay : ℕ) (calls : List (Call Bytes))
      → perform_liquidation c net borrower liquidator borrow collateral repay ≡ (ok tt, calls)
      → (prepared : Target × Liquidation Bytes) × (prepare c net borrower borrow collateral repay
          ≡ ok prepared)
        × IsSent liquidator prepared calls
  unfolding perform_liquidation
  perform_liquidation-ok borrower liquidator borrow collateral repay calls h =
      send-ok liquidator (prepare c net borrower borrow collateral repay) calls h

  -- The path of the swap from `input` to `output`: none for the same token, and otherwise the
  -- encoding, for an exact output, of a route of pools that exist.
  abbrev pub IsPath : String → String → Bytes → Type 0
  IsPath input output path =
      ((str_eq output input ≡ true) × (path ≡ net.no_bytes))
      ⊎ ((quote : String) × (route : List String × List ℕ) × (net.quote_token ≡ ok quote)
          × IsRoute net.get_pool c quote input output route
          × (convert_to_swap_path net.solidity_packed route.0 route.1 false ≡ ok path))

  -- The liquidation is described by the tokens and reserves that were read: it goes to the flash-mint
  -- contract exactly if the borrow token is the configured dUSD.
  abbrev pub IsPrepared : String → String → String → ℕ → Target → Liquidation Bytes → Type 0
  IsPrepared borrower borrow collateral repay target l =
      (ci : TokenInfo) × (bi : TokenInfo) × (cr : ReserveTokens) × (br : ReserveTokens)
      × (dusd : String) × (c.fetch_token_info collateral ≡ ok ci)
      × (c.fetch_token_info borrow ≡ ok bi)
      × (c.get_reserve_tokens_addresses ci.address ≡ ok cr)
      × (c.get_reserve_tokens_addresses bi.address ≡ ok br)
      × (net.dusd_address ≡ some dusd)
      × IsTargetFor bi.address dusd target
      × (l.borrow_a_token ≡ br.a_token_address)
      × (l.collateral_a_token ≡ cr.a_token_address)
      × (l.borrower ≡ borrower)
      × (l.repay_amount ≡ repay)
      × (l.stake_tokens ≡ false)
      × IsPath ci.address bi.address l.path

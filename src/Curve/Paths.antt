-- ===== src/Curve/Paths.antt =====
-- What a liquidation over Curve that returns has sent, and which swap paths it has looked for.
use mathlib.Core.Path.{subst}
use solidity_contracts.Base.{
  ◌≡◌, refl, sym, ap, ◌∙◌, inl, inr, Bool, true, false, not, Bool-cases, else_eq, List, [], ◌∷◌,
  some, Option-cases, String, str_eq, str_eq_iff, ok, err, Error, >>=-eq-ok, ok_inj, throw_if,
  reading-ok, map, Member, here, there, ◌||◌, no_config, no_flash_mint_bot, no_flash_loan_bot,
  empty_dusd_address,
}
use solidity_contracts.Base.Dict.{Dict, contains}
use solidity_contracts.Chain.{Chain, TokenInfo, ReserveTokens}
use solidity_contracts.Perform.{Target}
use solidity_contracts.Curve.{CurveSettings, CurveConfig, SwapParams, to_lower_case, has_path}
use solidity_contracts.Curve.Liquidate.{
  CurveLiquidation, CurveCall, CurveContracts, CurvePosition, is_unstake_token,
  get_erc4626_underlying_asset, check_unstake, contract_for, prepare_curve,
  perform_curve_liquidation_implementation, perform_curve_liquidation_default,
}

throw_if-ok : (b : Bool) (e : Error) → throw_if b e ≡ ok tt → b ≡ false
throw_if-ok true e h = cc
throw_if-ok false e h = refl

-- The token, or the same address in other letters, is on the route of an element.
abbrev pub IsOnRoute : String → List SwapParams → Type 0
IsOnRoute token list =
    (params : SwapParams) × (address : String) × Member params list
    × Member address params.route
    × (to_lower_case address ≡ to_lower_case token)

contains-Member :
    (token : String) (route : List String)
    → contains (to_lower_case token) (map to_lower_case route) ≡ true
    → (address : String) × Member address route × (to_lower_case address ≡ to_lower_case token)
unfolding contains
contains-Member token [] h = cc
contains-Member token (address ∷ route) h =
    elim (Bool-cases (str_eq (to_lower_case address) (to_lower_case token))) [
      | inl t ↦ (address, here refl, (str_eq_iff (to_lower_case address) (to_lower_case token)).0 t)
      | inr t ↦
          let (found, m, e) = contains-Member token route (
            subst (λ b. (b || contains (to_lower_case token) (map to_lower_case route)) ≡ true) t
              h) in
          (found, there m, e)
    ]

pub has_path-IsOnRoute :
    (token : String) (list : List SwapParams) → has_path token list ≡ true → IsOnRoute token list
unfolding has_path
has_path-IsOnRoute token [] h = cc
has_path-IsOnRoute token (params ∷ list) h =
    elim (Bool-cases (contains (to_lower_case token) (map to_lower_case params.route))) [
      | inl t ↦
          let (address, m, e) = contains-Member token params.route t in
          (params, address, here refl, m, e)
      | inr t ↦
          let (other, address, m, n, e) = has_path-IsOnRoute token list (else_eq _ t h) in
          (other, address, there m, n, e)
    ]

given : (e : Error) (b : Bool) → throw_if (not b) e ≡ ok tt → b ≡ true
given e true t = refl
given e false t = cc

unconfigured : {x : String} → err no_config ≡ ok x → ⊥
unconfigured e = cc

module _ (c : Chain) (config : CurveConfig) (contracts : CurveContracts) where
  -- A token to be unstaked has an underlying asset that is on a route.
  abbrev pub IsSwappable : Bool → List SwapParams → String → Type 0
  IsSwappable false list collateral = Unit
  IsSwappable true list collateral =
      (underlying : String) × (get_erc4626_underlying_asset c config contracts collateral
        ≡ ok underlying)
      × IsOnRoute underlying list

  check_unstake-IsSwappable :
      (is_unstake : Bool) (list : List SwapParams) (collateral : String)
      → check_unstake c config contracts is_unstake list collateral ≡ ok tt
      → IsSwappable is_unstake list collateral
  unfolding check_unstake
  check_unstake-IsSwappable false list collateral h = tt
  check_unstake-IsSwappable true list collateral h =
      let (underlying, a, t) =
        >>=-eq-ok (get_erc4626_underlying_asset c config contracts collateral) _ h in
      (underlying, a, has_path-IsOnRoute underlying list (given _ _ t))

  -- The contract that is used is given, and is the one for flash mints just for dUSD.
  abbrev pub IsTarget : Bool → Target → Type 0
  IsTarget is_dusd Target.flash_mint = (is_dusd ≡ true) × (contracts.has_flash_mint ≡ true)
  IsTarget is_dusd Target.flash_loan = (is_dusd ≡ false) × (contracts.has_flash_loan ≡ true)

  contract_for-IsTarget :
      (is_dusd : Bool) (target : Target)
      → contract_for c config contracts is_dusd ≡ ok target
      → IsTarget is_dusd target
  contract_for-IsTarget true target h =
      let (_, t, e) = >>=-eq-ok (throw_if (not contracts.has_flash_mint) no_flash_mint_bot) _ h in
      subst (IsTarget true) (ok_inj e) (refl, given _ contracts.has_flash_mint t)
  contract_for-IsTarget false target h =
      let (_, t, e) = >>=-eq-ok (throw_if (not contracts.has_flash_loan) no_flash_loan_bot) _ h in
      subst (IsTarget false) (ok_inj e) (refl, given _ contracts.has_flash_loan t)

  -- The token information and addresses of a liquidation, and what was checked of them.
  abbrev pub IsPrepared :
      CurvePosition → String → Dict Bool → List SwapParams → Target × CurveLiquidation → Type 0
  IsPrepared position dusd tokens list (target, l) =
      (collateral : TokenInfo) × (borrow : TokenInfo) × (collateral_reserve : ReserveTokens)
      × (borrow_reserve : ReserveTokens) × (c.fetch_token_info position.collateral_token
          ≡ ok collateral)
      × (c.fetch_token_info position.borrow_token ≡ ok borrow)
      × (c.get_reserve_tokens_addresses collateral.address ≡ ok collateral_reserve)
      × (c.get_reserve_tokens_addresses borrow.address ≡ ok borrow_reserve)
      × (str_eq dusd "" ≡ false)
      × IsSwappable (is_unstake_token tokens collateral.address) list collateral.address
      × IsTarget (str_eq borrow.address dusd) target
      × (l ≡ record {
        borrow_a_token = borrow_reserve.a_token_address;
        collateral_a_token = collateral_reserve.a_token_address;
        borrower = position.borrower;
        repay_amount = position.repay_amount;
        stake_tokens = false;
        unstake_token = is_unstake_token tokens collateral.address;
        swap_data = "0x";
      })

  prepare_curve-IsPrepared :
      (position : CurvePosition) (dusd : String) (tokens : Dict Bool) (list : List SwapParams)
      (found : Target × CurveLiquidation)
      → prepare_curve c config contracts position dusd tokens list ≡ ok found
      → IsPrepared position dusd tokens list found
  unfolding prepare_curve
  prepare_curve-IsPrepared position dusd tokens list found h =
      let (collateral, e1, h1) = >>=-eq-ok (c.fetch_token_info position.collateral_token) _ h in
      let (borrow, e2, h2) = >>=-eq-ok (c.fetch_token_info position.borrow_token) _ h1 in
      let (cr, e3, h3) = >>=-eq-ok (c.get_reserve_tokens_addresses collateral.address) _ h2 in
      let (br, e4, h4) = >>=-eq-ok (c.get_reserve_tokens_addresses borrow.address) _ h3 in
      let (_, e5, h5) = >>=-eq-ok (throw_if (str_eq dusd "") empty_dusd_address) _ h4 in
      let (_, e6, h6) =
        >>=-eq-ok
          (check_unstake c config contracts (is_unstake_token tokens collateral.address) list
            collateral.address)
          _ h5 in
      let (target, e7, h7) =
        >>=-eq-ok (contract_for c config contracts (str_eq borrow.address dusd)) _ h6 in
      subst (IsPrepared position dusd tokens list) (ok_inj h7) (
        collateral,
        borrow,
        cr,
        br,
        e1,
        e2,
        e3,
        e4,
        throw_if-ok _ _ e5,
        check_unstake-IsSwappable _ list collateral.address e6,
        contract_for-IsTarget _ target e7,
        refl,
      )

  -- If `performCurveLiquidationDefault` returns a hash, then the bot is configured, and exactly one call
  -- was sent, whose hash it is: the liquidation by the contract that fits the borrow token, with the
  -- aTokens of the two assets. Where the collateral is to be unstaked, its underlying asset is on one
  -- of the configured routes, up to the case of letters. The swap data is empty.
  pub perform_curve_liquidation_default-ok :
      (position : CurvePosition) (hash : String) (calls : List CurveCall)
      → perform_curve_liquidation_default c config contracts position ≡ (ok hash, calls)
      → (settings : CurveSettings) × (target : Target) × (l : CurveLiquidation)
        × (config.liquidator_bot_curve ≡ some settings)
        × IsPrepared position settings.dusd_address settings.is_unstake_tokens
            settings.default_swap_params_list
            (target, l)
        × (calls ≡ CurveCall.liquidate target position.liquidator l ∷ [])
        × (contracts.send (CurveCall.liquidate target position.liquidator l) ≡ ok hash)
  unfolding perform_curve_liquidation_default perform_curve_liquidation_implementation
  perform_curve_liquidation_default-ok position hash calls h =
      elim (Option-cases config.liquidator_bot_curve) [
        | inl e ↦
            let run : perform_curve_liquidation_default c config contracts position
                ≡ (err no_config, []) =
              rw e refl in
            absurd (unconfigured (ap (λ r. r.0) (sym run ∙ h)))
        | inr (settings, e) ↦
            let run : perform_curve_liquidation_default c config contracts position
                ≡ perform_curve_liquidation_implementation c config contracts position
                    settings.dusd_address settings.is_unstake_tokens
                    settings.default_swap_params_list =
              rw e refl in
            let (found, prepared, went, same) =
              reading-ok
                (prepare_curve c config contracts position settings.dusd_address
                  settings.is_unstake_tokens settings.default_swap_params_list)
                _ (ap (λ r. r.0) (sym run ∙ h)) in
            (
              settings,
              found.0,
              found.1,
              e,
              prepare_curve-IsPrepared position _ _ _ found prepared,
              sym (ap (λ r. r.1) (sym same ∙ sym run ∙ h)),
              went,
            )
      ]

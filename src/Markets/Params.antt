-- ===== src/Markets/Params.antt =====
-- What `getUserLiquidationParams` returns, and when it throws.
use mathlib.Core.Path.{subst}
use solidity_contracts.Base.{
  ℕ, ◌<◌, ◌≡◌, ◌⊎◌, refl, ◌∙◌, ap, inl, inr, ◌&&◌, false, List, some, String, arith, length, ok,
  err, ◌>>=◌, >>=-eq-ok, or_throw, or_throw-eq-ok, All, ok_inj, traverse, type_error,
}
use solidity_contracts.Base.Int.{pos, gt}
use solidity_contracts.Batches.Process.{batch_processing-traverse}
use solidity_contracts.Chain.{Chain, Number}
use solidity_contracts.Liquidation.{get_max_liquidation_amount}
use solidity_contracts.Markets.{
  UserReserveInfo, LiquidationParams, get_user_reserve_info, liquidation_params_of, params_on,
  params_from, get_user_liquidation_params, choose_debt_market, choose_collateral_market,
}
use solidity_contracts.Markets.Choice.{
  IsChosen, chosen-none, choose_debt_market_lem, choose_collateral_market_lem,
}

module _ (n : Number) (c : Chain) where
  -- With a positive batch size and enough fuel, `getUserLiquidationParams` ends, whatever the batch
  -- size is: it throws what the first reserve that cannot be read throws, and otherwise chooses from
  -- the information about every reserve, in the order of the pool's list.
  pub get_user_liquidation_params-traverse :
      (user : String) (reserves : List String) (batch_size fuel : ℕ)
      → c.get_reserves_list ≡ ok reserves
      → 0 < batch_size
      → length reserves < fuel
      → get_user_liquidation_params n c fuel (some batch_size) user
        ≡ some (traverse (get_user_reserve_info c user) reserves >>= liquidation_params_of n c user)
  unfolding get_user_liquidation_params params_on
  get_user_liquidation_params-traverse user reserves batch_size fuel listed p h =
      ap (params_on n c fuel batch_size user) listed
      ∙ ap (params_from n c user)
          (batch_processing-traverse reserves batch_size fuel (get_user_reserve_info c user) p h)

  -- The right parameters for a user.
  abbrev pub IsRight : String → List UserReserveInfo → LiquidationParams → Type 0
  IsRight user infos p =
      (p.user_address ≡ user)
      × IsChosen (λ r. r.borrowing_enabled) (λ r. r.total_debt) infos (some p.debt_token)
      × IsChosen (λ r. r.usage_as_collateral_enabled && gt r.liquidation_bonus (pos 0))
          (λ r. r.total_supply) infos (some p.collateral_token)
      × (get_max_liquidation_amount n c p.collateral_token.reserve_token_info
            p.debt_token.reserve_token_info user
          ≡ ok p.to_liquidate_amount)

  -- Parameters that are returned have the user's address, a largest debt among the borrowable
  -- markets, a largest supply among the markets that are usable as collateral with a positive bonus,
  -- and the maximal amount for these two.
  pub liquidation_params_of-ok :
      (user : String) (infos : List UserReserveInfo) (p : LiquidationParams)
      → liquidation_params_of n c user infos ≡ ok p
      → IsRight user infos p
  unfolding liquidation_params_of
  liquidation_params_of-ok user infos p h =
      let (ct, e1, h1) = >>=-eq-ok (or_throw (choose_collateral_market infos) type_error) _ h in
      let (dt, e2, h2) = >>=-eq-ok (or_throw (choose_debt_market infos) type_error) _ h1 in
      let (amount, e3, h3) = >>=-eq-ok _ _ h2 in
      let ce = or_throw-eq-ok (choose_collateral_market infos) type_error e1 in
      let de = or_throw-eq-ok (choose_debt_market infos) type_error e2 in
      subst (IsRight user infos) (ok_inj h3) (
        refl,
        subst (IsChosen (λ r. r.borrowing_enabled) (λ r. r.total_debt) infos) de
            (choose_debt_market_lem infos),
        subst
            (IsChosen (λ r. r.usage_as_collateral_enabled && gt r.liquidation_bonus (pos 0))
              (λ r. r.total_supply) infos)
            ce (choose_collateral_market_lem infos),
        e3,
      )

  -- Where no market of the user is borrowable, or none is both usable as collateral and has a positive
  -- bonus, it throws.
  pub liquidation_params_of-none :
      (user : String) (infos : List UserReserveInfo)
      → All (λ r. r.borrowing_enabled ≡ false) infos
        ⊎ All (λ r. (r.usage_as_collateral_enabled && gt r.liquidation_bonus (pos 0)) ≡ false) infos
      → liquidation_params_of n c user infos ≡ err type_error
  unfolding liquidation_params_of
  liquidation_params_of-none user infos (inl h) =
      let e =
        chosen-none (λ r. r.borrowing_enabled) (λ r. r.total_debt) infos (choose_debt_market infos)
          (choose_debt_market_lem infos) h in
      ground (arith, e)
  liquidation_params_of-none user infos (inr h) =
      let e =
        chosen-none (λ r. r.usage_as_collateral_enabled && gt r.liquidation_bonus (pos 0))
          (λ r. r.total_supply) infos (choose_collateral_market infos)
          (choose_collateral_market_lem infos) h in
      ground (arith, e)

-- ===== src/Reserves/Inputs.antt =====
-- The inputs that `initReservesByHelper` prepares, against their description.
use solidity_contracts.Reserves.Described.{described_inputs}
use solidity_contracts.Reserves.Cache.{not_some}
use solidity_contracts.Reserves.Loop.{IsApart, collect-inputs_of}
use solidity_contracts.Base.{
  ◌≡◌, refl, arith, Bool, true, false, [], ◌∷◌, none, String, str_eq, ok, ◌>>=◌, >>=-congr,
  >>=-mapped, filter, if◌then◌else◌, Bool-cases, then_eq, else_eq, inl, inr,
}
use solidity_contracts.Base.Dict.{Dict, lookup, IsDistinct}
use solidity_contracts.Reserves.{ReserveParams}
use solidity_contracts.Reserves.Init.{
  Deployed, DeploymentId, is_reserve, collect, start, delegation_aware_implementation, prepare_init,
}

module _ (d : Deployed) where
  filter-lookup :
      (p : String × ReserveParams → Bool) (symbol : String) (reserves : Dict ReserveParams)
      → lookup symbol reserves ≡ none
      → lookup symbol (filter p reserves) ≡ none
  unfolding lookup
  filter-lookup p symbol [] h = refl
  filter-lookup p symbol ((k, v) ∷ reserves) h = elim (Bool-cases (str_eq k symbol)) [
    | inl t ↦ absurd (not_some (then_eq _ t h))
    | inr t ↦ kept _ t (filter-lookup p symbol reserves (else_eq _ t h))
  ]
    where
      kept :
          (b : Bool)
          → str_eq k symbol ≡ false
          → lookup symbol (filter p reserves) ≡ none
          → lookup symbol (if b then (k, v) ∷ filter p reserves else filter p reserves) ≡ none
      kept true e f = rw e f
      kept false e f = f

  filter-IsDistinct :
      (p : String × ReserveParams → Bool) (reserves : Dict ReserveParams)
      → IsDistinct reserves
      → IsDistinct (filter p reserves)
  filter-IsDistinct p [] h = tt
  filter-IsDistinct p ((k, v) ∷ reserves) h =
      ground (arith, filter-IsDistinct p reserves h.1, filter-lookup p k reserves h.0)

  IsApart-start : (reserves : Dict ReserveParams) → IsApart d (start d) reserves
  IsApart-start [] = tt
  IsApart-start (r ∷ reserves) = (tt, IsApart-start reserves)

  -- For distinct symbols, the loops with their caches and parallel arrays prepare the inputs that the
  -- description takes from each reserve by itself, or throw the same exception.
  pub prepare_init-described_inputs :
      (reserves_params : Dict ReserveParams) (token_addresses : Dict String)
      (treasury_address : String)
      → IsDistinct reserves_params
      → prepare_init d reserves_params token_addresses treasury_address
        ≡ described_inputs d reserves_params token_addresses treasury_address
  unfolding prepare_init described_inputs
  prepare_init-described_inputs reserves_params token_addresses treasury_address distinct =
      >>=-congr (d.get_deployment DeploymentId.pool_addresses_provider) λ provider.
        >>=-congr d.get_pool λ pool.
          >>=-congr (d.get_deployment DeploymentId.stable_debt_token_impl) λ stable_debt.
            >>=-congr (d.get_deployment DeploymentId.variable_debt_token_impl) λ variable_debt.
              >>=-congr (d.get_deployment DeploymentId.a_token_impl) λ a_token.
                >>=-congr (delegation_aware_implementation d reserves_params) λ delegation_aware.
                  let reserves = filter is_reserve reserves_params in
                  >>=-mapped _ (collect d token_addresses (start d) reserves) _
                    (λ xs. d.get_deployment DeploymentId.pool_configurator_proxy >>= λ configurator.
                      ok xs)
                    (collect-inputs_of d _ token_addresses (start d) reserves (λ name address e. cc)
                      (IsApart-start reserves)
                      (filter-IsDistinct is_reserve reserves_params distinct))

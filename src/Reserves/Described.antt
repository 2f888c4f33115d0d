-- ===== src/Reserves/Described.antt =====
-- What `initReservesByHelper` has to prepare, with each reserve taken for itself.
use solidity_contracts.Base.{
  not, List, [], ◌∷◌, ◌++◌, none, some, String, str_eq, Result, ok, ◌>>=◌, filter, if◌then◌else◌,
}
use solidity_contracts.Base.Dict.{Dict}
use solidity_contracts.Swap.{zero_address}
use solidity_contracts.Reserves.{ReserveParams, token_address_of}
use solidity_contracts.Reserves.Init.{
  InitInput, Implementations, Deployed, DeploymentId, is_generic, is_reserve, strategy_deployment,
  init_input_from, delegation_aware_implementation,
}

module _ (d : Deployed) where
  -- The input of a reserve by itself: none where it has no address or is initialized.
  abbrev pub input_of_token :
      Implementations → String → ReserveParams → String → Result (List InitInput)
  input_of_token impl symbol params token = d.get_a_token token >>= λ a_token.
      if not (str_eq a_token zero_address)
      then ok []
      else (strategy_deployment d params.strategy_name >>= λ strategy. ok (
          init_input_from d impl (is_generic params.a_token_impl) (some strategy)
            (record { symbol = symbol; token = token; decimals = params.reserve_decimals })
          ∷ []))

  abbrev pub input_of :
      Implementations → Dict String → String → ReserveParams → Result (List InitInput)
  input_of impl token_addresses symbol params = elim (token_address_of token_addresses symbol) [
    | none ↦ ok []
    | some token ↦ input_of_token impl symbol params token
  ]

  unfoldable pub inputs_of :
      Implementations → Dict String → Dict ReserveParams → Result (List InitInput)
  inputs_of impl token_addresses [] = ok []
  inputs_of impl token_addresses ((symbol, params) ∷ reserves) =
      input_of impl token_addresses symbol params >>= λ here.
      inputs_of impl token_addresses reserves >>= λ rest. ok (here ++ rest)

  -- `prepare_init` with the description in place of the loops.
  unfoldable pub described_inputs :
      Dict ReserveParams → Dict String → String → Result (List InitInput)
  unfolding inputs_of
  described_inputs reserves_params token_addresses treasury_address = do
    provider ← d.get_deployment DeploymentId.pool_addresses_provider
    pool ← d.get_pool
    stable_debt ← d.get_deployment DeploymentId.stable_debt_token_impl
    variable_debt ← d.get_deployment DeploymentId.variable_debt_token_impl
    a_token ← d.get_deployment DeploymentId.a_token_impl
    delegation_aware ← delegation_aware_implementation d reserves_params
    inputs ←
        inputs_of
          (record {
            a_token = a_token;
            stable_debt = stable_debt;
            variable_debt = variable_debt;
            delegation_aware_a_token = delegation_aware;
            treasury = treasury_address;
          })
          token_addresses (filter is_reserve reserves_params)
    configurator ← d.get_deployment DeploymentId.pool_configurator_proxy
    ok inputs

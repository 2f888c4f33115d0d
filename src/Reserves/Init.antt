-- ===== src/Reserves/Init.antt =====
-- `initReservesByHelper`.
use Prim.Native.String.{◌++◌ as append_text}
use solidity_contracts.Base.{
  Bool, true, false, not, List, [], ◌∷◌, ◌++◌, map, Option, none, some, String, str_eq, Result, ok,
  err, ◌>>=◌, filter, if◌then◌else◌,
}
use solidity_contracts.Base.Dict.{Dict, lookup, insert}
use solidity_contracts.Batches.{chunk}
use solidity_contracts.Swap.{zero_address}
use solidity_contracts.Reserves.{
  ATokenKind, ReserveParams, token_address_of, truthy_text, send_chunks,
}

-- What `initReserves` takes for a reserve; `params` and the incentives controller are fixed. An
-- address that was never set is `undefined`.
pub record InitInput : Type 0 where
  pub a_token_impl : String
  pub stable_debt_token_impl : String
  pub variable_debt_token_impl : String
  pub underlying_asset_decimals : String
  pub interest_rate_strategy_address : Option String
  pub underlying_asset : String
  pub treasury : String
  pub incentives_controller : String
  pub underlying_asset_name : String
  pub a_token_name : String
  pub a_token_symbol : String
  pub variable_debt_token_name : String
  pub variable_debt_token_symbol : String
  pub stable_debt_token_name : String
  pub stable_debt_token_symbol : String
  pub params : String

-- The addresses of the implementations of the tokens.
pub record Implementations : Type 0 where
  pub a_token : String
  pub stable_debt : String
  pub variable_debt : String
  -- Empty where no reserve needs it.
  pub delegation_aware_a_token : String
  pub treasury : String

-- The names of deployments: the constants of utils/lending/deploy-ids.ts, which also carry the name of
-- the market, and "ReserveStrategy-${strategy.name}".
pub data DeploymentId : Type 0 where
  pool_addresses_provider stable_debt_token_impl variable_debt_token_impl a_token_impl
        delegation_aware_a_token_impl pool_configurator_proxy :
      DeploymentId
  reserve_strategy : String → DeploymentId

-- What is deployed: the address of a deployment by its name, the address of the pool, the aToken of an
-- asset, and whether `initReserves` goes through.
pub record Deployed : Type 0 where
  pub get_deployment : DeploymentId → Result String
  pub get_pool : Result String
  pub get_a_token : String → Result String
  pub init_reserves : List InitInput → Result (Unit {0})

-- The entry at one index of `reserveSymbols`, `reserveTokens` and `reserveInitDecimals`.
pub record Found : Type 0 where
  pub symbol : String
  pub token : String
  pub decimals : String

-- The variables of the loop over the reserves. `a_token_type` is true for "generic".
pub record InitState : Type 0 where
  pub strategy_addresses : Dict String
  pub strategy_address_per_asset : Dict String
  pub a_token_type : Dict Bool
  pub found : List Found

abbrev pub is_delegated : String × ReserveParams → Bool
is_delegated (symbol, params) = elim params.a_token_impl [
  | ATokenKind.delegation_aware ↦ true
  | _ ↦ false
]

abbrev pub is_reserve : String × ReserveParams → Bool
is_reserve (symbol, params) = elim params.a_token_impl [ ATokenKind.another ↦ false | _ ↦ true ]

abbrev pub is_generic : ATokenKind → Bool
is_generic ATokenKind.generic = true
is_generic ATokenKind.delegation_aware = false
is_generic ATokenKind.another = false

module _ (d : Deployed) where
  abbrev pub strategy_deployment : String → Result String
  strategy_deployment name = d.get_deployment (DeploymentId.reserve_strategy name)

  -- The address of a strategy, from the cache or from its deployment, with the cache behind it.
  abbrev pub behind_cache : String → Dict String → Option String → Result (String × Dict String)
  behind_cache name cache (some address) = ok (address, cache)
  behind_cache name cache none =
      strategy_deployment name >>= λ address. ok (address, insert name address cache)

  unfoldable pub strategy_address : String → Dict String → Result (String × Dict String)
  unfolding lookup insert
  strategy_address name cache = behind_cache name cache (truthy_text (lookup name cache))

  -- What the loop adds for a reserve that has to be initialized.
  abbrev pub add_reserve :
      InitState → String → ReserveParams → String → String × Dict String → InitState
  add_reserve st symbol params token (address, cache) = record {
    strategy_addresses = cache;
    strategy_address_per_asset = insert symbol address st.strategy_address_per_asset;
    a_token_type = insert symbol (is_generic params.a_token_impl) st.a_token_type;
    found =
        st.found
        ++ (record { symbol = symbol; token = token; decimals = params.reserve_decimals } ∷ []);
  }

  -- The body of the loop behind the check of the address.
  unfoldable pub collect_token : InitState → String → ReserveParams → String → Result InitState
  unfolding strategy_address insert
  collect_token st symbol params token = d.get_a_token token >>= λ a_token.
      if not (str_eq a_token zero_address)
      then ok st
      else (strategy_address params.strategy_name st.strategy_addresses >>= λ found.
          ok (add_reserve st symbol params token found))

  -- The loop over the reserves.
  unfoldable pub collect : Dict String → InitState → Dict ReserveParams → Result InitState
  unfolding token_address_of collect_token
  collect token_addresses st [] = ok st
  collect token_addresses st ((symbol, params) ∷ reserves) =
      elim (token_address_of token_addresses symbol) [
        | none ↦ ok st
        | some token ↦ collect_token st symbol params token
      ]
      >>= λ next. collect token_addresses next reserves

  abbrev pub start : InitState
  start = record {
    strategy_addresses = [];
    strategy_address_per_asset = [];
    a_token_type = [];
    found = [];
  }

  -- An element of `initInputParams`.
  abbrev pub init_input_from : Implementations → Bool → Option String → Found → InitInput
  init_input_from impl generic strategy f = record {
    a_token_impl = if generic then impl.a_token else impl.delegation_aware_a_token;
    stable_debt_token_impl = impl.stable_debt;
    variable_debt_token_impl = impl.variable_debt;
    underlying_asset_decimals = f.decimals;
    interest_rate_strategy_address = strategy;
    underlying_asset = f.token;
    treasury = impl.treasury;
    incentives_controller = zero_address;
    underlying_asset_name = f.symbol;
    a_token_name = append_text "dTRINITY Lend " f.symbol;
    a_token_symbol = append_text "d" f.symbol;
    variable_debt_token_name = append_text "dTRINITY Variable Debt " f.symbol;
    variable_debt_token_symbol = append_text "variableDebt" f.symbol;
    stable_debt_token_name = append_text "dTRINITY Stable Debt " f.symbol;
    stable_debt_token_symbol = append_text "stableDebt" f.symbol;
    params = "0x10";
  }

  abbrev pub is_true : Option Bool → Bool
  is_true none = false
  is_true (some b) = b

  -- The loop by index over `reserveSymbols`.
  unfoldable pub init_inputs : Implementations → InitState → List InitInput
  unfolding lookup
  init_inputs impl st =
      map
        (λ f.
          init_input_from impl (is_true (lookup f.symbol st.a_token_type))
            (lookup f.symbol st.strategy_address_per_asset) f)
        st.found

  -- The implementation for delegation-aware tokens, read if a reserve asks for it.
  abbrev pub delegation_aware_implementation : Dict ReserveParams → Result String
  delegation_aware_implementation reserves_params = elim (filter is_delegated reserves_params) [
    | [] ↦ ok ""
    | ◌∷◌ r rs ↦ d.get_deployment DeploymentId.delegation_aware_a_token_impl
  ]

  -- Everything before the first call.
  unfoldable pub prepare_init : Dict ReserveParams → Dict String → String → Result (List InitInput)
  unfolding collect init_inputs
  prepare_init reserves_params token_addresses treasury_address = do
    provider ← d.get_deployment DeploymentId.pool_addresses_provider
    pool ← d.get_pool
    stable_debt ← d.get_deployment DeploymentId.stable_debt_token_impl
    variable_debt ← d.get_deployment DeploymentId.variable_debt_token_impl
    a_token ← d.get_deployment DeploymentId.a_token_impl
    delegation_aware ← delegation_aware_implementation reserves_params
    st ← collect token_addresses start (filter is_reserve reserves_params)
    configurator ← d.get_deployment DeploymentId.pool_configurator_proxy
    ok (
        init_inputs
          (record {
            a_token = a_token;
            stable_debt = stable_debt;
            variable_debt = variable_debt;
            delegation_aware_a_token = delegation_aware;
            treasury = treasury_address;
          })
          st)

  abbrev pub send_inputs : Result (List InitInput) → Result (Unit {0}) × List (List InitInput)
  send_inputs (err e) = (err e, [])
  send_inputs (ok inputs) = send_chunks d.init_reserves (chunk inputs 3)

  -- `initReservesByHelper`: its result and the inputs of the calls of `initReserves`.
  unfoldable pub init_reserves_by_helper :
      Dict ReserveParams → Dict String → String → Result (Unit {0}) × List (List InitInput)
  unfolding prepare_init chunk
  init_reserves_by_helper reserves_params token_addresses treasury_address =
      send_inputs (prepare_init reserves_params token_addresses treasury_address)

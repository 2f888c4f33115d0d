-- ===== src/Reserves/Configure.antt =====
-- `configureReservesByHelper`.
use solidity_contracts.Base.{
  ℕ, Bool, List, [], ◌∷◌, ◌++◌, Option, none, some, String, str_eq, Result, ok, err, ◌>>=◌,
  or_throw, type_error, Traced, and_then, reading, get_elem?, if◌then◌else◌, suc,
}
use solidity_contracts.Base.Dict.{Dict}
use solidity_contracts.Batches.{chunk}
use solidity_contracts.Reserves.{ReserveParams, token_address_of}

-- What `configureReserves` takes for a reserve.
pub record ConfigureInput : Type 0 where
  pub asset : String
  pub base_ltv : String
  pub liquidation_threshold : String
  pub liquidation_bonus : String
  pub reserve_factor : String
  pub borrow_cap : String
  pub supply_cap : String
  pub stable_borrowing_enabled : Bool
  pub borrowing_enabled : Bool
  pub flash_loan_enabled : Bool

-- The calls that change the chain: a role given or taken by the ACL manager, and `configureReserves`
-- of the helper for a pool configurator.
pub data SetupCall : Type 0 where
  add_risk_admin remove_risk_admin : String → String → SetupCall
  configure_reserves : String → List ConfigureInput → SetupCall

-- What the deployed contracts answer, and whether a call goes through. The first three say whether
-- the deployments of the addresses provider, the helper and the data provider are found.
pub record Setup : Type 0 where
  pub address_provider : Result (Unit {0})
  pub reserves_setup_helper : Result String
  pub pool_data_provider : Result (Unit {0})
  pub usage_as_collateral_enabled : String → Result Bool
  pub get_acl_admin : Result String
  pub get_signer : String → Result (Unit {0})
  pub get_acl_manager : Result String
  pub get_pool_configurator : Result String
  pub send : SetupCall → Result (Unit {0})

-- `Object.keys(tokenAddresses).findIndex(…)`; `none` is -1.
abbrev pub next_index : Option ℕ → Option ℕ
next_index none = none
next_index (some i) = some (suc i)

unfoldable pub find_index : String → Dict String → Option ℕ
find_index symbol [] = none
find_index symbol ((key, value) ∷ entries) =
    if str_eq key symbol then some 0 else next_index (find_index symbol entries)

-- `Object.entries(tokenAddresses)[index]`; the entry of no index cannot be destructured.
abbrev pub entry_at : Dict String → Option ℕ → Result String
entry_at token_addresses none = err type_error
entry_at token_addresses (some i) =
    or_throw (get_elem? token_addresses i) type_error >>= λ entry. ok entry.1

abbrev pub configure_input : ReserveParams → String → ConfigureInput
configure_input params token_address = record {
  asset = token_address;
  base_ltv = params.base_ltv_as_collateral;
  liquidation_threshold = params.liquidation_threshold;
  liquidation_bonus = params.liquidation_bonus;
  reserve_factor = params.reserve_factor;
  borrow_cap = params.borrow_cap;
  supply_cap = params.supply_cap;
  stable_borrowing_enabled = params.stable_borrow_rate_enabled;
  borrowing_enabled = params.borrowing_enabled;
  flash_loan_enabled = params.flash_loan_enabled;
}

module _ (s : Setup) where
  -- Behind the check of the address.
  unfoldable pub collect_input :
      Dict String → List ConfigureInput → String → ReserveParams → Result (List ConfigureInput)
  unfolding find_index
  collect_input token_addresses inputs symbol params =
      if str_eq params.base_ltv_as_collateral "-1"
      then ok inputs
      else (entry_at token_addresses (find_index symbol token_addresses) >>= λ token_address.
          s.usage_as_collateral_enabled token_address >>= λ already_enabled.
          if already_enabled
          then ok inputs
          else ok (inputs ++ (configure_input params token_address ∷ [])))

  -- The loop over the reserves; `tokens` and `symbols` are as long as the inputs.
  unfoldable pub collect_inputs :
      Dict String → List ConfigureInput → Dict ReserveParams → Result (List ConfigureInput)
  unfolding token_address_of collect_input
  collect_inputs token_addresses inputs [] = ok inputs
  collect_inputs token_addresses inputs ((symbol, params) ∷ reserves) =
      elim (token_address_of token_addresses symbol) [
        | none ↦ ok inputs
        | some _ ↦ collect_input token_addresses inputs symbol params
      ]
      >>= λ next. collect_inputs token_addresses next reserves

  abbrev pub sent_setup : SetupCall → Traced SetupCall (Unit {0})
  sent_setup call = (s.send call, call ∷ [])

  -- The loop over the chunks.
  unfoldable pub configure_chunks :
      String → List (List ConfigureInput) → Traced SetupCall (Unit {0})
  configure_chunks configurator [] = (ok tt, [])
  configure_chunks configurator (inputs ∷ chunks) =
      and_then (sent_setup (SetupCall.configure_reserves configurator inputs))
        (λ _. configure_chunks configurator chunks)

  -- Between the two changes of the role.
  unfoldable pub configure_all : List ConfigureInput → Traced SetupCall (Unit {0})
  unfolding configure_chunks chunk
  configure_all inputs =
      reading s.get_pool_configurator
        (λ configurator. configure_chunks configurator (chunk inputs 20))

  -- What is done if there are inputs.
  unfoldable pub configure_as_admin : String → List ConfigureInput → Traced SetupCall (Unit {0})
  unfolding configure_all
  configure_as_admin helper inputs = reading s.get_acl_admin (λ admin.
      reading (s.get_signer admin) (λ _. reading s.get_acl_manager (λ manager.
        and_then (sent_setup (SetupCall.add_risk_admin manager helper)) (λ _.
          and_then (configure_all inputs) (λ _.
            reading s.get_acl_manager
              (λ same. sent_setup (SetupCall.remove_risk_admin same helper)))))))

  abbrev pub configure_if_any : String → List ConfigureInput → Traced SetupCall (Unit {0})
  configure_if_any helper [] = (ok tt, [])
  configure_if_any helper (input ∷ inputs) = configure_as_admin helper (input ∷ inputs)

  -- `configureReservesByHelper`
  unfoldable pub configure_reserves_by_helper :
      Dict ReserveParams → Dict String → Traced SetupCall (Unit {0})
  unfolding collect_inputs configure_as_admin
  configure_reserves_by_helper reserves_params token_addresses = reading s.address_provider (λ _.
      reading s.reserves_setup_helper (λ helper. reading s.pool_data_provider (λ _.
        reading (collect_inputs token_addresses [] reserves_params)
          (λ inputs. configure_if_any helper inputs))))

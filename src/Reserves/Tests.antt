-- ===== src/Reserves/Tests.antt =====
-- A market of four assets: one without an address, one that is initialized, two to be set up with the
-- same strategy.
use solidity_contracts.Base.{
  ◌≡◌, ◌≢◌, refl, true, false, List, [], ◌∷◌, String, str_eq, Result, ok, err, external, All,
  concat, length, if◌then◌else◌, map,
}
use solidity_contracts.Base.Dict.{Dict, lookup, IsDistinct}
use solidity_contracts.Batches.Split.{IsBatched}
use solidity_contracts.Swap.{zero_address}
use solidity_contracts.Reserves.{ATokenKind, ReserveParams}
use solidity_contracts.Reserves.Init.{
  Deployed, DeploymentId, InitInput, prepare_init, init_reserves_by_helper,
}
use solidity_contracts.Reserves.Described.{described_inputs}
use solidity_contracts.Reserves.Inputs.{prepare_init-described_inputs}
use solidity_contracts.Reserves.Chunks.{init_reserves_by_helper-ok}
use solidity_contracts.Reserves.Configure.{
  ConfigureInput, Setup, SetupCall, configure_reserves_by_helper,
}
use solidity_contracts.Reserves.Wanted.{wanted_inputs}
use solidity_contracts.Reserves.Roles.{
  Configured, GoesThrough, is_risk_admin, configure_reserves_by_helper-ok,
}
use solidity_contracts.Reserves.Leftover.{configure_reserves_by_helper-is_risk_admin}
use solidity_contracts.Reserves.Registry.{Addresses, Registry, RegistryCall, add_market_to_registry}

abbrev params : ATokenKind → String → ReserveParams
params kind ltv = record {
  strategy_name = "stable";
  a_token_impl = kind;
  reserve_decimals = "18";
  base_ltv_as_collateral = ltv;
  liquidation_threshold = "8500";
  liquidation_bonus = "10500";
  reserve_factor = "1000";
  borrow_cap = "0";
  supply_cap = "0";
  stable_borrow_rate_enabled = false;
  borrowing_enabled = true;
  flash_loan_enabled = true;
}

abbrev market : Dict ReserveParams
market =
    ("A", params ATokenKind.generic "8000")
    ∷ ("B", params ATokenKind.generic "8000")
    ∷ ("C", params ATokenKind.delegation_aware "-1")
    ∷ ("D", params ATokenKind.generic "8000")
    ∷ []

abbrev addresses : Dict String
addresses = ("A", "0xa") ∷ ("C", "0xc") ∷ ("D", "0xd") ∷ []

abbrev deployment : DeploymentId → Result String
deployment (DeploymentId.reserve_strategy name) = ok "0x51"
deployment DeploymentId.delegation_aware_a_token_impl = ok "0xda"
deployment DeploymentId.a_token_impl = ok "0xaa"
deployment id = ok "0x1"

-- "D" has an aToken already.
abbrev deployed : Deployed
deployed = record {
  get_deployment = deployment;
  get_pool = ok "0x2";
  get_a_token = λ token. ok (if str_eq token "0xd" then "0x7" else zero_address);
  init_reserves = λ inputs. ok tt;
}

market-IsDistinct : IsDistinct market
unfolding lookup
market-IsDistinct = (refl, (refl, (refl, (refl, tt))))

sent_symbols :
    map
      (λ inputs. map (λ (i : InitInput). i.a_token_impl) inputs)
      (init_reserves_by_helper deployed market addresses "0x3").1
    ≡ ("0xaa" ∷ "0xda" ∷ []) ∷ []
unfolding init_reserves_by_helper
sent_symbols = refl

goes_through : (init_reserves_by_helper deployed market addresses "0x3").0 ≡ ok tt
unfolding init_reserves_by_helper
goes_through = refl

prepare_init-described_inputs_example :
    prepare_init deployed market addresses "0x3" ≡ described_inputs deployed market addresses "0x3"
prepare_init-described_inputs_example =
    prepare_init-described_inputs deployed market addresses "0x3" market-IsDistinct

init_reserves_by_helper-ok_example :
    let run = init_reserves_by_helper deployed market addresses "0x3" in
    (described_inputs deployed market addresses "0x3" ≡ ok (concat run.1))
    × IsBatched 3 run.1
    × All (λ inputs. deployed.init_reserves inputs ≡ ok tt) run.1
init_reserves_by_helper-ok_example =
    init_reserves_by_helper-ok deployed market addresses "0x3" market-IsDistinct goes_through

-- Only "D" is enabled as collateral.
abbrev setup : (SetupCall → Result (Unit {0})) → Setup
setup send = record {
  address_provider = ok tt;
  reserves_setup_helper = ok "0x4";
  pool_data_provider = ok tt;
  usage_as_collateral_enabled = λ token. ok (str_eq token "0xd");
  get_acl_admin = ok "0x5";
  get_signer = λ admin. ok tt;
  get_acl_manager = ok "0x6";
  get_pool_configurator = ok "0x8";
  send = send;
}

abbrev working : Setup
working = setup (λ call. ok tt)

abbrev refuse_configuration : SetupCall → Result (Unit {0})
refuse_configuration (SetupCall.configure_reserves configurator inputs) = err (external "")
refuse_configuration (SetupCall.add_risk_admin manager helper) = ok tt
refuse_configuration (SetupCall.remove_risk_admin manager helper) = ok tt

abbrev refusing : Setup
refusing = setup refuse_configuration

is_configured : (configure_reserves_by_helper working market addresses).0 ≡ ok tt
unfolding configure_reserves_by_helper
is_configured = refl

three_calls : length (configure_reserves_by_helper working market addresses).1 ≡ 3
unfolding configure_reserves_by_helper
three_calls = refl

is_refused : (configure_reserves_by_helper refusing market addresses).0 ≡ err (external "")
unfolding configure_reserves_by_helper
is_refused = refl

is_started : (configure_reserves_by_helper refusing market addresses).1 ≢ []
unfolding configure_reserves_by_helper
is_started e = cc

configure_reserves_by_helper-ok_example :
    (helper : String) × (inputs : List ConfigureInput) × (working.reserves_setup_helper ≡ ok helper)
    × (wanted_inputs working addresses market ≡ ok inputs)
    × Configured working helper inputs (configure_reserves_by_helper working market addresses).1
    × All (GoesThrough working) (configure_reserves_by_helper working market addresses).1
    × (is_risk_admin working false (configure_reserves_by_helper working market addresses).1
        ≡ false)
configure_reserves_by_helper-ok_example =
    configure_reserves_by_helper-ok working market addresses is_configured

configure_reserves_by_helper-is_risk_admin_example :
    is_risk_admin refusing false (configure_reserves_by_helper refusing market addresses).1 ≡ true
configure_reserves_by_helper-is_risk_admin_example =
    configure_reserves_by_helper-is_risk_admin refusing market addresses "0x4" "0x6" (external "")
      refl refl refl refl is_refused is_started

-- The identifier 7 is free.
abbrev registry : Registry
registry = record {
  deployment = ok tt;
  owner = ok "0x9";
  get_signer = λ owner. ok tt;
  get_addresses_provider_address_by_id = λ id. ok zero_address;
  send = λ call. ok tt;
}

abbrev spelled : Addresses
spelled = record { is_address = λ a. true; get_address = λ a. ok a }

registered :
    add_market_to_registry spelled registry 7 "0xa"
    ≡ (ok tt, RegistryCall.register_addresses_provider "0x9" "0xa" 7 ∷ [])
unfolding add_market_to_registry
registered = refl

-- ===== src/Rebalance.antt =====
-- The rebalancing bot of the DLoop vaults: scripts/dloop/rebalance-bot/run.ts. The values of the vault
-- contracts are natural numbers, as their types are unsigned. The calls that change a vault are kept
-- as a list; where one fails, that is only logged, so it has no result here.
pub mod Leverage
pub mod Iterations
mod Tests
use solidity_contracts.Base.{
  ℕ, ◌+◌, ◌-◌, ◌*◌, ◌/◌, ◌^◌, Bool, true, false, ◌||◌, List, [], ◌∷◌, ◌++◌, map, filter, String,
  ltb, Result, ok, err, Traced, and_then, reading, if◌then◌else◌, ◌==◌,
}
use solidity_contracts.Base.Dict.{Dict}
use Prim.Native.Char.{code}

-- `increaseLeverage` and `decreaseLeverage`: the amount and the limit of the price.
pub data VaultCall : Type 0 where
  increase_leverage decrease_leverage : ℕ → ℕ → VaultCall

-- What a vault answers, with the oracle's price of its underlying asset and the decimals of dUSD.
pub record Vault : Type 0 where
  pub is_too_imbalanced : Result Bool
  pub current_leverage_bps : Result ℕ
  pub target_leverage_bps : Result ℕ
  pub lower_bound_bps : Result ℕ
  pub upper_bound_bps : Result ℕ
  pub asset_price_in_base : Result ℕ
  pub total_assets : Result ℕ
  pub dusd_decimals : Result ℕ

-- `ONE_HUNDRED_PERCENT_BPS`
abbrev pub one_hundred_percent_bps : ℕ
one_hundred_percent_bps = 10000

-- `a > b ? a - b : b - a`
unfoldable pub leverage_gap : ℕ → ℕ → ℕ
leverage_gap a b = if ltb b a then a - b else b - a

unfoldable pub asset_amount : ℕ → ℕ → ℕ
asset_amount total_assets leverage_gap_bps =
    total_assets * leverage_gap_bps / one_hundred_percent_bps

unfoldable pub min_price_in_base : ℕ → ℕ
min_price_in_base asset_price = asset_price * 95 / 100

-- `10 ** Number(dusdDecimals)` is a floating-point power, which is exact up to 22 decimals.
unfoldable pub dusd_amount : ℕ → ℕ → ℕ → ℕ → ℕ
dusd_amount total_assets leverage_gap_bps asset_price dusd_decimals =
    total_assets
    * leverage_gap_bps
    * asset_price
    / one_hundred_percent_bps
    * 10 ^ dusd_decimals
    / 10 ^ 18

unfoldable pub max_price_in_base : ℕ → ℕ
max_price_in_base asset_price = asset_price * 105 / 100

abbrev pub sent_caught : VaultCall → Traced VaultCall (Unit {0})
sent_caught call = (ok tt, call ∷ [])

unfoldable pub increase : Vault → ℕ → ℕ → ℕ → Traced VaultCall (Unit {0})
unfolding leverage_gap asset_amount min_price_in_base
increase v current target price = reading v.total_assets (λ total. sent_caught (
    VaultCall.increase_leverage (asset_amount total (leverage_gap target current))
      (min_price_in_base price)))

unfoldable pub decrease : Vault → ℕ → ℕ → ℕ → Traced VaultCall (Unit {0})
unfolding leverage_gap dusd_amount max_price_in_base
decrease v current target price = reading v.dusd_decimals (λ decimals.
    reading v.total_assets (λ total. sent_caught (
      VaultCall.decrease_leverage (dusd_amount total (leverage_gap current target) price decimals)
        (max_price_in_base price))))

-- The branches, for whether the leverage is below the lower and above the upper bound.
abbrev pub by_bounds : Vault → ℕ → ℕ → ℕ → Bool → Bool → Traced VaultCall (Unit {0})
by_bounds v current target price true above = increase v current target price
by_bounds v current target price false true = decrease v current target price
by_bounds v current target price false false = (ok tt, [])

-- What is done for the values that were read.
unfoldable pub adjust : Vault → ℕ → ℕ → ℕ → ℕ → ℕ → Traced VaultCall (Unit {0})
unfolding increase decrease
adjust v current target lower upper price =
    by_bounds v current target price (ltb current lower) (ltb upper current)

-- `rebalance`
unfoldable pub rebalance : Vault → Traced VaultCall (Unit {0})
unfolding adjust
rebalance v = reading v.current_leverage_bps (λ current. reading v.target_leverage_bps (λ target.
    reading v.lower_bound_bps (λ lower. reading v.upper_bound_bps (λ upper.
      reading v.asset_price_in_base (λ price. adjust v current target lower upper price)))))

-- The body of the loop over the vaults.
abbrev pub rebalance_if : Vault → Bool → Traced VaultCall (Unit {0})
rebalance_if v false = (ok tt, [])
rebalance_if v true = rebalance v

unfoldable pub visit : Vault → Traced VaultCall (Unit {0})
unfolding rebalance
visit v = reading v.is_too_imbalanced (rebalance_if v)

-- The loop, which ends at the first exception; the iteration catches it.
unfoldable pub visit_all : List Vault → Traced VaultCall (Unit {0})
unfolding visit
visit_all [] = (ok tt, [])
visit_all (v ∷ vs) = and_then (visit v) (λ _. visit_all vs)

-- `name.startsWith(prefix)`
unfoldable pub starts_with : String → String → Bool
starts_with String.[] name = true
starts_with (String.◌∷◌ c prefix) String.[] = false
starts_with (String.◌∷◌ c prefix) (String.◌∷◌ d name) =
    if code c == code d then starts_with prefix name else false

abbrev pub is_vault : String × String → Bool
is_vault (name, address) =
    starts_with "DLoopVaultCurve" name || starts_with "DLoopVaultUniswapV3" name

-- `vaultAddresses`, from the deployments by name.
unfoldable pub vault_addresses : Dict String → List String
unfolding starts_with
vault_addresses deployments =
    let vaults = filter is_vault deployments in
    map (λ d. d.1) (filter (λ d. starts_with "DLoopVaultUniswapV3" d.0) vaults)
    ++ map (λ d. d.1) (filter (λ d. starts_with "DLoopVaultCurve" d.0) vaults)

-- An iteration of the loop of `main`, with the vaults by their addresses: the calls it sends.
unfoldable pub iteration : (String → Vault) → Dict String → List VaultCall
unfolding visit_all vault_addresses
iteration vault_at deployments = (visit_all (map vault_at (vault_addresses deployments))).1

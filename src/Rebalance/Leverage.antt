-- ===== src/Rebalance/Leverage.antt =====
-- The amounts and price limits of the rebalancing bot.
use solidity_contracts.Base.{ℕ, suc, ◌+◌, ◌-◌, ◌*◌, ◌^◌, ◌≤◌, ◌<◌, ◌≡◌, List, [], ◌∷◌, ok}
use solidity_contracts.Rebalance.{VaultCall, Vault}

-- What a call does for the values that were read: in the right direction, back to the target up to
-- rounding, with a limit of five percent off the price.
abbrev pub IsFitting : Vault → ℕ → ℕ → ℕ → ℕ → ℕ → VaultCall → Type 0
IsFitting v current target lower upper price (VaultCall.increase_leverage amount limit) =
    (total : ℕ) × (v.total_assets ≡ ok total)
    × (current < lower)
    × (amount * 10000 ≤ total * (target - current))
    × (total * (target - current) < suc amount * 10000)
    × (limit * 100 ≤ price * 95)
    × (price * 95 < suc limit * 100)
IsFitting v current target lower upper price (VaultCall.decrease_leverage amount limit) =
    (total : ℕ) × (decimals : ℕ) × (v.total_assets ≡ ok total)
    × (v.dusd_decimals ≡ ok decimals)
    × (upper < current)
    × (amount * 10 ^ 18 * 10000 ≤ total * (current - target) * price * 10 ^ decimals)
    × (total * (current - target) * price * 10 ^ decimals
        < suc amount * 10 ^ 18 * 10000 + 9999 * 10 ^ decimals)
    × (limit * 100 ≤ price * 105)
    × (price * 105 < suc limit * 100)

-- No call within the bounds, or one that fits.
pub data Adjusted (v : Vault) (current target lower upper price : ℕ) : List VaultCall → Type 0 where
  balanced : lower ≤ current → current ≤ upper → Adjusted v current target lower upper price []
  corrected :
      {call : VaultCall}
      → IsFitting v current target lower upper price call
      → Adjusted v current target lower upper price (call ∷ [])

-- ===== src/Rebalance/Tests.antt =====
-- Vaults above, within and below their bounds.
use solidity_contracts.Base.{
  ℕ, ◌*◌, ◌^◌, ◌≡◌, refl, true, [], ◌∷◌, ◌++◌, ok, err, external, map, concat,
}
use solidity_contracts.Rebalance.{
  Vault, VaultCall, dusd_amount, rebalance, visit, visit_all, vault_addresses,
}
use solidity_contracts.Rebalance.Iterations.{Visited, visit_all-err}

-- Two assets at 2000 dollars, with eight decimals.
abbrev vault : ℕ → Vault
vault current = record {
  is_too_imbalanced = ok true;
  current_leverage_bps = ok current;
  target_leverage_bps = ok 30000;
  lower_bound_bps = ok 20000;
  upper_bound_bps = ok 35000;
  asset_price_in_base = ok (2000 * 10 ^ 8);
  total_assets = ok (2 * 10 ^ 18);
  dusd_decimals = ok 6;
}

abbrev broken : Vault
broken = record (vault 40000) { total_assets = err (external "") }

increased :
    rebalance (vault 10000)
    ≡ (ok tt, VaultCall.increase_leverage (4 * 10 ^ 18) (1900 * 10 ^ 8) ∷ [])
unfolding rebalance
increased = refl

within : rebalance (vault 31000) ≡ (ok tt, [])
unfolding rebalance
within = refl

-- A gap of one asset at 2000 dollars is 2000 * 10 ^ 6 units of dUSD.
with_price_decimals : dusd_amount (10 ^ 18) 10000 (2000 * 10 ^ 8) 6 ≡ 2000 * 10 ^ 6 * 10 ^ 8
unfolding dusd_amount
with_price_decimals = refl

sorted_addresses :
    vault_addresses
      (("DLoopVaultCurve-a", "0x1") ∷ ("Pool", "0x2") ∷ ("DLoopVaultUniswapV3-b", "0x3") ∷ [])
    ≡ "0x3" ∷ "0x1" ∷ []
unfolding vault_addresses
sorted_addresses = refl

went_through : Visited (vault 31000)
unfolding visit
went_through = refl

throws : (visit broken).0 ≡ err (external "")
unfolding visit
throws = refl

visit_all-err_example :
    visit_all ((vault 31000 ∷ []) ++ (broken ∷ vault 10000 ∷ []))
    ≡ (err (external ""), concat (map (λ u. (visit u).1) (vault 31000 ∷ [])) ++ (visit broken).1)
visit_all-err_example =
    visit_all-err (vault 31000 ∷ []) broken (vault 10000 ∷ []) (external "") (went_through, tt)
      throws

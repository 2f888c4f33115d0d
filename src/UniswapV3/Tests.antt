-- ===== src/UniswapV3/Tests.antt =====
-- Liquidations and batches of the bot for Uniswap V3.
use solidity_contracts.Base.{
  ◌+◌, ◌≡◌, refl, List, [], ◌∷◌, ◌++◌, none, some, str_eq, ok, err, external, arith, if◌then◌else◌,
  ◌==◌, ◌||◌, no_swap_path, no_config,
}
use solidity_contracts.Base.Int.{pos}
use solidity_contracts.Chain.Samples.{whole, chain}
use solidity_contracts.IgnoreMemory.{World}
use solidity_contracts.Swap.{Factory, Packed, SolidityType, zero_address}
use solidity_contracts.Bot.{Services}
use solidity_contracts.Bot.Samples.{Content, disk, bot, started, started-IsValid}
use solidity_contracts.Bot.Selection.{below}
use solidity_contracts.Bot.Batch.{IsRun}
use solidity_contracts.UniswapV3.{
  Pools, uniswap_v3_route, uniswap_services, perform_uniswap_v3_liquidation, run_uniswap_v3_batch,
}
use solidity_contracts.UniswapV3.Batch.{run_uniswap_v3_batch-IsRun, run_uniswap_v3_batch-err}

abbrev Bytes : Type 0
Bytes = List SolidityType × List Packed

-- Pools with a fee of 0.3 %, only with dUSD as one of the two tokens.
abbrev pools : Factory
pools a b fee = ok (
    if str_eq a "0xd" || str_eq b "0xd"
    then (if fee == 3000 then "0x1" else zero_address)
    else zero_address)

abbrev net : Pools Bytes
net = record {
  get_pool = pools;
  quote_token = ok "0xd";
  solidity_packed = λ types values. (types, values);
  no_bytes = ([], []);
  try_call = λ call. ok tt;
}

direct : uniswap_v3_route chain net "0xe" "0xd" ≡ ok ("0xe" ∷ "0xd" ∷ [], 3000 ∷ [])
unfolding uniswap_v3_route
direct = refl

over_dusd :
    uniswap_v3_route chain net "0xe" "0xb" ≡ ok ("0xe" ∷ "0xd" ∷ "0xb" ∷ [], 3000 ∷ 3000 ∷ [])
unfolding uniswap_v3_route
over_dusd = refl

without_pools :
    uniswap_v3_route chain (record net { quote_token = ok "0xc" }) "0xe" "0xb" ≡ err no_swap_path
unfolding uniswap_v3_route
without_pools = refl

unconfigured :
    perform_uniswap_v3_liquidation chain net none "0xf" "0x2" "0xd" "0xe" (pos 7)
    ≡ (err no_config, [])
unfolding perform_uniswap_v3_liquidation
unconfigured = refl

-- The Odos bot skips a user that cannot be read; this one gives up the batch.
gives_up :
    run_uniswap_v3_batch disk whole bot 4
      (λ i. 1000 + i)
      ("0xf" ∷ "0xa" ∷ "0xc" ∷ [])
      2
      (pos 1)
      (pos 1)
      started
    ≡ some (err (external "rpc"), started)
unfolding run_uniswap_v3_batch
gives_up = refl

abbrev uniswap_bot : Services disk whole
unfolding uniswap_services
uniswap_bot = uniswap_services chain net (some (some "0xd")) "0x2" bot

run_uniswap_v3_batch-IsRun_example :
    (last : World Content) × (run_uniswap_v3_batch disk whole uniswap_bot 3
        (λ i. 1000 + i)
        ("0xf" ∷ "0xc" ∷ [])
        2
        (pos 1)
        (pos 1)
        started
      ≡ some (ok tt, last))
    × IsRun disk whole uniswap_bot
        (λ i. 1000 + i)
        0
        (pos 1)
        (below disk whole uniswap_bot (pos 1) ("0xf" ∷ "0xc" ∷ []))
        started
        last
unfolding uniswap_bot
run_uniswap_v3_batch-IsRun_example =
    run_uniswap_v3_batch-IsRun disk whole uniswap_bot 3 (λ i. 1000 + i) ("0xf" ∷ "0xc" ∷ []) 2
      (pos 1) (pos 1) started (omega arith) (omega arith) started-IsValid
      ((pos 0, refl), ((pos 0, refl), tt))

run_uniswap_v3_batch-err_example :
    run_uniswap_v3_batch disk whole uniswap_bot 4
      (λ i. 1000 + i)
      (("0xf" ∷ []) ++ ("0xa" ∷ "0xc" ∷ []))
      2
      (pos 1)
      (pos 1)
      started
    ≡ some (err (external "rpc"), started)
unfolding uniswap_bot
run_uniswap_v3_batch-err_example =
    run_uniswap_v3_batch-err disk whole uniswap_bot 4 (λ i. 1000 + i) ("0xf" ∷ []) "0xa"
      ("0xc" ∷ []) 2 (pos 1) (pos 1) started (external "rpc") (omega arith) (omega arith)
      ((pos 0, refl), tt) refl

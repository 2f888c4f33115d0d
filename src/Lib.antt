-- ===== src/Lib.antt =====
-- Verification of the TypeScript of the dTRINITY contracts repository: the arithmetic, batching, state
-- and decisions of its liquidator bots, their reporter and the rebalancing bot of the DLoop vaults, and
-- the set-up of the reserves of the lending market.
--
-- A bot asks the lending pool for the health factors of all borrowers, in batches. For each borrower
-- below a threshold it reads the balances in every reserve, chooses a debt and a collateral market and
-- the amount to liquidate, estimates the profit, and sends a transaction that repays the debt with a
-- flash loan and swaps the collateral back. Users without profit, and users for whom something failed,
-- are left alone for some minutes, which is remembered in a file.
--
--   Base          shared names, lists, results, signed integers, association lists
--   Maths         utils/maths/PercentMath.ts, utils/maths/WadRayMath.ts
--   Batches       batchedPromiseAll, batchProcessing, splitToBatches of utils/utils.ts; chunk of
--                 utils/lending/utils.ts
--   IgnoreMemory  ShortTermIgnoreMemory and saveToFile of utils/utils.ts
--   Chain         the contract calls and floating-point numbers that are parameters
--   Lending       utils/lending/balance.ts, utils/lending/account.ts, getCloseFactorHFThreshold
--   Accounts      getAllLendingUserAddresses of utils/liquidator-bot/odos/utils.run.ts
--   Liquidation   utils/liquidator-bot/shared/utils.ts
--   Markets       utils/liquidator-bot/shared/utils.run.ts, getUserLiquidationParams of
--                 utils/liquidator-bot/odos/utils.run.ts
--   Swap          convertToSwapPath of utils/dex/utils.ts, pool look-ups of utils/dex/pool.ts,
--                 getSwapPath of utils/liquidator-bot/utils.ts
--   Bot           runBotBatch of utils/liquidator-bot/odos/run.ts
--   Round         runOdosBot of utils/liquidator-bot/odos/run.ts
--   Tokens        fetchTokenInfo, symbolsToAddresses of utils/token.ts
--   Perform       performLiquidation of utils/liquidator-bot/utils.ts
--   Odos          utils/odos/client.ts and performOdosLiquidationDefault of
--                 utils/liquidator-bot/odos/utils.ts
--   UniswapV3     utils/liquidator-bot/uniswap-v3/utils.ts and runBotBatch of
--                 utils/liquidator-bot/uniswap-v3/run.ts
--   Curve         utils/liquidator-bot/curve/utils.ts
--   Complete      runBotBatch with the components Lending, Markets, Liquidation and Odos
--   Reporter      checkHealthFactors of scripts/liquidator-bot/slack-reporter/run.ts
--   Report        generateDetailedStatsCSVContent of scripts/liquidator-bot/slack-reporter/run.ts
--   Rebalance     scripts/dloop/rebalance-bot/run.ts
--   Reserves      utils/lending/init-helper.ts, utils/address.ts
--
-- A function that may throw gives a `Result`; a method that changes state takes the state and returns
-- it, also when it throws. BigNumber and bigint are the integers `ℤ`; natural numbers stand for
-- lengths, times and fees. JavaScript's floating-point numbers are a parameter (`Number`), with
-- nothing assumed of their comparisons but where a theorem says so. Calls that run at once in `Promise.all` are made in order, so
-- the first failure is the one in the order of the list.
--
-- The loops that advance by a batch size take fuel, as a batch size of 0 never ends; for a positive
-- batch size one more than the length of the input is enough, since every round advances; for the pages of accounts one more than the number of accounts is enough.
--
-- Calls that change the chain are kept as lists in the order in which they are sent (Base/Traces);
-- whether one goes through is a parameter. Exceptions are taken to have a message, and a state of a
-- user to be turned into a text and written without a failure.
--
-- Not modelled: the Solidity contracts, whose calls are parameters; the deployment scripts and their
-- configuration; log messages, pauses and progress output; parsing and printing of numbers; the rounds
-- of the bots for Curve and Uniswap V3, which repeat the code of the Odos bot; the older bot.
pub mod Base
pub mod Maths
pub mod Batches
pub mod IgnoreMemory
pub mod Chain
pub mod Lending
pub mod Accounts
pub mod Liquidation
pub mod Markets
pub mod Swap
pub mod Bot
pub mod Round
pub mod Perform
pub mod Tokens
pub mod Odos
pub mod Rebalance
pub mod UniswapV3
pub mod Curve
pub mod Reporter
pub mod Report
pub mod Reserves
pub mod Complete

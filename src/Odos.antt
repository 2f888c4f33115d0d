-- ===== src/Odos.antt =====
-- Swaps over the Odos service, and the liquidation that uses them: utils/odos/client.ts (Odos/Client)
-- and utils/liquidator-bot/odos/utils.ts (Odos/Liquidate).
pub mod Client
pub mod Liquidate
pub mod Choices
pub mod Quotes
pub mod Arguments
pub mod Calls
pub mod Samples
mod Tests

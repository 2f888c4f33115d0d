-- ===== src/Round/Batches.antt =====
-- A round reaches every user that is not ignored.
use solidity_contracts.Base.{ℕ, ◌+◌, ◌≡◌, List, [], ◌∷◌, String}
use solidity_contracts.Chain.{Number}
use solidity_contracts.IgnoreMemory.Files.{Platform}
use solidity_contracts.IgnoreMemory.{World}
use solidity_contracts.Bot.{Services}
use solidity_contracts.Bot.Selection.{selected}
use solidity_contracts.Bot.Batch.{IsRun}
use solidity_contracts.Round.{OdosConfig}

module _ (p : Platform) (n : Number) (s : Services p n) where
  open p use {Text}
  open n use {Num}

  -- Every batch is run, one after the other.
  abbrev pub IsRound :
      (ℕ → ℕ → ℕ) → ℕ → OdosConfig Num → List (List String) → World Text → World Text → Type 0
  IsRound clock b config [] w last = w ≡ last
  IsRound clock b config (batch ∷ batches) w last =
      (next : World Text) × IsRun p n s (clock b) 0 config.profitable_threshold_in_usd
        (selected p n s config.health_factor_threshold batch) w next
      × IsRound clock (b + 1) config batches next last

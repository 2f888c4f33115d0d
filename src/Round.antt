-- ===== src/Round.antt =====
-- One round of the Odos liquidator bot over all the borrowers: `runOdosBot` of
-- utils/liquidator-bot/odos/run.ts. The shuffle, a sort by random numbers, is a parameter; so is the
-- look-up of the two liquidator contracts, which may throw. The user at index `i` of the batch `b` is
-- processed at the time `clock b i`, and the filter reads one time for all users.
pub mod Users
pub mod Batches
mod Tests
use solidity_contracts.Base.{
  ℕ, zero, suc, ◌+◌, Bool, true, false, List, [], ◌∷◌, Option, none, some, String, Result, ok, err,
  no_config, if◌then◌else◌,
}
use solidity_contracts.Batches.{split_to_batches}
use solidity_contracts.Chain.{Number}
use solidity_contracts.IgnoreMemory.Files.{Platform}
use solidity_contracts.IgnoreMemory.{World, Outcome, is_ignored}
use solidity_contracts.Bot.{Services, run_bot_batch}

-- `config.liquidatorBotOdos`, the fields in use.
pub record OdosConfig (Num : Type 0) : Type 0 where
  pub liquidating_batch_size : ℕ
  pub health_factor_batch_size : ℕ
  pub health_factor_threshold : Num
  pub profitable_threshold_in_usd : Num

module _ (p : Platform) where
  open p use {Text}

  -- `k` on the value and the world that a call left behind, unless it threw.
  abbrev pub with_value :
      {A B : Type 0} → Outcome p A → (A → World Text → Outcome p B) → Outcome p B
  with_value (ok a, w) k = k a w
  with_value (Result.err e, w) k = (Result.err e, w)

  -- `allUserAddresses.filter(user => !notProfitableUserMemory.isIgnored(user))`
  unfoldable pub filter_ignored : ℕ → List String → World Text → Outcome p (List String)
  unfolding is_ignored
  filter_ignored now [] w = (ok [], w)
  filter_ignored now (user ∷ users) w = with_value (is_ignored p now user w) (λ ignored w'.
      with_value (filter_ignored now users w')
        (λ kept w''. (ok (if ignored then kept else user ∷ kept), w'')))

module _ (p : Platform) (n : Number) (s : Services p n) where
  open p use {Text}
  open n use {Num}

  -- The loop over the batches; what a batch throws is caught.
  unfoldable pub run_batches :
      ℕ
      → (ℕ → ℕ → ℕ)
      → ℕ
      → OdosConfig Num
      → List (List String)
      → World Text
      → Option (Outcome p (Unit {0}))
  unfolding run_bot_batch
  run_batches fuel clock b config [] w = some (ok tt, w)
  run_batches fuel clock b config (batch ∷ batches) w =
      elim (run_bot_batch p n s fuel (clock b) batch config.health_factor_batch_size
        config.health_factor_threshold config.profitable_threshold_in_usd w) [
          | none ↦ none
          | some o ↦ run_batches fuel clock (b + 1) config batches o.1
        ]

  -- Behind the filter.
  unfoldable pub run_kept :
      ℕ
      → (ℕ → ℕ → ℕ)
      → (List String → List String)
      → OdosConfig Num
      → Outcome p (List String)
      → Option (Outcome p (Unit {0}))
  unfolding split_to_batches run_batches
  run_kept fuel clock shuffle config (Result.err e, w) = some (Result.err e, w)
  run_kept fuel clock shuffle config (Result.ok kept, w) =
      elim (split_to_batches fuel (shuffle kept) config.liquidating_batch_size) [
        | none ↦ none
        | some batches ↦ run_batches fuel clock 0 config batches w
      ]

  abbrev pub behind_users :
      ℕ
      → (ℕ → ℕ → ℕ)
      → ℕ
      → (List String → List String)
      → OdosConfig Num
      → Result (List String)
      → World Text
      → Option (Outcome p (Unit {0}))
  behind_users fuel clock now shuffle config (err e) w = some (err e, w)
  behind_users fuel clock now shuffle config (ok users) w =
      run_kept fuel clock shuffle config (filter_ignored p now users w)

  -- `runOdosBot`, for the results of the look-ups of the contracts and of the users.
  unfoldable pub run_odos_bot :
      ℕ
      → (ℕ → ℕ → ℕ)
      → ℕ
      → (List String → List String)
      → Option (OdosConfig Num)
      → Result (Unit {0})
      → Result (List String)
      → World Text
      → Option (Outcome p (Unit {0}))
  unfolding filter_ignored run_kept
  run_odos_bot fuel clock now shuffle none contracts users w = some (err no_config, w)
  run_odos_bot fuel clock now shuffle (some config) (err e) users w = some (err e, w)
  run_odos_bot fuel clock now shuffle (some config) (ok _) users w =
      behind_users fuel clock now shuffle config users w

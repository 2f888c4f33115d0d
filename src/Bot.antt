-- ===== src/Bot.antt =====
-- One batch of the Odos liquidator bot: `runBotBatch` of utils/liquidator-bot/odos/run.ts. The bot
-- keeps the ignore memory and the state files of its users in the files of `World`. What it asks of
-- the chain and of the other parts is the record `Services`. A user is processed at one time, which
-- is the value of every `Date.now()` for the user. Log and Slack messages and pauses are left out,
-- and numbers stand in the state files as they are, not printed. What is thrown is an exception with
-- a message, and turning a state into a text and writing a file are taken to succeed; where one of
-- the two fails, the code throws outside of the `try` block.
pub mod Selection
pub mod Users
pub mod Batch
pub mod Samples
mod Tests
use Prim.Native.String.{◌++◌}
use solidity_contracts.Base.{
  ℕ, zero, suc, ◌+◌, Bool, true, false, List, [], ◌∷◌, map, Option, none, some, String, length,
  ◌==◌, Result, ok, err, Error, if◌then◌else◌,
}
use solidity_contracts.Base.Int.{ℤ, is_zero}
use solidity_contracts.Batches.{batch_processing}
use solidity_contracts.Chain.{Number, TokenInfo}
use solidity_contracts.Markets.{LiquidationParams}
use solidity_contracts.IgnoreMemory.Files.{Platform, save_to_file}
use solidity_contracts.IgnoreMemory.{World, put, Outcome, after}

-- What the `catch` clause distinguishes: a `NotProfitableLiquidationError` with its collateral and
-- borrow token, and everything else that is thrown.
pub data Failure : Type 0 where
  not_profitable : TokenInfo → TokenInfo → Failure
  other : Error → Failure

-- The fields `error` and `errorMessage` of a user's state.
pub data StateError : Type 0 where
  nothing no_debt : StateError
  thrown : Failure → StateError

-- What `performOdosLiquidationDefault` does: a transaction hash, or what it throws.
pub data Attempt : Type 0 where
  done : String → Attempt
  failed : Failure → Attempt

pub record TokenName : Type 0 where
  pub address : String
  pub symbol : String

pub record UserStateLog (Num : Type 0) : Type 0 where
  pub health_factor : Num
  pub to_liquidate_amount : Option ℤ
  pub collateral_token : Option TokenName
  pub debt_token : Option TokenName
  pub last_trial : ℕ
  pub success : Bool
  pub profit_in_usd : Option Num
  pub profitable : Bool
  pub error : StateError

-- What the batch calls of the other parts, and the user state as `JSON.stringify` writes it.
pub record Services (p : Platform) (n : Number) : Type 0 where
  pub get_user_health_factor : String → Result n.Num
  pub get_user_liquidation_params : String → Result LiquidationParams
  pub get_liquidation_profit_in_usd : TokenInfo → ℤ → ℕ → ℤ → Result n.Num
  pub perform_odos_liquidation : LiquidationParams → Attempt
  -- `${STATE_DIR_PATH}/${USER_STATE_DIR_NAME}`
  pub user_state_dir : String
  pub stringify_state : UserStateLog n.Num → p.Text

module _ (p : Platform) (n : Number) (s : Services p n) where
  open p use {Text, dirname}
  open n use {Num, lt, ge}

  -- A health factor that cannot be read is `undefined`.
  abbrev pub fetch_health_factor : String → Option Num
  fetch_health_factor user_address = elim (s.get_user_health_factor user_address) [
    | ok h ↦ some h
    | Result.err e ↦ none
  ]

  -- `healthFactorsRaw.filter((healthFactor) => healthFactor !== undefined)`
  unfoldable pub defined : List (Option Num) → List Num
  defined [] = []
  defined (none ∷ hs) = defined hs
  defined (some h ∷ hs) = h ∷ defined hs

  -- The loop over the addresses by index; beyond the end of `health_factors` is `undefined`, which is
  -- not below any threshold.
  unfoldable pub liquidatable_users : Num → List String → List Num → List (String × Num)
  liquidatable_users threshold [] health_factors = []
  liquidatable_users threshold (user ∷ users) [] = []
  liquidatable_users threshold (user ∷ users) (h ∷ hs) =
      if lt h threshold
      then (user, h) ∷ liquidatable_users threshold users hs
      else liquidatable_users threshold users hs

  abbrev pub token_name : TokenInfo → TokenName
  token_name t = record { address = t.address; symbol = t.symbol }

  abbrev pub new_state : ℕ → Num → UserStateLog Num
  new_state now health_factor = record {
    health_factor = health_factor;
    to_liquidate_amount = none;
    collateral_token = none;
    debt_token = none;
    last_trial = now;
    success = false;
    profit_in_usd = none;
    profitable = false;
    error = StateError.nothing;
  }

  -- Where the `try` block stands when it ends: what it threw, if anything, with the state so far.
  abbrev pub Tried : Type 0
  Tried = Option Failure × UserStateLog Num × World Text

  -- `notProfitableUserMemory.put(user)`, and then the state `later`, unless it throws.
  abbrev pub behind_put : UserStateLog Num → UserStateLog Num → Outcome p (Unit {0}) → Tried
  behind_put before later (ok _, w) = (none, later, w)
  behind_put before later (err e, w) = (some (Failure.other e), before, w)

  abbrev pub put_and : ℕ → String → UserStateLog Num → UserStateLog Num → World Text → Tried
  put_and now user before later w = behind_put before later (put p now user w)

  -- Behind `performOdosLiquidationDefault`.
  abbrev pub behind_attempt : UserStateLog Num → World Text → Attempt → Tried
  behind_attempt state w (Attempt.done hash) = (none, record state { success = true }, w)
  behind_attempt state w (Attempt.failed f) = (some f, state, w)

  abbrev pub liquidate : ℕ → LiquidationParams → UserStateLog Num → World Text → Tried
  liquidate now params state w =
      behind_attempt (record state { last_trial = now; success = false }) w
        (s.perform_odos_liquidation params)

  -- Behind `getLiquidationProfitInUSD`.
  unfoldable pub behind_profit :
      ℕ → Num → String → LiquidationParams → UserStateLog Num → World Text → Result Num → Tried
  unfolding put
  behind_profit now profitable_threshold user params state w (Result.err e) =
      (some (Failure.other e), state, w)
  behind_profit now profitable_threshold user params state w (Result.ok profit) =
      let profitable = ge profit profitable_threshold in
      let rated = record state { profit_in_usd = some profit; profitable = profitable } in
      if profitable
      then liquidate now params rated w
      else put_and now user rated (record rated { success = false }) w

  -- Behind `getUserLiquidationParams`.
  unfoldable pub behind_params :
      ℕ → Num → String → UserStateLog Num → World Text → Result LiquidationParams → Tried
  unfolding put behind_profit
  behind_params now profitable_threshold user state w (Result.err e) =
      (some (Failure.other e), state, w)
  behind_params now profitable_threshold user state w (Result.ok params) =
      let known = record state {
        to_liquidate_amount = some params.to_liquidate_amount;
        collateral_token = some (token_name params.collateral_token.reserve_token_info);
        debt_token = some (token_name params.debt_token.reserve_token_info);
      } in
      if is_zero params.to_liquidate_amount
      then put_and now user known (record known { success = false; error = StateError.no_debt }) w
      else behind_profit now profitable_threshold user params known w (
          s.get_liquidation_profit_in_usd params.debt_token.reserve_token_info
            params.debt_token.price_in_usd params.debt_token.price_decimals
            params.to_liquidate_amount)

  -- The `try` block.
  unfoldable pub try_user : ℕ → Num → String → Num → World Text → Tried
  unfolding behind_params
  try_user now profitable_threshold user health_factor w =
      behind_params now profitable_threshold user (new_state now health_factor) w
        (s.get_user_liquidation_params user)

  -- What the `catch` clause writes to the state.
  abbrev pub caught : Failure → UserStateLog Num → UserStateLog Num
  caught (Failure.not_profitable collateral borrow) state = record state {
    success = false;
    collateral_token = some (token_name collateral);
    debt_token = some (token_name borrow);
    error = StateError.thrown (Failure.not_profitable collateral borrow);
  }
  caught (Failure.other e) state = record state {
    success = false;
    error = StateError.thrown (Failure.other e);
  }

  abbrev pub user_state_path : String → String
  user_state_path user = s.user_state_dir ++ "/" ++ user ++ ".json"

  -- `saveToFile` of the state, which is taken to go through.
  abbrev pub save_state : String → UserStateLog Num → World Text → Outcome p (Unit {0})
  save_state user state w = (
    ok tt,
    record w { fs = save_to_file dirname (user_state_path user) (s.stringify_state state) w.fs },
  )

  -- The `catch` clause, if something was thrown, and `saveToFile`.
  abbrev pub finish_user : ℕ → String → Tried → Outcome p (Unit {0})
  finish_user now user (none, state, w) = save_state user state w
  finish_user now user (some f, state, w) =
      after p (put p now user w) (save_state user (caught f state))

  -- The body of the loop over the users to liquidate.
  unfoldable pub process_user : ℕ → Num → String → Num → World Text → Outcome p (Unit {0})
  unfolding try_user put save_to_file
  process_user now profitable_threshold user health_factor w =
      finish_user now user (try_user now profitable_threshold user health_factor w)

  -- The loop, the user at index `i` at the time `clock i`.
  unfoldable pub process_users :
      (ℕ → ℕ) → ℕ → Num → List (String × Num) → World Text → Outcome p (Unit {0})
  unfolding process_user
  process_users clock i profitable_threshold [] w = (ok tt, w)
  process_users clock i profitable_threshold ((user, h) ∷ users) w =
      after p (process_user (clock i) profitable_threshold user h w)
        (process_users clock (i + 1) profitable_threshold users)

  abbrev pub process_fetched :
      (ℕ → ℕ) → Num → Num → List String → List Num → World Text → Outcome p (Unit {0})
  process_fetched clock threshold profitable_threshold users health_factors w =
      if length health_factors == 0
      then (ok tt, w)
      else process_users clock 0 profitable_threshold
          (liquidatable_users threshold users health_factors) w

  abbrev pub with_raw :
      (ℕ → ℕ)
      → Num
      → Num
      → List String
      → World Text
      → Option (Result (List (Option Num)))
      → Option (Outcome p (Unit {0}))
  with_raw clock threshold profitable_threshold users w none = none
  with_raw clock threshold profitable_threshold users w (some (err e)) = some (err e, w)
  with_raw clock threshold profitable_threshold users w (some (ok raw)) =
      some (process_fetched clock threshold profitable_threshold users (defined raw) w)

  -- `runBotBatch`, on fuel for the batches of health factors.
  unfoldable pub run_bot_batch :
      ℕ → (ℕ → ℕ) → List String → ℕ → Num → Num → World Text → Option (Outcome p (Unit {0}))
  unfolding batch_processing defined liquidatable_users process_users
  run_bot_batch fuel clock users health_factor_batch_size threshold profitable_threshold w =
      with_raw clock threshold profitable_threshold users w (
        batch_processing fuel users health_factor_batch_size
          (λ user. ok (fetch_health_factor user)))
